-- ===== src/Window/Tests.antt =====
-- A window of 10 ms at concrete times.
use teob_ts.Common.{ℕ, true, List, [], ◌∷◌, ◌≡◌, refl, filter, arith, some}
use teob_ts.Window.{in_window, within, values, oldest}
use teob_ts.Window.Eviction.{count, entries_of, add_all, within-add_all}

-- The last addition, at 20, stands first; one comes late.
abbrev readings : List (ℕ × ℕ)
readings = (20, 3) ∷ (11, 9) ∷ (13, 2) ∷ (5, 1) ∷ []

shown : values (add_all 10 readings) 22 10 ≡ 3 ∷ 2 ∷ []
unfolding values add_all
shown = refl

oldest_shown : oldest (add_all 10 readings) 20 10 ≡ some 11
unfolding oldest add_all
oldest_shown = refl

within-add_all_example :
    count (λ e. true) (within (add_all 10 readings) 22 10)
    ≡ count (λ e. true) (filter (in_window 22 10) (entries_of readings))
within-add_all_example =
    within-add_all (λ e. true) 22 10 readings
      (omega arith, (omega arith, (omega arith, (omega arith, tt))))
