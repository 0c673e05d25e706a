-- ===== src/Window/Eviction.antt =====
-- Eviction on write loses nothing that a later read would show.
use teob_ts.Common.{
  ℕ, ◌+◌, ◌≤◌, Bool, ◌&&◌, List, [], ◌∷◌, ◌≡◌, refl, sym, ◌∙◌, arith, leb, filter, All,
  if◌then◌else◌, Bool-cases, inl, inr,
}
use teob_ts.Window.{
  WindowEntry, EventWindow, insert_entry, sort_entries, in_window, retain_entries, empty, add,
  within,
}

-- The entries that pass a test.
abbrev pub count : {A : Type 0} → (WindowEntry A → Bool) → List (WindowEntry A) → ℕ
count test [] = 0
count test (e ∷ es) = (if test e then 1 else 0) + count test es

module _ {A : Type 0} where
  count-insert_entry :
      (test : WindowEntry A → Bool) (e : WindowEntry A) (es : List (WindowEntry A))
      → count test (insert_entry e es) ≡ count test (e ∷ es)
  unfolding insert_entry
  count-insert_entry test e [] = refl
  count-insert_entry test e (x ∷ xs) = elim (Bool-cases (leb x.at e.at)) [
    | inl h ↦ rw h refl
    | inr h ↦ rw h (omega (arith, count-insert_entry test e xs))
  ]

  count-sort_entries :
      (test : WindowEntry A → Bool) (es : List (WindowEntry A))
      → count test (sort_entries es) ≡ count test es
  unfolding sort_entries
  count-sort_entries test [] = refl
  count-sort_entries test (e ∷ es) =
      omega (arith, count-insert_entry test e (sort_entries es), count-sort_entries test es)

  count-filter :
      (test p : WindowEntry A → Bool) (es : List (WindowEntry A))
      → count test (filter p es) ≡ count (λ e. p e && test e) es
  count-filter test p [] = refl
  count-filter test p (e ∷ es) = elim (Bool-cases (p e)) [
    | inl h ↦ rw h (omega (arith, count-filter test p es))
    | inr h ↦ rw h (omega (arith, count-filter test p es))
  ]

  -- What an earlier time evicts, a later one evicts too.
  count-later :
      (test : WindowEntry A → Bool) (at now window_ms : ℕ) (es : List (WindowEntry A))
      → at ≤ now
      → count (λ e. in_window now window_ms e && test e) (filter (in_window at window_ms) es)
        ≡ count (λ e. in_window now window_ms e && test e) es
  count-later test at now window_ms [] h = refl
  count-later test at now window_ms (e ∷ es) h =
      ground (arith, count-later test at now window_ms es)

  -- The entries that are added, and the window that they leave.
  abbrev pub entries_of : List (ℕ × A) → List (WindowEntry A)
  entries_of [] = []
  entries_of ((at, value) ∷ rest) = record { at = at; value = value } ∷ entries_of rest

  -- The last addition stands first.
  unfoldable pub add_all : ℕ → List (ℕ × A) → EventWindow A
  unfolding add
  add_all window_ms [] = empty
  add_all window_ms ((at, value) ∷ rest) = add (add_all window_ms rest) at value window_ms

  live : (WindowEntry A → Bool) → ℕ → ℕ → List (WindowEntry A) → ℕ
  live test now window_ms es = count (λ e. in_window now window_ms e && test e) es

  live-add_all :
      (test : WindowEntry A → Bool) (now window_ms : ℕ) (added : List (ℕ × A))
      → All (λ x. x.0 ≤ now) added
      → live test now window_ms (add_all window_ms added).entries
        ≡ live test now window_ms (entries_of added)
  unfolding live add_all retain_entries
  live-add_all test now window_ms [] h = refl
  live-add_all test now window_ms ((at, value) ∷ rest) h =
      let e : WindowEntry A = record { at = at; value = value } in
      let before = e ∷ (add_all window_ms rest).entries in
      count-sort_entries _ (filter (in_window at window_ms) before)
      ∙ count-later test at now window_ms before h.0
      ∙ omega (arith, live-add_all test now window_ms rest h.1)

  -- After any additions, in whatever order their times come but none later than `now`: of every kind
  -- of entry, a read at `now` shows as many as were added inside the window that ends at `now`. The
  -- eviction on each addition loses nothing, and the read shows nothing that is too old.
  pub within-add_all :
      (test : WindowEntry A → Bool) (now window_ms : ℕ) (added : List (ℕ × A))
      → All (λ x. x.0 ≤ now) added
      → count test (within (add_all window_ms added) now window_ms)
        ≡ count test (filter (in_window now window_ms) (entries_of added))
  unfolding within retain_entries live
  within-add_all test now window_ms added h =
      count-sort_entries test (filter (in_window now window_ms) (add_all window_ms added).entries)
      ∙ count-filter test (in_window now window_ms) (add_all window_ms added).entries
      ∙ live-add_all test now window_ms added h
      ∙ sym (count-filter test (in_window now window_ms) (entries_of added))
