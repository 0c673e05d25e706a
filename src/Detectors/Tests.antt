-- ===== src/Detectors/Tests.antt =====
-- Detectors on a few samples.
use teob_ts.Common.{
  ℕ, ◌+◌, ◌-◌, ◌*◌, ◌/◌, ◌≤◌, none, false, List, [], ◌∷◌, ◌≡◌, refl, arith, leb, All, map,
}
use teob_ts.Detectors.{
  DetectorSample, Arithmetic, RiseParams, rise_idle, relative_rise, SustainedParams, sustain,
  increment_watcher, outputs, watch,
}
use teob_ts.Detectors.Increments.{total, increment_watcher-total}
use teob_ts.Detectors.Sustained.{IsAboveSince, sustained_above-IsAboveSince}
use teob_ts.Detectors.Alternation.{Alternates, is_rise, relative_rise-Alternates}

abbrev sample : ℕ → ℕ → DetectorSample ℕ
sample at value = record { at = at; value = value; obs_id = "o" }

abbrev counter : List (DetectorSample ℕ)
counter = sample 1 10 ∷ sample 2 12 ∷ sample 3 17 ∷ sample 50 30 ∷ []

two_reported : map (λ e. e.value) (outputs (increment_watcher 5 20) none counter) ≡ 7 ∷ []
unfolding watch
two_reported = refl

increment_watcher-total_example :
    (total (outputs (increment_watcher 5 20) none counter) + 10 ≤ 30)
    × All (λ e. 5 ≤ e.value) (outputs (increment_watcher 5 20) none counter)
increment_watcher-total_example =
    increment_watcher-total 5 20 10 counter
      (omega arith, (omega arith, (omega arith, (omega arith, tt))))

abbrev limits : SustainedParams
limits = record { threshold = 50; sustain_ms = 10; clear_below = 40 }

-- The last sample first.
abbrev hot : List (DetectorSample ℕ)
hot = sample 6 55 ∷ sample 3 60 ∷ sample 1 20 ∷ []

sustained_above-IsAboveSince_example :
    (since : ℕ) × IsAboveSince 50 since (sample 13 51 ∷ hot) × (since + 10 ≤ 13)
unfolding sustain
sustained_above-IsAboveSince_example = sustained_above-IsAboveSince limits hot (sample 13 51) refl

-- Whole numbers in place of the arithmetic.
abbrev whole : Arithmetic ℕ
whole = record {
  of_ℕ = λ n. n;
  add = λ a b. a + b;
  sub = λ a b. a - b;
  mul = λ a b. a * b;
  div = λ a b. a / b;
  exp = λ a. a;
  ln2 = 1;
  at_least = λ a b. leb b a;
}

abbrev steam : RiseParams ℕ
steam = record { baseline_halflife_ms = 10; rise_pct = 100; clear_pct = 0; warmup_ms = 0 }

relative_rise-Alternates_example : Alternates is_rise false (
    outputs
      (relative_rise whole steam)
      (record { baseline = none; phase = rise_idle })
      (sample 1 10 ∷ sample 2 30 ∷ sample 3 10 ∷ []))
relative_rise-Alternates_example =
    relative_rise-Alternates whole steam (sample 1 10 ∷ sample 2 30 ∷ sample 3 10 ∷ [])
