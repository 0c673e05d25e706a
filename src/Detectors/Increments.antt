-- ===== src/Detectors/Increments.antt =====
-- What `incrementWatcher` counts.
use teob_ts.Common.{
  ℕ, ◌+◌, ◌≤◌, Option, none, some, List, [], ◌∷◌, ◌++◌, ◌≡◌, arith, All, All-append,
}
use teob_ts.Detectors.{
  DetectorSample, DetectorEvent, IncrementTag, watch, increment_watcher, outputs,
}

-- The sum of the increments.
abbrev pub total : List (DetectorEvent ℕ IncrementTag) → ℕ
total [] = 0
total (e ∷ es) = e.value + total es

-- The counter never goes down, from `low` on.
abbrev pub Counts : ℕ → List (DetectorSample ℕ) → Type 0
Counts low [] = Unit
Counts low (x ∷ xs) = (low ≤ x.value) × Counts x.value xs

abbrev pub last_value : ℕ → List (DetectorSample ℕ) → ℕ
last_value low [] = low
last_value low (x ∷ xs) = last_value x.value xs

total-append :
    (xs ys : List (DetectorEvent ℕ IncrementTag)) → total (xs ++ ys) ≡ total xs + total ys
total-append [] ys = omega arith
total-append (x ∷ xs) ys = omega (arith, total-append xs ys)

abbrev pub anchor_or : Option (ℕ × ℕ) → ℕ → ℕ
anchor_or none low = low
anchor_or (some (anchor_at, value)) low = value

-- The anchor that a step leaves is at most the sample, and has moved by what was emitted at least.
watch-anchor :
    (min_increment window_ms low : ℕ) (s : Option (ℕ × ℕ)) (x : DetectorSample ℕ)
    → anchor_or s low ≤ low
    → low ≤ x.value
    → let r = watch min_increment window_ms s x in
      (anchor_or r.0 x.value ≤ x.value)
      × (total r.1 + anchor_or s low ≤ anchor_or r.0 x.value)
      × All (λ e. min_increment ≤ e.value) r.1
unfolding watch
watch-anchor min_increment window_ms low none x h up = (omega arith, omega arith, tt)
watch-anchor min_increment window_ms low (some (anchor_at, anchor)) x h up = ground arith

outputs-total :
    (min_increment window_ms low : ℕ) (s : Option (ℕ × ℕ)) (xs : List (DetectorSample ℕ))
    → anchor_or s low ≤ low
    → Counts low xs
    → let es = outputs (increment_watcher min_increment window_ms) s xs in
      (total es + anchor_or s low ≤ last_value low xs) × All (λ e. min_increment ≤ e.value) es
outputs-total min_increment window_ms low s [] h counts = (omega arith, tt)
outputs-total min_increment window_ms low s (x ∷ xs) h counts =
    let r = watch min_increment window_ms s x in
    let (below, moved, large) = watch-anchor min_increment window_ms low s x h counts.0 in
    let (later, all_large) = outputs-total min_increment window_ms x.value r.0 xs below counts.1 in
    let rest = outputs (increment_watcher min_increment window_ms) r.0 xs in
    (
      omega (arith, total-append r.1 rest, moved, later),
      All-append (λ e. min_increment ≤ e.value) r.1 rest large all_large,
    )

-- A watcher from its start on a counter that never goes down, from `low` on: every increment that it
-- reports is as large as the least one asked for, and together they are no more than the counter went
-- up by, so nothing is counted twice.
pub increment_watcher-total :
    (min_increment window_ms low : ℕ) (xs : List (DetectorSample ℕ))
    → Counts low xs
    → let es = outputs (increment_watcher min_increment window_ms) none xs in
      (total es + low ≤ last_value low xs) × All (λ e. min_increment ≤ e.value) es
increment_watcher-total min_increment window_ms low xs counts =
    outputs-total min_increment window_ms low none xs (omega arith) counts
