-- ===== src/Detectors/Sustained.antt =====
-- When `sustainedAbove` confirms a threshold.
use teob_ts.Common.{ℕ, ◌+◌, ◌≤◌, Bool, true, false, List, [], ◌∷◌, ◌≡◌, arith, ◌⊎◌, inr}
use teob_ts.Detectors.{
  DetectorSample, DetectorEvent, SustainedTag, threshold_sustained, threshold_cleared,
  SustainedPhase, SustainedParams, sustain_idle, pending_since, active, sustain,
}

-- Of samples, the last one first: those back to one at the time `since` are at the threshold or above.
abbrev pub IsAboveSince : ℕ → ℕ → List (DetectorSample ℕ) → Type 0
IsAboveSince threshold since [] = ⊥
IsAboveSince threshold since (x ∷ xs) =
    (threshold ≤ x.value) × ((x.at ≡ since) ⊎ IsAboveSince threshold since xs)

-- The phase after samples, the last one first.
abbrev pub phase_after : SustainedParams → List (DetectorSample ℕ) → SustainedPhase
phase_after p [] = sustain_idle
phase_after p (x ∷ xs) = (sustain p (phase_after p xs) x).0

abbrev pub IsTold : SustainedParams → List (DetectorSample ℕ) → SustainedPhase → Type 0
IsTold p xs sustain_idle = Unit
IsTold p xs (pending_since since) = IsAboveSince p.threshold since xs
IsTold p xs active = Unit

sustain-IsTold :
    (p : SustainedParams) (s : SustainedPhase) (x : DetectorSample ℕ) (xs : List (DetectorSample ℕ))
    → IsTold p xs s
    → IsTold p (x ∷ xs) (sustain p s x).0
unfolding sustain
sustain-IsTold p sustain_idle x xs h = ground arith
sustain-IsTold p (pending_since since) x xs h = ground arith
sustain-IsTold p active x xs h = ground arith

phase_after-IsTold :
    (p : SustainedParams) (xs : List (DetectorSample ℕ)) → IsTold p xs (phase_after p xs)
phase_after-IsTold p [] = tt
phase_after-IsTold p (x ∷ xs) = sustain-IsTold p (phase_after p xs) x xs (phase_after-IsTold p xs)

abbrev pub is_sustained : List (DetectorEvent ℕ SustainedTag) → Bool
is_sustained [] = false
is_sustained (e ∷ _) = elim e.tag [ threshold_sustained ↦ true | threshold_cleared ↦ false ]

confirmed :
    (p : SustainedParams) (s : SustainedPhase) (x : DetectorSample ℕ) (xs : List (DetectorSample ℕ))
    → IsTold p xs s
    → is_sustained (sustain p s x).1 ≡ true
    → (since : ℕ) × IsAboveSince p.threshold since (x ∷ xs) × (since + p.sustain_ms ≤ x.at)
unfolding sustain
confirmed p sustain_idle x xs h e = ground arith
confirmed p (pending_since since) x xs h e = (since, (ground arith, inr h), ground arith)
confirmed p active x xs h e = ground arith

-- After any samples, where the next one makes the detector confirm the threshold: that sample and all
-- before it, back to one at least `sustain_ms` earlier, are at the threshold or above it.
pub sustained_above-IsAboveSince :
    (p : SustainedParams) (xs : List (DetectorSample ℕ)) (x : DetectorSample ℕ)
    → is_sustained (sustain p (phase_after p xs) x).1 ≡ true
    → (since : ℕ) × IsAboveSince p.threshold since (x ∷ xs) × (since + p.sustain_ms ≤ x.at)
sustained_above-IsAboveSince p xs x = confirmed p (phase_after p xs) x xs (phase_after-IsTold p xs)
