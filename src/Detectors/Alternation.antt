-- ===== src/Detectors/Alternation.antt =====
-- A rise is reported before it is cleared: the outputs of the two-phase detectors alternate.
use teob_ts.Common.{
  ◌+◌, ℕ, Option, none, some, Bool, true, false, not, ◌&&◌, List, [], ◌∷◌, ◌≡◌, refl, leb, ltb, ◌⊎◌,
  inl, inr, Bool-cases,
}
use teob_ts.Detectors.{
  Detector, DetectorSample, DetectorEvent, outputs, SustainedTag, threshold_sustained,
  threshold_cleared, SustainedPhase, SustainedParams, sustain_idle, pending_since, active, sustain,
  sustained_above, Arithmetic, RiseParams, RiseTag, rise_detected, rise_cleared, RelativeRiseState,
  Baseline, raised, RisePhase, rise_idle, risen, rise_step, rise_from, relative_rise,
}

-- The outputs switch between an on (`is_on`) and an off; `now` tells whether the detector is on.
abbrev pub Alternates : {F T : Type 0} → (T → Bool) → Bool → List (DetectorEvent F T) → Type 0
Alternates is_on now [] = Unit
Alternates is_on now (e ∷ es) = (is_on e.tag ≡ not now) × Alternates is_on (not now) es

module _ {S F T : Type 0} (d : Detector S F T) (is_on : T → Bool) (phase : S → Bool) where
  -- A step reports nothing and keeps the phase, or reports the change of the phase that it makes.
  abbrev pub IsSwitch : S → DetectorSample F → Type 0
  IsSwitch s x =
      (((d.step s x).1 ≡ []) × (phase (d.step s x).0 ≡ phase s))
      ⊎ ((e : DetectorEvent F T) × ((d.step s x).1 ≡ e ∷ [])
          × (is_on e.tag ≡ not (phase s))
          × (phase (d.step s x).0 ≡ not (phase s)))

  outputs-Alternates :
      ((s : S) (x : DetectorSample F) → IsSwitch s x)
      → (s : S) (xs : List (DetectorSample F)) → Alternates is_on (phase s) (outputs d s xs)
  outputs-Alternates switch s [] = tt
  outputs-Alternates switch s (x ∷ xs) = elim (switch s x) [
    | inl (quiet, same) ↦
        let later = outputs-Alternates switch (d.step s x).0 xs in rw quiet (rw same at later)
    | inr (e, reports, on, flips) ↦
        let later = outputs-Alternates switch (d.step s x).0 xs in
        rw reports (on, rw flips at later)
  ]

abbrev pub is_sustained_tag : SustainedTag → Bool
is_sustained_tag threshold_sustained = true
is_sustained_tag threshold_cleared = false

abbrev pub is_active : SustainedPhase → Bool
is_active active = true
is_active _ = false

sustain-IsSwitch :
    (p : SustainedParams) (s : SustainedPhase) (x : DetectorSample ℕ)
    → IsSwitch (sustained_above p) is_sustained_tag is_active s x
unfolding sustain
sustain-IsSwitch p sustain_idle x = elim (Bool-cases (leb p.threshold x.value)) [
  | inl h ↦ rw h (inl (refl, refl))
  | inr h ↦ rw h (inl (refl, refl))
]
sustain-IsSwitch p (pending_since since) x = elim (Bool-cases (ltb x.value p.threshold)) [
  | inl h ↦ rw h (inl (refl, refl))
  | inr h ↦ elim (Bool-cases (leb (since + p.sustain_ms) x.at)) [
    | inl k ↦ rw (h, k) (inr (_, refl, refl, refl))
    | inr k ↦ rw (h, k) (inl (refl, refl))
  ]
]
sustain-IsSwitch p active x = elim (Bool-cases (ltb x.value p.clear_below)) [
  | inl h ↦ rw h (inr (_, refl, refl, refl))
  | inr h ↦ rw h (inl (refl, refl))
]

-- From its start, whatever the samples: `sustainedAbove` reports a sustained threshold first, and
-- then a cleared and a sustained one in turn.
pub sustained_above-Alternates :
    (p : SustainedParams) (xs : List (DetectorSample ℕ))
    → Alternates is_sustained_tag false (outputs (sustained_above p) sustain_idle xs)
sustained_above-Alternates p xs =
    outputs-Alternates (sustained_above p) is_sustained_tag is_active (sustain-IsSwitch p)
      sustain_idle xs

abbrev pub is_rise : RiseTag → Bool
is_rise rise_detected = true
is_rise rise_cleared = false

abbrev pub risen_in : {F : Type 0} → Option (Baseline F) → RisePhase → Bool
risen_in none phase = false
risen_in (some b) rise_idle = false
risen_in (some b) risen = true

abbrev pub is_risen : {F : Type 0} → RelativeRiseState F → Bool
is_risen s = risen_in s.baseline s.phase

module _ {F : Type 0} (ops : Arithmetic F) (params : RiseParams F) where
  rise-IsSwitch :
      (o : Option (Baseline F)) (phase : RisePhase) (x : DetectorSample F)
      → IsSwitch
          (relative_rise ops params)
          is_rise
          is_risen
          (record { baseline = o; phase = phase })
          x
  unfolding rise_from rise_step
  rise-IsSwitch none phase x = inl (refl, refl)
  rise-IsSwitch (some b) risen x =
      elim (Bool-cases (ops.at_least (raised ops params b.ema params.clear_pct) x.value)) [
        | inl h ↦ rw h (inr (_, refl, refl, refl))
        | inr h ↦ rw h (inl (refl, refl))
      ]
  rise-IsSwitch (some b) rise_idle x =
      elim (Bool-cases (
        leb (b.first_at + params.warmup_ms) x.at
        && ops.at_least x.value (raised ops params b.ema params.rise_pct))) [
          | inl h ↦ rw h (inr (_, refl, refl, refl))
          | inr h ↦ rw h (inl (refl, refl))
        ]

  -- From its start, whatever the samples and whatever the arithmetic does: `relativeRise` reports a
  -- detected rise first, and then a cleared and a detected one in turn.
  pub relative_rise-Alternates :
      (xs : List (DetectorSample F))
      → Alternates is_rise false
          (outputs (relative_rise ops params) (record { baseline = none; phase = rise_idle }) xs)
  relative_rise-Alternates xs =
      outputs-Alternates (relative_rise ops params) is_rise is_risen
        (λ s x. rise-IsSwitch s.baseline s.phase x) (record { baseline = none; phase = rise_idle })
        xs
