-- ===== src/Detectors.antt =====
-- The detectors of src/ha/detectors.ts: pure state machines over samples. `F` is the type of values;
-- the arithmetic of floating-point numbers is a parameter. A time difference `a - b >= c` of the
-- source is written `b + c <= a`, since natural numbers stop at 0.
pub mod Increments
mod Tests
pub mod Alternation
pub mod Sustained
use teob_ts.Common.{
  ℕ, ◌+◌, ◌-◌, String, Option, none, some, Bool, true, false, not, ◌&&◌, List, [], ◌∷◌, ◌++◌, leb,
  ltb, if◌then◌else◌,
}

pub record DetectorSample (F : Type 0) : Type 0 where
  pub at : ℕ
  pub value : F
  pub obs_id : String

pub record DetectorEvent (F T : Type 0) : Type 0 where
  pub tag : T
  pub at : ℕ
  pub obs_id : String
  pub value : F

pub record Detector (S F T : Type 0) : Type 0 where
  pub init : S
  pub step : S → DetectorSample F → S × List (DetectorEvent F T)

abbrev pub emit : {F T : Type 0} → T → DetectorSample F → F → List (DetectorEvent F T)
emit tag x value = record { tag = tag; at = x.at; obs_id = x.obs_id; value = value } ∷ []

-- The operations of the numbers of JavaScript that `relativeRise` uses.
pub record Arithmetic (F : Type 0) : Type 0 where
  pub of_ℕ : ℕ → F
  pub add : F → F → F
  pub sub : F → F → F
  pub mul : F → F → F
  pub div : F → F → F
  pub exp : F → F
  pub ln2 : F
  pub at_least : F → F → Bool

pub data RisePhase : Type 0 where
  rise_idle : RisePhase
  risen : RisePhase

pub data RiseTag : Type 0 where
  rise_detected : RiseTag
  rise_cleared : RiseTag

-- `ema`, `lastAt` and `firstAt` are null together, until the first sample.
pub record Baseline (F : Type 0) : Type 0 where
  pub ema : F
  pub last_at : ℕ
  pub first_at : ℕ

pub record RelativeRiseState (F : Type 0) : Type 0 where
  pub baseline : Option (Baseline F)
  pub phase : RisePhase

pub record RiseParams (F : Type 0) : Type 0 where
  pub baseline_halflife_ms : F
  pub rise_pct : F
  pub clear_pct : F
  pub warmup_ms : ℕ

module _ {F : Type 0} (ops : Arithmetic F) (params : RiseParams F) where
  -- `ema * (1 + pct / 100)`
  unfoldable pub raised : F → F → F
  raised ema pct = ops.mul ema (ops.add (ops.of_ℕ 1) (ops.div pct (ops.of_ℕ 100)))

  -- The baseline after it absorbed a sample; `Math.max(0, at - lastAt)` is the difference of naturals.
  unfoldable pub absorb : Baseline F → DetectorSample F → Baseline F
  absorb b x =
      let elapsed = ops.sub (ops.of_ℕ 0) (ops.of_ℕ (x.at - b.last_at)) in
      let alpha =
        ops.sub (ops.of_ℕ 1)
          (ops.exp (ops.div elapsed (ops.div params.baseline_halflife_ms ops.ln2))) in
      record b { ema = ops.add b.ema (ops.mul alpha (ops.sub x.value b.ema)); last_at = x.at }

  unfoldable pub rise_step :
      Baseline F
      → RisePhase
      → DetectorSample F
      → RelativeRiseState F × List (DetectorEvent F RiseTag)
  unfolding raised absorb
  rise_step b risen x =
      if ops.at_least (raised b.ema params.clear_pct) x.value
      then (record { baseline = some (absorb b x); phase = rise_idle }, emit rise_cleared x x.value)
      else (record { baseline = some b; phase = risen }, [])
  rise_step b rise_idle x =
      if leb (b.first_at + params.warmup_ms) x.at
        && ops.at_least x.value (raised b.ema params.rise_pct)
      then (record { baseline = some b; phase = risen }, emit rise_detected x x.value)
      else (record { baseline = some (absorb b x); phase = rise_idle }, [])

  -- Without a baseline the sample seeds it.
  unfoldable pub rise_from :
      Option (Baseline F)
      → RisePhase
      → DetectorSample F
      → RelativeRiseState F × List (DetectorEvent F RiseTag)
  unfolding rise_step
  rise_from none phase x = (
    record {
      baseline = some (record { ema = x.value; last_at = x.at; first_at = x.at });
      phase = rise_idle;
    },
    [],
  )
  rise_from (some b) phase x = rise_step b phase x

  abbrev pub relative_rise : Detector (RelativeRiseState F) F RiseTag
  relative_rise = record {
    init = record { baseline = none; phase = rise_idle };
    step = λ s x. rise_from s.baseline s.phase x;
  }

pub data IncrementTag : Type 0 where
  increment_detected : IncrementTag

-- `anchorAt` and `anchorValue` are null together.
abbrev pub IncrementWatcherState : Type 0
IncrementWatcherState = Option (ℕ × ℕ)

unfoldable pub watch :
    ℕ
    → ℕ
    → IncrementWatcherState
    → DetectorSample ℕ
    → IncrementWatcherState × List (DetectorEvent ℕ IncrementTag)
watch min_increment window_ms none x = (some (x.at, x.value), [])
watch min_increment window_ms (some (anchor_at, anchor_value)) x =
    if ltb x.value anchor_value
    then (some (x.at, x.value), [])
    else if ltb (anchor_at + window_ms) x.at
    then (some (x.at, x.value), [])
    else if leb min_increment (x.value - anchor_value)
    then (some (x.at, x.value), emit increment_detected x (x.value - anchor_value))
    else (some (anchor_at, anchor_value), [])

abbrev pub increment_watcher : ℕ → ℕ → Detector IncrementWatcherState ℕ IncrementTag
increment_watcher min_increment window_ms = record {
  init = none;
  step = watch min_increment window_ms;
}

pub data SustainedTag : Type 0 where
  threshold_sustained : SustainedTag
  threshold_cleared : SustainedTag

-- `pendingSince` is the argument of `pending_since`, and null in the other phases.
pub data SustainedPhase : Type 0 where
  sustain_idle : SustainedPhase
  pending_since : ℕ → SustainedPhase
  active : SustainedPhase

pub record SustainedParams : Type 0 where
  pub threshold : ℕ
  pub sustain_ms : ℕ
  pub clear_below : ℕ

unfoldable pub sustain :
    SustainedParams
    → SustainedPhase
    → DetectorSample ℕ
    → SustainedPhase × List (DetectorEvent ℕ SustainedTag)
sustain p sustain_idle x =
    if leb p.threshold x.value then (pending_since x.at, []) else (sustain_idle, [])
sustain p (pending_since since) x =
    if ltb x.value p.threshold
    then (sustain_idle, [])
    else if leb (since + p.sustain_ms) x.at
    then (active, emit threshold_sustained x x.value)
    else (pending_since since, [])
sustain p active x =
    if ltb x.value p.clear_below
    then (sustain_idle, emit threshold_cleared x x.value)
    else (active, [])

abbrev pub sustained_above : SustainedParams → Detector SustainedPhase ℕ SustainedTag
sustained_above p = record { init = sustain_idle; step = sustain p }

module _ {S F T : Type 0} (d : Detector S F T) where
  -- The events of the samples, in order.
  abbrev pub outputs : S → List (DetectorSample F) → List (DetectorEvent F T)
  outputs s [] = []
  outputs s (x ∷ xs) = (d.step s x).1 ++ outputs (d.step s x).0 xs

  abbrev pub state_after : S → List (DetectorSample F) → S
  state_after s [] = s
  state_after s (x ∷ xs) = state_after (d.step s x).0 xs
