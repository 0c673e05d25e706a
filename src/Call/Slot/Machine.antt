-- ===== src/Call/Slot/Machine.antt =====
-- A slot at work in an aggregate: each handler's events are applied to the state.
use teob_ts.Common.{ℕ, zero, suc, String, List, [], ◌∷◌, foldl}
use teob_ts.Effect.{extract_events}
use teob_ts.Call.Types.{CallError, DurableCallResult, failure}
use teob_ts.Call.Slot.{SlotOpts, SlotEffect, initiate, handle_callback, handle_retry, apply_event}

-- What reaches the slot of a call that has been started: results, duplicates and late ones among
-- them, and ticks of the retry timer.
pub data SlotInput (A : Type 0) : Type 0 where
  calls_back : ℕ → DurableCallResult A → SlotInput A
  ticks : ℕ → SlotInput A

module _ {S Q A : Type 0} (o : SlotOpts S Q A) where
  unfoldable pub absorb : S → SlotEffect Q A → S
  unfolding apply_event extract_events
  absorb s e = foldl (apply_event o) s (extract_events e)

  unfoldable pub start_call : ℕ → S → String → S
  unfolding absorb initiate
  start_call now s call_id = absorb s (initiate o now s call_id)

  unfoldable pub step : S → SlotInput A → S
  unfolding absorb handle_callback handle_retry
  step s (calls_back now r) = absorb s (handle_callback o now s r)
  step s (ticks now) = absorb s (handle_retry o now s)

  unfoldable pub run : S → List (SlotInput A) → S
  unfolding step
  run s [] = s
  run s (i ∷ is) = run (step s i) is

  -- The attempt that is in progress fails, and the retry timer ticks.
  unfoldable pub fail_times : ℕ → ℕ → CallError → S → S
  unfolding step
  fail_times zero now e s = s
  fail_times (suc n) now e s =
      fail_times n now e (step (step s (calls_back now (failure e 1))) (ticks now))
