-- ===== src/Call/Slot.antt =====
-- The durable call slot: src/core/call/slot.ts. The aggregate's state is `S`, from which the slot
-- reads its phase and its request; lifecycle events are the aggregate's own events (`wrapEvent` is
-- the identity). A `Run` closure is the action that it carries out.
pub mod Machine
pub mod Attempts
pub mod Exhaustion
mod Tests
use Prim.Native.String.{◌++◌ as str_append}
use teob_ts.Common.{
  ℕ, zero, suc, ◌+◌, ◌-◌, ◌<◌, String, Option, none, some, Bool, true, false, ◌&&◌, not, List, [],
  ◌∷◌, ltb, if◌then◌else◌, ◌≡◌,
}
use teob_ts.Effect.{Effect, persist, and_run}
use teob_ts.Call.Types.{
  CallError, custom, CallResult, ok, err, CallPhase, idle, pending, retry_scheduled, succeeded,
  permanent_failure, exhausted, LifecycleEvent, call_initiated, call_succeeded, call_failed,
  call_exhausted, DurableCallResult, success, failure,
}
use teob_ts.Call.Breaker.{Promised, resolves, rejects}
use teob_ts.Call.Retry.{RetryPolicy, delay_for}

-- What a closure does: call the gateway, whose result comes back as a command, or arm the timer.
pub data SlotAction (Q : Type 0) : Type 0 where
  -- request, callId, attempt
  invoke : Q → String → ℕ → SlotAction Q
  schedule_once : ℕ → SlotAction Q
  nothing : SlotAction Q

-- The result that comes back as a command when the gateway's promise has settled; `place` is `fire`,
-- `retry` or `recover`.
unfoldable pub result_of : {A : Type 0} → String → ℕ → Promised (CallResult A) → DurableCallResult A
result_of place attempt (resolves (ok value)) = success value attempt
result_of place attempt (resolves (err e)) = failure e attempt
result_of place attempt (rejects e) =
    failure (custom (str_append "slot " (str_append place (str_append " threw: " e)))) attempt

pub record SlotOpts (S Q A : Type 0) : Type 0 where
  pub retry_policy : RetryPolicy
  pub is_retryable : CallError → Bool
  pub get_phase : S → CallPhase A
  pub set_phase : S → CallPhase A → S
  pub get_request : S → Q
  pub error_to_string : CallError → String
  -- a phase that is written is read back
  pub get-set : (s : S) (p : CallPhase A) → get_phase (set_phase s p) ≡ p

abbrev pub SlotEffect : Type 0 → Type 0 → Type 0
SlotEffect Q A = Effect (LifecycleEvent Q A) (Unit {0}) (SlotAction Q) ℕ

-- The id of the call that a phase is about; else the given one.
abbrev pub call_id_or : {A : Type 0} → CallPhase A → String → String
call_id_or (pending c n t) id = c
call_id_or (retry_scheduled c n t) id = c
call_id_or idle id = id
call_id_or (succeeded v t) id = id
call_id_or (permanent_failure e) id = id
call_id_or (exhausted e n) id = id

module _ {S Q A : Type 0} (o : SlotOpts S Q A) where
  -- `fire` and the first branch of `recover`, up to the result that comes back.
  unfoldable pub fire : S → SlotAction Q
  fire s = elim (o.get_phase s) [
    | pending call_id attempt started ↦ invoke (o.get_request s) call_id attempt
    | _ ↦ nothing
  ]

  unfoldable pub initiate : ℕ → S → String → SlotEffect Q A
  unfolding persist and_run
  initiate now s call_id =
      and_run (persist (call_initiated call_id (o.get_request s) 1 now ∷ []))
        (invoke (o.get_request s) call_id 1)

  on_failure : ℕ → String → ℕ → CallError → SlotEffect Q A
  unfolding persist and_run
  on_failure now call_id attempt e =
      let retryable = o.is_retryable e in
      let delay = delay_for o.retry_policy attempt in
      if retryable && ltb attempt o.retry_policy.max_attempts
      then and_run
          (persist
            (call_failed call_id (o.error_to_string e) attempt true (some (now + delay)) ∷ []))
          (schedule_once delay)
      else if not retryable
      then persist (call_failed call_id (o.error_to_string e) attempt false none ∷ [])
      else persist (call_exhausted call_id (o.error_to_string e) attempt ∷ [])

  on_result : ℕ → String → ℕ → DurableCallResult A → SlotEffect Q A
  unfolding on_failure
  on_result now call_id attempt (success response n) =
      persist (call_succeeded call_id response attempt now ∷ [])
  on_result now call_id attempt (failure e n) = on_failure now call_id attempt e

  callback_in : CallPhase A → ℕ → DurableCallResult A → SlotEffect Q A
  unfolding on_result
  callback_in (pending call_id attempt started) now r = on_result now call_id attempt r
  callback_in idle now r = persist []
  callback_in (retry_scheduled c n t) now r = persist []
  callback_in (succeeded v t) now r = persist []
  callback_in (permanent_failure e) now r = persist []
  callback_in (exhausted e n) now r = persist []

  unfoldable pub handle_callback : ℕ → S → DurableCallResult A → SlotEffect Q A
  unfolding callback_in
  handle_callback now s r = callback_in (o.get_phase s) now r

  retry_in : CallPhase A → ℕ → Q → SlotEffect Q A
  unfolding persist and_run
  retry_in (retry_scheduled call_id attempt next) now request =
      and_run (persist (call_initiated call_id request (attempt + 1) now ∷ []))
        (invoke request call_id (attempt + 1))
  retry_in idle now request = persist []
  retry_in (pending c n t) now request = persist []
  retry_in (succeeded v t) now request = persist []
  retry_in (permanent_failure e) now request = persist []
  retry_in (exhausted e n) now request = persist []

  unfoldable pub handle_retry : ℕ → S → SlotEffect Q A
  unfolding retry_in
  handle_retry now s = retry_in (o.get_phase s) now (o.get_request s)

  unfoldable pub apply_event : S → LifecycleEvent Q A → S
  apply_event s (call_initiated call_id request attempt ms) =
      o.set_phase s (pending call_id attempt ms)
  apply_event s (call_succeeded call_id response attempt ms) = o.set_phase s (succeeded response ms)
  apply_event s (call_failed call_id error attempt true (some next)) =
      o.set_phase s (retry_scheduled (call_id_or (o.get_phase s) call_id) attempt next)
  apply_event s (call_failed call_id error attempt true none) =
      o.set_phase s (permanent_failure error)
  apply_event s (call_failed call_id error attempt false next) =
      o.set_phase s (permanent_failure error)
  apply_event s (call_exhausted call_id error attempts) = o.set_phase s (exhausted error attempts)

  -- `recover`: a call in progress is made again, a retry is armed again for the time that is left.
  unfoldable pub recover : ℕ → S → SlotAction Q
  recover now s = elim (o.get_phase s) [
    | pending call_id attempt started ↦ invoke (o.get_request s) call_id attempt
    | retry_scheduled call_id attempt next ↦ schedule_once (next - now)
    | _ ↦ nothing
  ]
