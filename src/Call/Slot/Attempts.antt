-- ===== src/Call/Slot/Attempts.antt =====
-- Every call of a slot keeps its id, is attempted at most `maxAttempts` times, and changes no more
-- once it has ended.
use teob_ts.Common.{
  ℕ, ◌≤◌, ◌<◌, String, true, false, List, [], ◌∷◌, ◌≡◌, refl, foldl, some, none, ap, ◌∙◌,
}
use teob_ts.Effect.{extract_events, persist}
use teob_ts.Call.Types.{
  CallPhase, idle, pending, retry_scheduled, succeeded, permanent_failure, exhausted, is_terminal,
  DurableCallResult, LifecycleEvent, call_initiated, call_succeeded, call_failed, call_exhausted,
}
use teob_ts.Call.Slot.{
  SlotOpts, handle_callback, handle_retry, apply_event, call_id_or, callback_in, retry_in,
}
use teob_ts.Call.Slot.Machine.{SlotInput, calls_back, ticks, absorb, step, run}

-- What an event does to the phase alone.
unfoldable pub phase_after : {Q A : Type 0} → CallPhase A → LifecycleEvent Q A → CallPhase A
phase_after p (call_initiated call_id request attempt ms) = pending call_id attempt ms
phase_after p (call_succeeded call_id response attempt ms) = succeeded response ms
phase_after p (call_failed call_id error attempt true (some next)) =
    retry_scheduled (call_id_or p call_id) attempt next
phase_after p (call_failed call_id error attempt true none) = permanent_failure error
phase_after p (call_failed call_id error attempt false next) = permanent_failure error
phase_after p (call_exhausted call_id error attempts) = exhausted error attempts

-- The phase of a call with this id under a policy of at most `most` attempts.
abbrev pub IsWithin : {A : Type 0} → String → ℕ → CallPhase A → Type 0
IsWithin id most idle = ⊥
IsWithin id most (pending call_id attempt t) = (call_id ≡ id) × (1 ≤ attempt) × (attempt ≤ most)
IsWithin id most (retry_scheduled call_id attempt t) =
    (call_id ≡ id) × (1 ≤ attempt) × (attempt < most)
IsWithin id most (succeeded v t) = Unit
IsWithin id most (permanent_failure e) = Unit
IsWithin id most (exhausted e attempts) = attempts ≡ most

module _ {S Q A : Type 0} (o : SlotOpts S Q A) where
  phase-apply_event :
      (s : S) (e : LifecycleEvent Q A)
      → o.get_phase (apply_event o s e) ≡ phase_after (o.get_phase s) e
  unfolding apply_event phase_after
  phase-apply_event s (call_initiated c q n t) = o.get-set s _
  phase-apply_event s (call_succeeded c v n t) = o.get-set s _
  phase-apply_event s (call_failed c e n true (some t)) = o.get-set s _
  phase-apply_event s (call_failed c e n true none) = o.get-set s _
  phase-apply_event s (call_failed c e n false t) = o.get-set s _
  phase-apply_event s (call_exhausted c e n) = o.get-set s _

  pub phase-fold :
      (es : List (LifecycleEvent Q A)) (s : S)
      → o.get_phase (foldl (apply_event o) s es) ≡ foldl phase_after (o.get_phase s) es
  phase-fold [] s = refl
  phase-fold (e ∷ es) s =
      phase-fold es (apply_event o s e) ∙ ap (λ p. foldl phase_after p es) (phase-apply_event s e)

  abbrev most : ℕ
  most = o.retry_policy.max_attempts

  callback_in-terminal :
      (p : CallPhase A) (now : ℕ) (r : DurableCallResult A)
      → is_terminal p ≡ true
      → extract_events (callback_in o p now r) ≡ []
  unfolding callback_in extract_events persist is_terminal
  callback_in-terminal idle now r h = cc
  callback_in-terminal (pending c n t) now r h = cc
  callback_in-terminal (retry_scheduled c n t) now r h = cc
  callback_in-terminal (succeeded v t) now r h = refl
  callback_in-terminal (permanent_failure e) now r h = refl
  callback_in-terminal (exhausted e n) now r h = refl

  retry_in-terminal :
      (p : CallPhase A) (now : ℕ) (q : Q)
      → is_terminal p ≡ true
      → extract_events (retry_in o p now q) ≡ []
  unfolding retry_in extract_events persist is_terminal
  retry_in-terminal idle now q h = cc
  retry_in-terminal (pending c n t) now q h = cc
  retry_in-terminal (retry_scheduled c n t) now q h = cc
  retry_in-terminal (succeeded v t) now q h = refl
  retry_in-terminal (permanent_failure e) now q h = refl
  retry_in-terminal (exhausted e n) now q h = refl

  -- A call that has ended, by success, a permanent failure or exhaustion, stays as it is whatever
  -- results and ticks still come.
  pub run_terminal :
      (is : List (SlotInput A)) (s : S) → is_terminal (o.get_phase s) ≡ true → run o s is ≡ s
  unfolding run step absorb handle_callback handle_retry
  run_terminal [] s h = refl
  run_terminal (calls_back now r ∷ is) s h =
      rw (callback_in-terminal (o.get_phase s) now r h) (run_terminal is s h)
  run_terminal (ticks now ∷ is) s h =
      rw (retry_in-terminal (o.get_phase s) now (o.get_request s) h) (run_terminal is s h)
