-- ===== src/Call/Slot/Exhaustion.antt =====
-- A call whose every attempt fails is given up after `maxAttempts` attempts.
use teob_ts.Common.{
  ℕ, zero, suc, ◌+◌, ◌≤◌, String, true, false, ◌≡◌, refl, arith, ltb, foldl, ap, ◌∙◌,
}
use teob_ts.Effect.{extract_events, persist, and_run}
use teob_ts.Call.Types.{CallError, CallPhase, pending, retry_scheduled, exhausted, failure}
use teob_ts.Call.Retry.{delay_for}
use teob_ts.Call.Slot.{
  SlotOpts, handle_callback, handle_retry, initiate, callback_in, retry_in, on_failure, on_result,
}
use teob_ts.Call.Slot.Attempts.{phase_after, phase-fold}
use teob_ts.Call.Slot.Machine.{calls_back, ticks, absorb, start_call, step, fail_times}

module _ {S Q A : Type 0} (o : SlotOpts S Q A) where
  abbrev most : ℕ
  most = o.retry_policy.max_attempts

  phase-calls_back :
      (s : S) (now n t : ℕ) (c : String) (e : CallError)
      → o.get_phase s ≡ pending c n t
      → o.get_phase (step o s (calls_back now (failure e 1)))
        ≡ foldl phase_after (pending c n t) (extract_events (on_failure o now c n e))
  unfolding step absorb handle_callback callback_in on_result
  phase-calls_back s now n t c e h =
      phase-fold o (extract_events (callback_in o (o.get_phase s) now (failure e 1))) s
      ∙ ap (λ p. foldl phase_after p (extract_events (callback_in o p now (failure e 1)))) h

  phase-ticks :
      (s : S) (now : ℕ) (p : CallPhase A)
      → o.get_phase s ≡ p
      → o.get_phase (step o s (ticks now))
        ≡ foldl phase_after p (extract_events (retry_in o p now (o.get_request s)))
  unfolding step absorb handle_retry
  phase-ticks s now p h =
      phase-fold o (extract_events (retry_in o (o.get_phase s) now (o.get_request s))) s
      ∙ ap (λ q. foldl phase_after q (extract_events (retry_in o q now (o.get_request s)))) h

  module _ (now : ℕ) (e : CallError) (retryable : o.is_retryable e ≡ true) where
    round : S → S
    round s = step o (step o s (calls_back now (failure e 1))) (ticks now)

    round-next :
        (s : S) (n t : ℕ) (c : String)
        → o.get_phase s ≡ pending c n t
        → ltb n most ≡ true
        → o.get_phase (round s) ≡ pending c (n + 1) now
    unfolding round phase_after extract_events persist and_run retry_in on_failure delay_for
    round-next s n t c h lt =
        phase-ticks (step o s (calls_back now (failure e 1))) now
          (retry_scheduled c n (now + delay_for o.retry_policy n))
          (phase-calls_back s now n t c e h ∙ rw (on_failure, retryable, lt) refl)

    round-last :
        (s : S) (n t : ℕ) (c : String)
        → o.get_phase s ≡ pending c n t
        → ltb n most ≡ false
        → o.get_phase (round s) ≡ exhausted (o.error_to_string e) n
    unfolding round phase_after extract_events persist retry_in on_failure
    round-last s n t c h lt =
        phase-ticks (step o s (calls_back now (failure e 1))) now
          (exhausted (o.error_to_string e) n)
          (phase-calls_back s now n t c e h ∙ rw (on_failure, retryable, lt) refl)

    fail_times-exhausted :
        (k n t : ℕ) (c : String) (s : S)
        → o.get_phase s ≡ pending c n t
        → n ≤ most
        → n + k ≡ suc most
        → o.get_phase (fail_times o k now e s) ≡ exhausted (o.error_to_string e) most
    unfolding fail_times round
    fail_times-exhausted zero n t c s h u k = absurd (omega arith)
    fail_times-exhausted (suc zero) n t c s h u eq =
        round-last s n t c h (ground arith)
        ∙ ap (λ m. exhausted (o.error_to_string e) m) (omega arith)
    fail_times-exhausted (suc (suc k)) n t c s h u eq =
        fail_times-exhausted (suc k) (n + 1) now c (round s) (round-next s n t c h (ground arith))
          (omega arith) (omega arith)

    -- Under a policy of at least one attempt, when every attempt fails with a retryable error, the
    -- call is exhausted after exactly `maxAttempts` failures, with the last error and that count.
    pub start_call-exhausted :
        (s : S) (id : String)
        → 1 ≤ o.retry_policy.max_attempts
        → o.get_phase (fail_times o o.retry_policy.max_attempts now e (start_call o now s id))
          ≡ exhausted (o.error_to_string e) o.retry_policy.max_attempts
    unfolding start_call absorb initiate phase_after extract_events persist and_run
    start_call-exhausted s id h =
        fail_times-exhausted o.retry_policy.max_attempts 1 now id (start_call o now s id)
          (phase-fold o (extract_events (initiate o now s id)) s) h (omega arith)
