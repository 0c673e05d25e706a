-- ===== src/Call/Slot/Tests.antt =====
-- A slot whose aggregate is its phase alone.
use teob_ts.Common.{ℕ, ◌≡◌, refl, arith, [], ◌∷◌, List}
use teob_ts.Call.Types.{
  timeout, custom, CallPhase, idle, succeeded, exhausted, is_terminal, is_transient, success,
  failure,
}
use teob_ts.Call.Retry.{fixed}
use teob_ts.Call.Breaker.{rejects}
use teob_ts.Call.Slot.{SlotOpts, result_of}
use teob_ts.Call.Slot.Machine.{SlotInput, calls_back, ticks, start_call, run, fail_times}
use teob_ts.Call.Slot.Attempts.{run_terminal}
use teob_ts.Call.Slot.Exhaustion.{start_call-exhausted}

abbrev bare : SlotOpts (CallPhase ℕ) ℕ ℕ
unfolding is_transient
bare = record {
  retry_policy = record {
    max_attempts = 3;
    initial_delay_ms = 10;
    max_delay_ms = 10;
    strategy = fixed;
  };
  is_retryable = is_transient;
  get_phase = λ p. p;
  set_phase = λ _ p. p;
  get_request = λ _. 8;
  error_to_string = λ _. "timeout";
  get-set = λ s p. refl;
}

-- A failure, the retry, its success, and a result that comes late.
abbrev eventful : List (SlotInput ℕ)
eventful =
    calls_back 5 (failure (timeout 50) 1)
    ∷ ticks 15
    ∷ calls_back 20 (success 9 2)
    ∷ calls_back 21 (failure (timeout 50) 1)
    ∷ []

eventful_ends : run bare (start_call bare 0 idle "c1") eventful ≡ succeeded 9 20
unfolding run start_call bare
eventful_ends = refl

run_terminal_example : run bare (succeeded 9 20) eventful ≡ succeeded 9 20
unfolding bare is_terminal
run_terminal_example = run_terminal bare eventful (succeeded 9 20) refl

start_call-exhausted_example :
    bare.get_phase
      (fail_times bare bare.retry_policy.max_attempts 5 (timeout 50) (start_call bare 5 idle "c1"))
    ≡ exhausted (bare.error_to_string (timeout 50)) bare.retry_policy.max_attempts
unfolding bare
start_call-exhausted_example = start_call-exhausted bare 5 (timeout 50) refl idle "c1" (omega arith)

thrown : result_of {A = ℕ} "fire" 2 (rejects "no") ≡ failure (custom "slot fire threw: no") 2
unfolding result_of
thrown = refl
