-- ===== src/Call/Gateway/Tests.antt =====
-- The gateway at concrete calls, and its semaphore at concrete schedules.
use teob_ts.Common.{ℕ, ◌+◌, [], ◌∷◌, List, ◌≡◌, refl, arith, none}
use teob_ts.Call.Types.{ok, err, timeout}
use teob_ts.Call.Breaker.{resolves, new_breaker}
use teob_ts.Call.Gateway.{
  Task, acquires, releases, Semaphore, run_tasks, run_schedule, settles, never, CallGatewayConfig,
  execute_call,
}
use teob_ts.Call.Gateway.Permits.{run_schedule-served, limit_passed}

abbrev patient : CallGatewayConfig
patient = record { max_concurrent = 1; call_timeout_ms = 50; circuit_breaker = none }

in_time_call :
    execute_call {A = ℕ} patient "mail" (settles 10 (resolves (ok 5))) 0 10 (λ b. b) new_breaker
    ≡ (resolves (ok 5), new_breaker)
unfolding execute_call
in_time_call = refl

late_call :
    execute_call {A = ℕ} patient "mail" never 0 50 (λ b. b) new_breaker
    ≡ (resolves (err (timeout 50)), new_breaker)
unfolding execute_call
late_call = refl

abbrev one_permit : Semaphore
one_permit = record { limit = 1; inflight = 0; queue = []; tasks = [] }

-- Two callers ask for the one permit, and both give it back.
abbrev both : List (List Task)
both = (acquires 1 ∷ acquires 2 ∷ []) ∷ [] ∷ (releases ∷ []) ∷ [] ∷ (releases ∷ []) ∷ []

run_schedule-served_example : (run_schedule both one_permit).queue ≡ []
unfolding run_schedule
run_schedule-served_example = run_schedule-served both one_permit refl (omega arith) refl refl

limit_passed_example :
    (run_tasks 3 (record {
      limit = 1;
      inflight = 1;
      queue = 2 ∷ [];
      tasks = releases ∷ acquires 3 ∷ [];
    })).inflight
    ≡ 1 + 1
limit_passed_example = limit_passed 1 2 3 (omega arith)
