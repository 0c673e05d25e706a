-- ===== src/Call/Gateway.antt =====
-- The call gateway: src/core/call/gateway.ts. Its semaphore runs on the queue of microtasks: a task
-- runs to its end, and a waiter that `release` wakes goes on in a task of its own, behind those that
-- are queued already.
pub mod Permits
mod Tests
use Prim.Native.String.{◌++◌ as str_append}
use teob_ts.Common.{
  ℕ, zero, suc, ◌+◌, ◌-◌, ◌≤◌, String, Option, none, some, Bool, true, false, List, [], ◌∷◌, ◌++◌,
  ltb, if◌then◌else◌,
}
use teob_ts.Call.Types.{
  CallError, CallResult, ok, err, http_status, timeout, connection_refused, circuit_open, custom,
}
use teob_ts.Call.Breaker.{
  CircuitBreakerConfig, Breaker, Operation, Promised, resolves, rejects, Protected, returned,
  rethrown, refused, protect_either,
}

-- A caller asks for a permit, a holder gives it back, a woken waiter takes it.
pub data Task : Type 0 where
  acquires : ℕ → Task
  releases : Task
  resumes : ℕ → Task

pub record Semaphore : Type 0 where
  pub limit : ℕ
  pub inflight : ℕ
  pub queue : List ℕ
  pub tasks : List Task

wake : List ℕ → Semaphore → Semaphore
wake [] s = s
wake (caller ∷ rest) s = record s { queue = rest; tasks = s.tasks ++ resumes caller ∷ [] }

-- `acquire()` up to its `await`, `release()`, and `acquire()` behind its `await`.
unfoldable pub run_task : Task → Semaphore → Semaphore
unfolding wake
run_task (acquires caller) s =
    if ltb s.inflight s.limit
    then record s { inflight = s.inflight + 1 }
    else record s { queue = s.queue ++ caller ∷ [] }
run_task releases s = let s' = record s { inflight = s.inflight - 1 } in wake s'.queue s'
run_task (resumes caller) s = record s { inflight = s.inflight + 1 }

unfoldable pub next_task : List Task → Semaphore → Semaphore
unfolding run_task
next_task [] s = s
next_task (t ∷ rest) s = run_task t (record s { tasks = rest })

-- The first `n` tasks of the queue.
unfoldable pub run_tasks : ℕ → Semaphore → Semaphore
unfolding next_task
run_tasks zero s = s
run_tasks (suc n) s = run_tasks n (next_task s.tasks s)

-- Tasks of the rest of the program arrive before each turn of the queue.
unfoldable pub run_schedule : List (List Task) → Semaphore → Semaphore
unfolding next_task
run_schedule [] s = s
run_schedule (arrivals ∷ later) s =
    run_schedule later (next_task (s.tasks ++ arrivals) (record s { tasks = s.tasks ++ arrivals }))

-- A call of the outside: it settles after so many milliseconds, or never.
pub data Settling (A : Type 0) : Type 0 where
  settles : ℕ → Promised (CallResult A) → Settling A
  never : Settling A

pub data Raced (A : Type 0) : Type 0 where
  in_time : Promised (CallResult A) → Raced A
  timed_out : Raced A

-- `raceWithTimeout`
unfoldable pub race_with_timeout : {A : Type 0} → Settling A → ℕ → Raced A
race_with_timeout (settles after p) timeout_ms =
    if ltb after timeout_ms then in_time p else timed_out
race_with_timeout never timeout_ms = timed_out

-- `op` of `executeCall`: it never rejects.
unfoldable pub gateway_op : {A : Type 0} → Raced A → ℕ → CallResult A
gateway_op timed_out timeout_ms = err (timeout timeout_ms)
gateway_op (in_time (resolves r)) timeout_ms = r
gateway_op (in_time (rejects e)) timeout_ms = err (custom (str_append "gateway exec threw: " e))

-- `(e) => e.type !== "circuit_open"`
unfoldable pub counts_as_failure : CallError → Bool
counts_as_failure (circuit_open name) = false
counts_as_failure (http_status code body) = true
counts_as_failure (timeout ms) = true
counts_as_failure (connection_refused target) = true
counts_as_failure (custom message) = true

pub record CallGatewayConfig : Type 0 where
  pub max_concurrent : ℕ
  pub call_timeout_ms : ℕ
  pub circuit_breaker : Option CircuitBreakerConfig

unwrap :
    {A : Type 0} → String → Protected (CallResult A) × Breaker → Promised (CallResult A) × Breaker
unwrap name (returned r, b) = (resolves r, b)
unwrap name (rethrown e, b) = (rejects e, b)
unwrap name (refused n, b) = (resolves (err (circuit_open name)), b)

-- `executeCall` while it holds its permit: `started` and `finished` are the times at which the
-- breaker reads the clock, `meanwhile` what other calls do to the breaker while this one runs.
unfoldable pub execute_call :
    {A : Type 0}
    → CallGatewayConfig
    → String
    → Settling A
    → ℕ
    → ℕ
    → (Breaker → Breaker)
    → Breaker
    → Promised (CallResult A) × Breaker
unfolding race_with_timeout gateway_op counts_as_failure protect_either unwrap
execute_call cfg name call started finished meanwhile b =
    let r = gateway_op (race_with_timeout call cfg.call_timeout_ms) cfg.call_timeout_ms in
    elim cfg.circuit_breaker [
      | none ↦ (resolves r, b)
      | some breaker ↦ unwrap name (
          protect_either breaker name counts_as_failure started finished
            (record { settled = resolves r; meanwhile = meanwhile }) b)
    ]
