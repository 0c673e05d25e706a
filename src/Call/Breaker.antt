-- ===== src/Call/Breaker.antt =====
-- The circuit breaker: src/core/call/circuit-breaker.ts. Each operation returns the new state; the
-- time that the clock gives is an argument.
pub mod Laws
pub mod Trips
mod Tests
use teob_ts.Common.{
  ℕ, zero, ◌+◌, ◌-◌, String, Bool, true, false, leb, if◌then◌else◌, Option, none, some,
}
use teob_ts.Call.Types.{CallError, CallResult, ok, err, circuit_open}

pub record CircuitBreakerConfig : Type 0 where
  pub max_failures : ℕ
  pub reset_timeout_ms : ℕ
  pub half_open_max_calls : ℕ

unfoldable pub default_circuit_breaker_config : CircuitBreakerConfig
default_circuit_breaker_config = record {
  max_failures = 5;
  reset_timeout_ms = 30000;
  half_open_max_calls = 1;
}

pub data CircuitState : Type 0 where
  closed open_circuit half_open : CircuitState

pub record Breaker : Type 0 where
  pub state : CircuitState
  pub consecutive_failures : ℕ
  pub total_failures : ℕ
  pub total_successes : ℕ
  pub total_rejections : ℕ
  pub opened_at_ms : ℕ
  pub half_open_inflight : ℕ

unfoldable pub new_breaker : Breaker
new_breaker = record {
  state = closed;
  consecutive_failures = 0;
  total_failures = 0;
  total_successes = 0;
  total_rejections = 0;
  opened_at_ms = 0;
  half_open_inflight = 0;
}

-- `Math.max(0, n - 1)` is the truncated difference.
leave_half_open : CircuitState → Breaker → Breaker
leave_half_open next s = record s { half_open_inflight = s.half_open_inflight - 1; state = next }

module _ (cfg : CircuitBreakerConfig) where
  maybe_from : CircuitState → ℕ → Breaker → Breaker
  maybe_from open_circuit now s =
      if leb (s.opened_at_ms + cfg.reset_timeout_ms) now
      then record s { state = half_open; half_open_inflight = 0 }
      else s
  maybe_from closed now s = s
  maybe_from half_open now s = s

  unfoldable pub maybe_transition_from_open : ℕ → Breaker → Breaker
  unfolding maybe_from
  maybe_transition_from_open now s = maybe_from s.state now s

  acquire_in : CircuitState → Breaker → Bool × Breaker
  acquire_in open_circuit s = (false, record s { total_rejections = s.total_rejections + 1 })
  acquire_in half_open s =
      if leb cfg.half_open_max_calls s.half_open_inflight
      then (false, record s { total_rejections = s.total_rejections + 1 })
      else (true, record s { half_open_inflight = s.half_open_inflight + 1 })
  acquire_in closed s = (true, s)

  unfoldable pub try_acquire : ℕ → Breaker → Bool × Breaker
  unfolding maybe_transition_from_open acquire_in
  try_acquire now s = let s' = maybe_transition_from_open now s in acquire_in s'.state s'

  success_in : CircuitState → Breaker → Breaker
  unfolding leave_half_open
  success_in half_open s = leave_half_open closed s
  success_in closed s = s
  success_in open_circuit s = s

  unfoldable pub record_success : Breaker → Breaker
  unfolding success_in
  record_success s =
      success_in s.state
        (record s { total_successes = s.total_successes + 1; consecutive_failures = 0 })

  failure_in : CircuitState → ℕ → Breaker → Breaker
  unfolding leave_half_open
  failure_in half_open now s =
      let s' = leave_half_open open_circuit s in record s' { opened_at_ms = now }
  failure_in closed now s =
      if leb cfg.max_failures s.consecutive_failures
      then record s { state = open_circuit; opened_at_ms = now }
      else s
  failure_in open_circuit now s = s

  unfoldable pub record_failure : ℕ → Breaker → Breaker
  unfolding failure_in
  record_failure now s = failure_in s.state now (record s {
    total_failures = s.total_failures + 1;
    consecutive_failures = s.consecutive_failures + 1;
  })

  -- `metrics.currentState()`
  unfoldable pub current_state : ℕ → Breaker → CircuitState × Breaker
  unfolding maybe_transition_from_open
  current_state now s = let s' = maybe_transition_from_open now s in (s'.state, s')

-- A protected operation: how it settles, and what other callers do to the breaker while it runs.
pub record Operation (X : Type 0) : Type 0 where
  pub settled : X
  pub meanwhile : Breaker → Breaker

-- A promise: a value, or the error that it is rejected with.
pub data Promised (X : Type 0) : Type 0 where
  resolves : X → Promised X
  rejects : String → Promised X

pub data Protected (X : Type 0) : Type 0 where
  returned : X → Protected X
  rethrown : String → Protected X
  -- `CircuitOpenError`
  refused : String → Protected X

module _ (cfg : CircuitBreakerConfig) (name : String) where
  settle : {X : Type 0} → (started finished : ℕ) → Promised X → Breaker → Protected X × Breaker
  unfolding record_success record_failure
  settle started finished (resolves v) s = (returned v, record_success cfg s)
  settle started finished (rejects e) s = (rethrown e, record_failure cfg finished s)

  -- `started` and `finished` are the times at which the clock is read.
  unfoldable pub protect :
      {X : Type 0} → ℕ → ℕ → Operation (Promised X) → Breaker → Protected X × Breaker
  unfolding try_acquire settle
  protect started finished op s =
      let (admitted, s') = try_acquire cfg started s in
      if admitted then settle started finished op.settled (op.meanwhile s') else (refused name, s')

  -- `fallback` is what the fallback promise gives.
  unfoldable pub protect_or_else :
      {X : Type 0} → ℕ → ℕ → Operation (Promised X) → Protected X → Breaker → Protected X × Breaker
  unfolding try_acquire record_success record_failure
  protect_or_else started finished op fallback s =
      let (admitted, s') = try_acquire cfg started s in
      if admitted
      then elim op.settled [
        | resolves v ↦ (returned v, record_success cfg (op.meanwhile s'))
        | rejects e ↦ (fallback, record_failure cfg finished (op.meanwhile s'))
      ]
      else (fallback, s')

  settle_result : {A : Type 0} → (CallError → Bool) → ℕ → CallResult A → Breaker → Breaker
  unfolding record_success record_failure
  settle_result is_failure finished (ok v) s = record_success cfg s
  settle_result is_failure finished (err e) s =
      if is_failure e then record_failure cfg finished s else record_success cfg s

  unfoldable pub protect_either :
      {A : Type 0}
      → (CallError → Bool)
      → ℕ
      → ℕ
      → Operation (Promised (CallResult A))
      → Breaker
      → Protected (CallResult A) × Breaker
  unfolding try_acquire settle_result record_failure
  protect_either is_failure started finished op s =
      let (admitted, s') = try_acquire cfg started s in
      if admitted
      then elim op.settled [
        | resolves r ↦ (returned r, settle_result is_failure finished r (op.meanwhile s'))
        | rejects e ↦ (rethrown e, record_failure cfg finished (op.meanwhile s'))
      ]
      else (returned (err (circuit_open name)), s')
