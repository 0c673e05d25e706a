-- ===== src/Call/Breaker/Laws.antt =====
-- The invariant of the circuit breaker over all interleavings of its callers.
use teob_ts.Common.{
  ℕ, suc, ◌+◌, ◌≤◌, ◌<◌, List, [], ◌∷◌, ◌≡◌, ◌⊎◌, arith, if◌then◌else◌, Bool, true, false,
}
use teob_ts.Call.Breaker.{
  CircuitBreakerConfig, CircuitState, closed, open_circuit, half_open, Breaker, new_breaker,
  try_acquire, record_success, record_failure, current_state,
}

-- What the callers of a breaker can do to it, with the time at which the clock is read: a call is
-- admitted or refused, an admitted call settles, the metrics are read. Admitted calls settle in any
-- order, so all lists of such steps are interleavings of concurrent calls.
pub data BreakerOp : Type 0 where
  acquires : ℕ → BreakerOp
  succeeds : BreakerOp
  fails : ℕ → BreakerOp
  observed : ℕ → BreakerOp

module _ (cfg : CircuitBreakerConfig) where
  unfoldable pub apply_op : Breaker → BreakerOp → Breaker
  unfolding try_acquire record_success record_failure current_state
  apply_op s (acquires now) = (try_acquire cfg now s).1
  apply_op s succeeds = record_success cfg s
  apply_op s (fails now) = record_failure cfg now s
  apply_op s (observed now) = (current_state cfg now s).1

  unfoldable pub run_ops : Breaker → List BreakerOp → Breaker
  run_ops s [] = s
  run_ops s (op ∷ ops) = run_ops (apply_op s op) ops

  -- The failures in a row that the callers report: those behind the last success.
  abbrev pub streak_after : ℕ → BreakerOp → ℕ
  streak_after n (acquires now) = n
  streak_after n succeeds = 0
  streak_after n (fails now) = n + 1
  streak_after n (observed now) = n

  -- The probes of a half-open breaker: the calls that it has let pass since it became half-open.
  count_probe : CircuitState → Bool → ℕ → ℕ
  count_probe half_open true n = n + 1
  count_probe half_open false n = n
  count_probe closed admitted n = 0
  count_probe open_circuit admitted n = 0

  passes : Breaker → BreakerOp → Bool
  unfolding try_acquire
  passes s (acquires now) = (try_acquire cfg now s).0
  passes s succeeds = false
  passes s (fails now) = false
  passes s (observed now) = false

  abbrev pub probes_after : Breaker → ℕ → BreakerOp → ℕ
  unfolding count_probe passes
  probes_after s n op = count_probe (apply_op s op).state (passes s op) n

  abbrev pub streak : ℕ → List BreakerOp → ℕ
  streak n [] = n
  streak n (op ∷ ops) = streak (streak_after n op) ops

  unfoldable pub probes : Breaker → ℕ → List BreakerOp → ℕ
  unfolding count_probe passes
  probes s n [] = n
  probes s n (op ∷ ops) = probes (apply_op s op) (probes_after s n op) ops

  -- What the state of a breaker says of the streak and the probes that were seen.
  abbrev pub IsWithinLimits : CircuitState → ℕ → ℕ → Type 0
  IsWithinLimits closed seen let_pass = (seen ≡ 0) ⊎ (seen < cfg.max_failures)
  IsWithinLimits half_open seen let_pass = let_pass ≤ cfg.half_open_max_calls
  IsWithinLimits open_circuit seen let_pass = Unit

  IsCounted : CircuitState → Breaker → ℕ → Type 0
  IsCounted closed s n = n ≡ 0
  IsCounted half_open s n = s.half_open_inflight ≡ n
  IsCounted open_circuit s n = n ≡ 0

  IsValid : Breaker → ℕ → ℕ → Type 0
  unfolding IsCounted
  IsValid s n m = (s.consecutive_failures ≡ n) × IsCounted s.state s m × IsWithinLimits s.state n m

  apply_op-IsValid :
      (s : Breaker) (n m : ℕ) (op : BreakerOp)
      → IsValid s n m
      → IsValid (apply_op s op) (streak_after n op) (probes_after s m op)
  unfolding apply_op IsValid IsCounted count_probe passes
  apply_op-IsValid s n m (acquires now) h = ground arith
  apply_op-IsValid s n m succeeds h = ground arith
  apply_op-IsValid s n m (fails now) h = ground arith
  apply_op-IsValid s n m (observed now) h = ground arith

  run_ops-keeps :
      (ops : List BreakerOp) (s : Breaker) (n m : ℕ)
      → IsValid s n m
      → IsValid (run_ops s ops) (streak n ops) (probes s m ops)
  unfolding run_ops probes
  run_ops-keeps [] s n m h = h
  run_ops-keeps (op ∷ ops) s n m h =
      run_ops-keeps ops (apply_op s op) (streak_after n op) (probes_after s m op)
        (apply_op-IsValid s n m op h)

  new_breaker-IsValid : IsValid new_breaker 0 0
  unfolding new_breaker IsValid IsCounted
  new_breaker-IsValid = ground arith

  -- Whatever the callers do and in whatever order their calls settle: if the breaker is closed, the
  -- callers have reported fewer failures since the last success than `maxFailures` (or none), and if
  -- it is half-open, it has let at most `halfOpenMaxCalls` calls pass since it became so. Both are
  -- counted from what the callers do and whether they are let pass, not from its own counters.
  pub run_ops-IsWithinLimits :
      (ops : List BreakerOp)
      → IsWithinLimits (run_ops new_breaker ops).state (streak 0 ops) (probes new_breaker 0 ops)
  unfolding IsValid
  run_ops-IsWithinLimits ops = (run_ops-keeps ops new_breaker 0 0 new_breaker-IsValid).2

  abbrev pub settled_ops : List BreakerOp → ℕ
  settled_ops [] = 0
  settled_ops (acquires now ∷ ops) = settled_ops ops
  settled_ops (succeeds ∷ ops) = suc (settled_ops ops)
  settled_ops (fails now ∷ ops) = suc (settled_ops ops)
  settled_ops (observed now ∷ ops) = settled_ops ops

  -- The calls that the breaker has refused, among these steps.
  unfoldable pub refusals : Breaker → List BreakerOp → ℕ
  refusals s [] = 0
  refusals s (acquires now ∷ ops) =
      (if (try_acquire cfg now s).0 then 0 else 1) + refusals (apply_op s (acquires now)) ops
  refusals s (succeeds ∷ ops) = refusals (apply_op s succeeds) ops
  refusals s (fails now ∷ ops) = refusals (apply_op s (fails now)) ops
  refusals s (observed now ∷ ops) = refusals (apply_op s (observed now)) ops

  one_op :
      (s : Breaker) (op : BreakerOp)
      → ((apply_op s op).total_failures + (apply_op s op).total_successes
          ≡ s.total_failures + s.total_successes + settled_ops (op ∷ []))
        × ((apply_op s op).total_rejections ≡ s.total_rejections + refusals s (op ∷ []))
  unfolding apply_op refusals
  one_op s (acquires now) = ground arith
  one_op s succeeds = ground arith
  one_op s (fails now) = ground arith
  one_op s (observed now) = ground arith

  -- The metrics are exact: each settled call counts once, as a success or a failure, and each
  -- refused call counts once as a rejection.
  pub run_ops-metrics :
      (ops : List BreakerOp) (s : Breaker)
      → ((run_ops s ops).total_failures + (run_ops s ops).total_successes
          ≡ s.total_failures + s.total_successes + settled_ops ops)
        × ((run_ops s ops).total_rejections ≡ s.total_rejections + refusals s ops)
  unfolding run_ops refusals
  run_ops-metrics [] s = omega arith
  run_ops-metrics (acquires now ∷ ops) s =
      omega (arith, one_op s (acquires now), run_ops-metrics ops (apply_op s (acquires now)))
  run_ops-metrics (succeeds ∷ ops) s =
      omega (arith, one_op s succeeds, run_ops-metrics ops (apply_op s succeeds))
  run_ops-metrics (fails now ∷ ops) s =
      omega (arith, one_op s (fails now), run_ops-metrics ops (apply_op s (fails now)))
  run_ops-metrics (observed now ∷ ops) s =
      omega (arith, one_op s (observed now), run_ops-metrics ops (apply_op s (observed now)))
