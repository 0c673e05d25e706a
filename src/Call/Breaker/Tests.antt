-- ===== src/Call/Breaker/Tests.antt =====
-- A breaker that trips, refuses, probes and recovers.
use teob_ts.Common.{ℕ, [], ◌∷◌, List, ◌≡◌, refl, arith}
use teob_ts.Call.Breaker.{
  CircuitBreakerConfig, closed, open_circuit, half_open, Breaker, new_breaker, resolves, returned,
  protect,
}
use teob_ts.Call.Breaker.Laws.{
  BreakerOp, acquires, succeeds, fails, apply_op, run_ops, IsWithinLimits, streak, probes,
  run_ops-IsWithinLimits,
}
use teob_ts.Call.Breaker.Trips.{protect-recovers}

abbrev strict : CircuitBreakerConfig
strict = record { max_failures = 2; reset_timeout_ms = 100; half_open_max_calls = 1 }

-- Two failures open it; a call at 50 is refused, one at 120 probes, and its success closes it.
abbrev day : List BreakerOp
day = acquires 1 ∷ fails 10 ∷ acquires 11 ∷ fails 20 ∷ acquires 50 ∷ acquires 120 ∷ succeeds ∷ []

abbrev broken : Breaker
broken = record {
  state = open_circuit;
  consecutive_failures = 2;
  total_failures = 2;
  total_successes = 0;
  total_rejections = 0;
  opened_at_ms = 20;
  half_open_inflight = 0;
}

abbrev probing : Breaker
probing = record broken { state = half_open }

day_ends : run_ops strict new_breaker day ≡ record broken {
  state = closed;
  consecutive_failures = 0;
  total_successes = 1;
  total_rejections = 1;
}
unfolding run_ops apply_op new_breaker
day_ends = refl

run_ops-IsWithinLimits_example :
    IsWithinLimits strict
      (run_ops strict new_breaker day).state
      (streak strict 0 day)
      (probes strict new_breaker 0 day)
run_ops-IsWithinLimits_example = run_ops-IsWithinLimits strict day

-- Until the probe of that day settles, the breaker has let one call pass.
one_probe : probes strict new_breaker 0 (fails 0 ∷ fails 10 ∷ acquires 50 ∷ acquires 120 ∷ []) ≡ 1
unfolding probes apply_op new_breaker
one_probe = refl

protect-recovers_example :
    let (r, s') =
      protect strict "mail" {X = ℕ} 120 130
        (record { settled = resolves 5; meanwhile = λ b. b })
        broken in
    (r ≡ returned 5) × (s'.state ≡ closed) × (s'.consecutive_failures ≡ 0)
protect-recovers_example =
    protect-recovers strict "mail" 120 130 5 broken refl (omega arith) (omega arith)
