-- ===== src/Call/Breaker/Trips.antt =====
-- When the circuit breaker opens, what it refuses while it is open, and how it closes again.
use Prim.Native.Nat.{min}
use teob_ts.Common.{
  ℕ, ◌+◌, ◌-◌, ◌≤◌, ◌<◌, String, List, [], ◌∷◌, ◌≡◌, arith, leb, ◌&&◌, length, if◌then◌else◌,
}
use teob_ts.Call.Breaker.{
  CircuitBreakerConfig, closed, open_circuit, half_open, Breaker, try_acquire, record_failure,
  resolves, returned, protect,
}

module _ (cfg : CircuitBreakerConfig) where
  -- Calls that fail one after the other, at these times.
  unfoldable pub fail_all : Breaker → List ℕ → Breaker
  unfolding record_failure
  fail_all s [] = s
  fail_all s (t ∷ ts) = fail_all (record_failure cfg t s) ts

  fail_open :
      (ts : List ℕ) (s : Breaker) → s.state ≡ open_circuit → (fail_all s ts).state ≡ open_circuit
  unfolding fail_all
  fail_open [] s h = h
  fail_open (t ∷ ts) s h = fail_open ts (record_failure cfg t s) (ground arith)

  fail_counts :
      (ts : List ℕ) (s : Breaker)
      → s.state ≡ closed
      → s.consecutive_failures < cfg.max_failures
      → (fail_all s ts).state ≡ (
          if leb cfg.max_failures (s.consecutive_failures + length ts)
          then open_circuit
          else closed)
  unfolding fail_all
  fail_counts [] s h b = ground arith
  fail_counts (t ∷ ts) s h b =
      ground (arith, fail_open ts (record_failure cfg t s), fail_counts ts (record_failure cfg t s))

  -- From a closed breaker with no failure in a row, and `maxFailures` at least 1: after n failures in
  -- a row it is open exactly if n has reached `maxFailures`.
  pub fail_all-trips :
      (ts : List ℕ) (s : Breaker)
      → s.state ≡ closed
      → s.consecutive_failures ≡ 0
      → 0 < cfg.max_failures
      → (fail_all s ts).state ≡ (if leb cfg.max_failures (length ts) then open_circuit else closed)
  fail_all-trips ts s h z pos = ground (arith, fail_counts ts s)

  -- An open breaker refuses every call before the reset timeout has passed, and counts it; from
  -- then on it becomes half-open, and admits the call if `halfOpenMaxCalls` is at least 1. No
  -- success or failure is counted.
  pub try_acquire-open :
      (now : ℕ) (s : Breaker)
      → s.state ≡ open_circuit
      → let (admitted, s') = try_acquire cfg now s in
        let due = leb (s.opened_at_ms + cfg.reset_timeout_ms) now in
        (admitted ≡ (due && leb 1 cfg.half_open_max_calls))
        × (s'.state ≡ (if due then half_open else open_circuit))
        × (s'.total_rejections ≡ s.total_rejections + (if admitted then 0 else 1))
        × (s'.total_failures ≡ s.total_failures)
        × (s'.total_successes ≡ s.total_successes)
  unfolding try_acquire
  try_acquire-open now s h = ground arith

  -- Calls that arrive at a half-open breaker before any has settled: how many are admitted.
  unfoldable pub admitted : Breaker → List ℕ → ℕ
  unfolding try_acquire
  admitted s [] = 0
  admitted s (t ∷ ts) =
      (if (try_acquire cfg t s).0 then 1 else 0) + admitted (try_acquire cfg t s).1 ts

  -- Of any number of calls that reach a half-open breaker before one settles, it admits as many as
  -- `halfOpenMaxCalls` leaves room for, and no more.
  pub admitted-half_open :
      (ts : List ℕ) (s : Breaker)
      → s.state ≡ half_open
      → s.half_open_inflight ≤ cfg.half_open_max_calls
      → admitted s ts ≡ min (length ts) (cfg.half_open_max_calls - s.half_open_inflight)
  unfolding admitted
  admitted-half_open [] s h b = omega arith
  admitted-half_open (t ∷ ts) s h b = ground (arith, admitted-half_open ts (try_acquire cfg t s).1)

  -- An open breaker with `halfOpenMaxCalls` at least 1 recovers: a protected call made after the
  -- reset timeout is admitted, and if it succeeds, with no other caller in between, the breaker is
  -- closed with no failure in a row.
  pub protect-recovers :
      {X : Type 0} (name : String) (started finished : ℕ) (v : X) (s : Breaker)
      → s.state ≡ open_circuit
      → s.opened_at_ms + cfg.reset_timeout_ms ≤ started
      → 0 < cfg.half_open_max_calls
      → let (r, s') =
          protect cfg name started finished
            (record { settled = resolves v; meanwhile = λ b. b })
            s in
        (r ≡ returned v) × (s'.state ≡ closed) × (s'.consecutive_failures ≡ 0)
  unfolding protect
  protect-recovers name started finished v s h t pos = ground arith
