-- ===== src/Call/Retry.antt =====
-- Retry delays: src/core/call/retry.ts. Delays and factors are whole numbers.
pub mod Laws
mod Tests
use Prim.Native.Nat.{min}
use teob_ts.Common.{ℕ, zero, suc, ◌+◌, ◌-◌, ◌*◌, ◌^◌, ◌≤◌, Bool, leb, ltb, if◌then◌else◌}

pub data BackoffStrategy : Type 0 where
  fibonacci_backoff : BackoffStrategy
  exponential : ℕ → BackoffStrategy
  fixed : BackoffStrategy

pub record RetryPolicy : Type 0 where
  pub max_attempts : ℕ
  pub initial_delay_ms : ℕ
  pub max_delay_ms : ℕ
  pub strategy : BackoffStrategy

unfoldable pub default_policy : RetryPolicy
default_policy = record {
  max_attempts = 10;
  initial_delay_ms = 1000;
  max_delay_ms = 300000;
  strategy = fibonacci_backoff;
}

-- The rounds of `for (let i = 3; i <= n; i++)`.
unfoldable pub fibonacci_loop : ℕ → ℕ → ℕ → ℕ
fibonacci_loop zero a b = b
fibonacci_loop (suc rounds) a b = fibonacci_loop rounds b (a + b)

unfoldable pub fibonacci : ℕ → ℕ
unfolding fibonacci_loop
fibonacci n = if leb n 2 then 1 else fibonacci_loop (n - 2) 1 1

unfoldable pub raw_delay : BackoffStrategy → ℕ → ℕ → ℕ
unfolding fibonacci
raw_delay fibonacci_backoff initial attempt = fibonacci attempt * initial
raw_delay (exponential factor) initial attempt = initial * factor ^ (attempt - 1)
raw_delay fixed initial attempt = initial

unfoldable pub delay_for : RetryPolicy → ℕ → ℕ
unfolding raw_delay
delay_for p attempt =
    if ltb attempt 1
    then 0
    else min (raw_delay p.strategy p.initial_delay_ms attempt) p.max_delay_ms
