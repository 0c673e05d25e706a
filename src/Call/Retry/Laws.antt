-- ===== src/Call/Retry/Laws.antt =====
-- The retry delays against Fibonacci's recursion, and their bounds.
use Prim.Native.Nat.{min}
use native.Mathlib.Nat.{pow-suc, mul-le-mul_left, mul-le-mul_right, le-mul_of_pos_right}
use teob_ts.Common.{
  ℕ, zero, suc, ◌+◌, ◌-◌, ◌*◌, ◌^◌, ◌≤◌, ◌<◌, ◌≡◌, refl, ap, ◌∙◌, arith, leb, lt→not-leb, if_false,
}
use teob_ts.Call.Retry.{
  BackoffStrategy, fibonacci_backoff, exponential, fixed, RetryPolicy, fibonacci_loop, fibonacci,
  raw_delay, delay_for,
}

-- F 0 = 0, F 1 = 1, F (n + 2) = F n + F (n + 1).
abbrev pub fib : ℕ → ℕ
fib zero = 0
fib (suc zero) = 1
fib (suc (suc n)) = fib n + fib (suc n)

fibonacci_loop-fib : (k n : ℕ) → fibonacci_loop k (fib n) (fib (suc n)) ≡ fib (suc (n + k))
unfolding fibonacci_loop
fibonacci_loop-fib zero n = ap (λ m. fib (suc m)) (omega arith)
fibonacci_loop-fib (suc k) n = fibonacci_loop-fib k (suc n) ∙ ap (λ m. fib (suc m)) (omega arith)

add_one : (n : ℕ) → 1 + suc n ≡ suc (suc n)
add_one n = omega arith

drop_two : (n : ℕ) → suc (suc (suc n)) - 2 ≡ suc n
drop_two n = omega arith

fibonacci_above : (n : ℕ) → fibonacci (suc (suc (suc n))) ≡ fibonacci_loop (suc n) 1 1
unfolding fibonacci
fibonacci_above n =
    if_false (leb (suc (suc (suc n))) 2) 1 _ (lt→not-leb _ _ (omega arith))
    ∙ ap (λ k. fibonacci_loop k 1 1) (drop_two n)

-- The loop computes Fibonacci's numbers: `fibonacci n` is F n, for n at least 1.
pub fibonacci-fib : (n : ℕ) → fibonacci (suc n) ≡ fib (suc n)
unfolding fibonacci
fibonacci-fib zero = refl
fibonacci-fib (suc zero) = refl
fibonacci-fib (suc (suc n)) =
    fibonacci_above n ∙ fibonacci_loop-fib (suc n) 1 ∙ ap (λ m. fib (suc m)) (add_one n)

fib-pos : (n : ℕ) → 0 < fib (suc n)
fib-pos zero = omega arith
fib-pos (suc n) = omega (arith, fib-pos n)

fib_mono : (n : ℕ) → fib (suc n) ≤ fib (suc (suc n))
fib_mono n = omega arith

-- Delays grow under every strategy but an exponential one with the factor 0.
abbrev pub Grows : BackoffStrategy → Type 0
Grows fibonacci_backoff = Unit
Grows (exponential factor) = 0 < factor
Grows fixed = Unit

raw_delay-le :
    (strategy : BackoffStrategy) (initial n : ℕ)
    → Grows strategy
    → raw_delay strategy initial (suc n) ≤ raw_delay strategy initial (suc (suc n))
unfolding raw_delay
raw_delay-le fibonacci_backoff initial n h =
    rw (fibonacci-fib n, fibonacci-fib (suc n)) (mul-le-mul_right initial (fib_mono n))
raw_delay-le (exponential factor) initial n h =
    let e : suc n - 1 ≡ n = omega arith in
    let f : suc (suc n) - 1 ≡ suc n = omega arith in
    rw (e, f) (mul-le-mul_left initial (rw pow-suc (le-mul_of_pos_right (factor ^ n) h)))
raw_delay-le fixed initial n h = omega arith

-- Under every strategy but an exponential one with the factor 0, the delay before the next attempt
-- never passes `maxDelayMs`, and does not fall from one attempt to the next.
pub delay_for_bounds :
    (p : RetryPolicy) (attempt : ℕ)
    → Grows p.strategy
    → (delay_for p attempt ≤ p.max_delay_ms) × (delay_for p attempt ≤ delay_for p (suc attempt))
unfolding delay_for
delay_for_bounds p zero h = omega arith
delay_for_bounds p (suc n) h = ground (arith, raw_delay-le p.strategy p.initial_delay_ms n h)

raw_fib :
    (p : RetryPolicy) (n : ℕ)
    → p.strategy ≡ fibonacci_backoff
    → raw_delay p.strategy p.initial_delay_ms (suc n) ≡ fib (suc n) * p.initial_delay_ms
unfolding raw_delay
raw_fib p n e =
    ap (λ s. raw_delay s p.initial_delay_ms (suc n)) e
    ∙ ap (λ f. f * p.initial_delay_ms) (fibonacci-fib n)

-- Under the Fibonacci strategy the delay behind the n-th failed attempt, n at least 1, is F n
-- times the initial delay, cut off at `maxDelayMs`.
pub delay_for-fib :
    (p : RetryPolicy) (n : ℕ)
    → p.strategy ≡ fibonacci_backoff
    → delay_for p (suc n) ≡ min (fib (suc n) * p.initial_delay_ms) p.max_delay_ms
unfolding delay_for
delay_for-fib p n e = ground (arith, raw_fib p n e)
