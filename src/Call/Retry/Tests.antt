-- ===== src/Call/Retry/Tests.antt =====
-- The delays of a policy, attempt by attempt.
use teob_ts.Common.{◌≡◌, refl, [], ◌∷◌, map}
use teob_ts.Call.Retry.{RetryPolicy, exponential, delay_for}

abbrev quick : RetryPolicy
quick = record {
  max_attempts = 4;
  initial_delay_ms = 100;
  max_delay_ms = 500;
  strategy = exponential 2;
}

quick_delays : map (delay_for quick) (0 ∷ 1 ∷ 2 ∷ 3 ∷ 4 ∷ []) ≡ 0 ∷ 100 ∷ 200 ∷ 400 ∷ 500 ∷ []
unfolding delay_for
quick_delays = refl
