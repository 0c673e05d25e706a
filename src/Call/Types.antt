-- ===== src/Call/Types.antt =====
-- Errors, results and phases of a call: src/core/call/types.ts, events.ts and phase.ts. `Q` is the
-- type of requests and `A` that of responses.
use Prim.Native.String.{◌++◌ as str_append}
use teob_ts.Common.{ℕ, String, Option, Bool, true, false, ◌||◌, leb, ◌==◌}

pub data CallError : Type 0 where
  http_status : ℕ → String → CallError
  timeout : ℕ → CallError
  connection_refused : String → CallError
  circuit_open : String → CallError
  custom : String → CallError

pub data CallResult (A : Type 0) : Type 0 where
  ok : A → CallResult A
  err : CallError → CallResult A

unfoldable pub is_transient : CallError → Bool
is_transient (http_status code body) = leb 500 code || code == 429
is_transient (timeout ms) = true
is_transient (connection_refused target) = true
is_transient (circuit_open name) = false
is_transient (custom message) = false

-- `show` is the decimal form of a number, which a template literal gives.
unfoldable pub error_to_string : (ℕ → String) → CallError → String
error_to_string show (http_status code body) =
    str_append "http_status " (str_append (show code) (str_append ": " body))
error_to_string show (timeout ms) = str_append "timeout after " (str_append (show ms) "ms")
error_to_string show (connection_refused target) = str_append "connection_refused: " target
error_to_string show (circuit_open name) = str_append "circuit_open: " name
error_to_string show (custom message) = message

unfoldable pub error_type_label : (ℕ → String) → CallError → String
error_type_label show (http_status code body) = str_append "http_" (show code)
error_type_label show (timeout ms) = "timeout"
error_type_label show (connection_refused target) = "connection_refused"
error_type_label show (circuit_open name) = "circuit_open"
error_type_label show (custom message) = "custom"

pub data CallPhase (A : Type 0) : Type 0 where
  idle : CallPhase A
  -- callId, attempt, startedAtEpochMs
  pending : String → ℕ → ℕ → CallPhase A
  -- callId, attempt, nextAtEpochMs
  retry_scheduled : String → ℕ → ℕ → CallPhase A
  succeeded : A → ℕ → CallPhase A
  permanent_failure : String → CallPhase A
  -- lastError, totalAttempts
  exhausted : String → ℕ → CallPhase A

unfoldable pub is_terminal : {A : Type 0} → CallPhase A → Bool
is_terminal (succeeded r t) = true
is_terminal (permanent_failure e) = true
is_terminal (exhausted e n) = true
is_terminal idle = false
is_terminal (pending c n t) = false
is_terminal (retry_scheduled c n t) = false

unfoldable pub is_active : {A : Type 0} → CallPhase A → Bool
is_active (pending c n t) = true
is_active (retry_scheduled c n t) = true
is_active idle = false
is_active (succeeded r t) = false
is_active (permanent_failure e) = false
is_active (exhausted e n) = false

pub data LifecycleEvent (Q A : Type 0) : Type 0 where
  -- callId, request, attempt, epochMs
  call_initiated : String → Q → ℕ → ℕ → LifecycleEvent Q A
  -- callId, response, attempt, epochMs
  call_succeeded : String → A → ℕ → ℕ → LifecycleEvent Q A
  -- callId, error, attempt, willRetry, nextRetryAtEpochMs
  call_failed : String → String → ℕ → Bool → Option ℕ → LifecycleEvent Q A
  -- callId, lastError, totalAttempts
  call_exhausted : String → String → ℕ → LifecycleEvent Q A

pub data DurableCallResult (A : Type 0) : Type 0 where
  success : A → ℕ → DurableCallResult A
  failure : CallError → ℕ → DurableCallResult A
