-- ===== src/Envelope.antt =====
-- Event metadata that rides beside the payload: src/core/envelope.ts, and the stamping that the
-- entity runner does before it persists.
use teob_ts.Common.{ℕ, String, Option, none, some}

pub record EventEnvelope : Type 0 where
  pub event_id : String
  pub causation_id : Option String
  pub correlation_id : Option String
  pub origin : Option String
  pub v : ℕ

-- The partial metadata that `stampEnvelope` leaves on an event object.
pub record Stamp : Type 0 where
  pub event_id : Option String
  pub causation_id : Option String
  pub correlation_id : Option String
  pub origin : Option String

abbrev or_else : Option String → String → String
or_else none fresh = fresh
or_else (some s) fresh = s

-- The envelope of one event; `fresh` is the id that `ulid()` would give.
unfoldable pub envelope_of : Option Stamp → String → EventEnvelope
envelope_of none fresh = record {
  event_id = fresh;
  causation_id = none;
  correlation_id = none;
  origin = none;
  v = 1;
}
envelope_of (some stamp) fresh = record {
  event_id = or_else stamp.event_id fresh;
  causation_id = stamp.causation_id;
  correlation_id = stamp.correlation_id;
  origin = stamp.origin;
  v = 1;
}
