-- ===== src/Entity/Types.antt =====
-- The state of an entity runner. `C`, `R`, `E`, `S` are the commands, replies, events and states of
-- the aggregate, and `J` the encoded values of the journal.
use teob_ts.Common.{ℕ, String, Option, Bool, List}
use teob_ts.Common.Maps.{Map}
use teob_ts.Effect.{Effect}
use teob_ts.Codec.{Codec}
use teob_ts.Envelope.{EventEnvelope, Stamp}
use teob_ts.Journal.{Journal}

-- Why an entity crashed, or an ask failed.
pub data Failure : Type 0 where
  threw : String → Failure
  duplicate_sequence_nr : ℕ → Failure
  -- an error of the event codec while `loadEvents` decodes
  decode_failed : Failure
  entity_stopped : Failure
  entity_crashed : Failure → Failure

-- The calls that a handler makes on its `EffectControl`, as far as they change the runner. Calls
-- to other entities, `log` and the delays of timers leave its state alone.
pub data CtxCall (C : Type 0) : Type 0 where
  tell_self : C → CtxCall C
  schedule_once : String → C → CtxCall C
  schedule_periodic : String → C → CtxCall C
  cancel_timer : String → CtxCall C

pub data Settled (X : Type 0) : Type 0 where
  resolved : X → Settled X
  rejected : String → Settled X

-- An awaited handler of the application: the calls on the context in order, and how it settled.
pub record Attempt (C X : Type 0) : Type 0 where
  pub calls : List (CtxCall C)
  pub outcome : Settled X

-- The closure of a `Run` effect stands for what it does when it is run, and a deferred reply for
-- its number.
abbrev pub Eff : Type 0 → Type 0 → Type 0 → Type 0
Eff C R E = Effect E R (Attempt C (Unit {0})) ℕ

pub record Aggregate (C R E S : Type 0) : Type 0 where
  pub category : String
  pub initial : String → S
  pub decide : S → C → Attempt C (Eff C R E)
  pub apply : S → E → S
  pub on_recovery_complete : Option (S → Attempt C (Unit {0}))
  pub snapshot_every : Option ℕ

-- The options of `createEntityRunner`. `stamp_of` reads the envelope stamp off an event object, and
-- `ids` are the values of successive calls of `ulid()`.
pub record Wiring (C R E S J : Type 0) : Type 0 where
  pub aggregate : Aggregate C R E S
  pub entity_id : String
  pub event_codec : Codec E J
  pub state_codec : Codec S J
  pub ignore_snapshots_on_recovery : Bool
  pub stamp_of : E → Option Stamp
  pub ids : ℕ → String

-- Who waits for an answer: the resolver of an ask, and the sequence number when it was taken.
pub record Caller : Type 0 where
  pub ask_id : ℕ
  pub pre_sequence_nr : ℕ

pub data Message (C : Type 0) : Type 0 where
  tell : C → Message C
  ask : C → ℕ → Message C
  timer_fired : String → C → Message C
  stop : Message C

pub data Answer (R : Type 0) : Type 0 where
  -- reply, sequenceNr, preSequenceNr
  replied : Option R → ℕ → ℕ → Answer R
  timed_out : Answer R
  failed : Failure → Answer R

pub record StashedEntry (C : Type 0) : Type 0 where
  pub command : C
  pub reply_to : Option Caller

pub record EntityState (C S : Type 0) : Type 0 where
  pub state : S
  pub sequence_nr : ℕ
  pub stashed : List (StashedEntry C)
  pub events_since_snapshot : ℕ

-- A `ReplyDeferred` that is neither completed nor timed out.
pub record Waiting : Type 0 where
  pub deferred : ℕ
  pub reply_to : Option Caller
  pub sequence_nr : ℕ

pub record Timer (C : Type 0) : Type 0 where
  pub command : C
  pub periodic : Bool

pub record PersistedEventRecord (J : Type 0) : Type 0 where
  pub sequence_nr : ℕ
  pub manifest : String
  pub encoded : J
  pub envelope : EventEnvelope

-- One call of `onPersisted`.
pub record PersistedBatch (J : Type 0) : Type 0 where
  pub category : String
  pub entity_id : String
  pub records : List (PersistedEventRecord J)
  pub at : ℕ

-- The runner with what it shares: the journal, the deferreds completed in its time with the values
-- that they were first completed with, its answers so far, and the batches it has published.
-- `clock` is the time that `Date.now()` gives; `minted` counts the ids drawn.
pub record Runner (C R S J : Type 0) : Type 0 where
  pub entity : EntityState C S
  pub journal : Journal J
  pub mailbox : List (Message C)
  pub timers : Map (Timer C)
  pub waiting : List Waiting
  pub completions : List (ℕ × R)
  pub answers : List (ℕ × Answer R)
  pub published : List (PersistedBatch J)
  pub minted : ℕ
  pub clock : ℕ
  pub terminated : Bool

-- How a piece of the runner's work ends.
pub data Ran (W : Type 0) : Type 0 where
  finished : W → Ran W
  crashed : Failure → W → Ran W
  out_of_fuel : Ran W

abbrev pub and_then : {W : Type 0} → Ran W → (W → Ran W) → Ran W
and_then (finished w) f = f w
and_then (crashed e w) f = crashed e w
and_then out_of_fuel f = out_of_fuel
