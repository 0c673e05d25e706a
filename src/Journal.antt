-- ===== src/Journal.antt =====
-- The in-memory journal: src/inmem/journal.ts, with the interface of src/core/journal-store.ts.
-- `J` is the type of encoded values. A method that throws returns that as a value. A live tail
-- is a listener with a queue; how a tail yields its records is not modelled.
pub mod Keys
pub mod Snapshot
pub mod Append
pub mod Stream
mod Tests
use mathlib.Core.Option
use Prim.Native.String.{◌++◌ as str_append, len, slice}
use text.Mathlib.Text.{starts_with}
use teob_ts.Common.{
  ℕ, zero, suc, ◌+◌, String, Option, none, some, Bool, true, false, List, [], ◌∷◌, ◌++◌, map, ltb,
  ◌==◌, str_eq, if◌then◌else◌, filter, find?, any, length, foldl,
}
use teob_ts.Common.Maps.{Map, get, set}
use teob_ts.Envelope.{EventEnvelope}
use teob_ts.Codec.{Codec}

pub record StoredEvent (J : Type 0) : Type 0 where
  pub global_seq : ℕ
  pub sequence_nr : ℕ
  pub manifest : String
  pub payload : J
  pub envelope : Option EventEnvelope

pub record LiveRecord (J : Type 0) : Type 0 where
  pub global_seq : ℕ
  pub category : String
  pub entity_id : String
  pub stored : StoredEvent J

pub record StoredSnapshot (J : Type 0) : Type 0 where
  pub sequence_nr : ℕ
  pub manifest : String
  pub payload : J

-- A live tail's listener: the category that it follows and the queue that it fills.
pub record Listener (J : Type 0) : Type 0 where
  pub category : String
  pub queue : List (LiveRecord J)

pub record Journal (J : Type 0) : Type 0 where
  pub events : Map (List (StoredEvent J))
  pub snapshots : Map (StoredSnapshot J)
  pub global_seq : ℕ
  pub listeners : List (Listener J)

pub data Persisted : Type 0 where
  persisted : ℕ → Persisted
  -- `DuplicateSequenceNrError`
  duplicate_sequence_nr : ℕ → Persisted

pub data LoadedSnapshot (S : Type 0) : Type 0 where
  no_snapshot : LoadedSnapshot S
  snapshot_at : ℕ → S → LoadedSnapshot S
  -- `SnapshotDecodeError`
  snapshot_undecodable : LoadedSnapshot S

unfoldable pub persistence_key : String → String → String
persistence_key category_id entity_id = str_append category_id (str_append ":" entity_id)

abbrev pub or_empty : {A : Type 0} → Option (List A) → List A
or_empty none = []
or_empty (some l) = l

module _ {J : Type 0} where
  abbrev pub empty : Journal J
  empty = record { events = []; snapshots = []; global_seq = 0; listeners = [] }

  -- `events.get(key) ?? []`
  unfoldable pub stored_at : Journal J → String → List (StoredEvent J)
  stored_at j key = or_empty (get j.events key)

  unfoldable pub taken : List (StoredEvent J) → ℕ → Bool
  taken existing n = any (λ x. x.sequence_nr == n) existing

  -- `listener(r)`: a tail keeps the records of its own category.
  unfoldable pub notify : LiveRecord J → Listener J → Listener J
  notify r l = if str_eq r.category l.category then record l { queue = l.queue ++ r ∷ [] } else l

  unfoldable pub notify_all :
      String → String → List (StoredEvent J) → List (Listener J) → List (Listener J)
  unfolding notify
  notify_all category_id entity_id [] listeners = listeners
  notify_all category_id entity_id (s ∷ rest) listeners = notify_all category_id entity_id rest (
      map
        (notify (record {
          global_seq = s.global_seq;
          category = category_id;
          entity_id = entity_id;
          stored = s;
        }))
        listeners)

abbrev pub envelope_at : List EventEnvelope → Option EventEnvelope
envelope_at [] = none
envelope_at (e ∷ _) = some e

abbrev pub envelopes_from : List EventEnvelope → List EventEnvelope
envelopes_from [] = []
envelopes_from (_ ∷ es) = es

module _ {E J : Type 0} (codec : Codec E J) where
  -- `newEvents.map((event, idx) => …)`, with the numbers before the batch; envelopes run parallel.
  unfoldable pub to_stored : ℕ → ℕ → List E → List EventEnvelope → List (StoredEvent J)
  to_stored global start [] envelopes = []
  to_stored global start (event ∷ rest) envelopes =
      record {
        global_seq = suc global;
        sequence_nr = suc start;
        manifest = codec.manifest event;
        payload = codec.encode event;
        envelope = envelope_at envelopes;
      }
      ∷ to_stored (suc global) (suc start) rest (envelopes_from envelopes)

  append_batch :
      String → String → List E → ℕ → List (StoredEvent J) → Journal J → Persisted × Journal J
  unfolding notify_all taken stored_at persistence_key
  append_batch category_id entity_id new_events start stored j =
      let key = persistence_key category_id entity_id in
      let existing = stored_at j key in
      elim (find? (λ s. taken existing s.sequence_nr) stored) [
        | some s ↦ (duplicate_sequence_nr s.sequence_nr, j)
        | none ↦ (
          persisted (start + length new_events),
          record j {
            global_seq = j.global_seq + length stored;
            events = set j.events key (existing ++ stored);
            listeners = notify_all category_id entity_id stored j.listeners;
          },
        )
      ]

  unfoldable pub persist_events :
      String → String → List E → ℕ → List EventEnvelope → Journal J → Persisted × Journal J
  unfolding append_batch to_stored
  persist_events category_id entity_id [] start envelopes j = (persisted start, j)
  persist_events category_id entity_id (e ∷ es) start envelopes j =
      append_batch category_id entity_id (e ∷ es) start
        (to_stored j.global_seq start (e ∷ es) envelopes) j

  -- Decoding stops at the first event that throws.
  unfoldable pub decode_all : List (StoredEvent J) → Option (List (ℕ × E))
  decode_all [] = some []
  decode_all (x ∷ xs) = elim (codec.decode x.manifest x.payload) [
    | none ↦ none
    | some e ↦ Option.map (λ l. (x.sequence_nr, e) ∷ l) (decode_all xs)
  ]

  unfoldable pub load_events : String → String → ℕ → Journal J → Option (List (ℕ × E))
  unfolding decode_all stored_at persistence_key
  load_events category_id entity_id from j =
      decode_all
        (filter (λ x. ltb from x.sequence_nr) (stored_at j (persistence_key category_id entity_id)))

  decode_category : String → Map (List (StoredEvent J)) → Option (List (String × ℕ × E))
  unfolding decode_all
  decode_category prefix [] = some []
  decode_category prefix ((key, stored) ∷ m) =
      let rest = decode_category prefix m in
      if starts_with key prefix
      then elim (decode_all stored) [
        | none ↦ none
        | some l ↦
            Option.map (λ r. map (λ x. (slice key (len prefix) (len key), x.0, x.1)) l ++ r) rest
      ]
      else rest

  unfoldable pub all_events : String → Journal J → Option (List (String × ℕ × E))
  unfolding decode_category
  all_events category_id j = decode_category (str_append category_id ":") j.events

module _ {S J : Type 0} (codec : Codec S J) where
  unfoldable pub persist_snapshot : String → String → S → ℕ → Journal J → Journal J
  unfolding persistence_key
  persist_snapshot category_id entity_id state sequence_nr j = record j {
    snapshots = set j.snapshots (persistence_key category_id entity_id) (record {
      sequence_nr = sequence_nr;
      manifest = codec.manifest state;
      payload = codec.encode state;
    });
  }

  read_snapshot : Option (StoredSnapshot J) → LoadedSnapshot S
  read_snapshot none = no_snapshot
  read_snapshot (some snap) = elim (codec.decode snap.manifest snap.payload) [
    | none ↦ snapshot_undecodable
    | some state ↦ snapshot_at snap.sequence_nr state
  ]

  unfoldable pub load_snapshot : String → String → Journal J → LoadedSnapshot S
  unfolding read_snapshot persistence_key
  load_snapshot category_id entity_id j =
      read_snapshot (get j.snapshots (persistence_key category_id entity_id))
