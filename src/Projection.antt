-- ===== src/Projection.antt =====
-- Projections: src/projection/index.ts, its types and its in-memory store. A listener is the list of
-- the envelopes that it was called with.
pub mod Fold
pub mod Offsets
pub mod Passes
pub mod Views
pub mod Rebuild
pub mod Runner
mod Tests
use Prim.Native.Nat.{max}
use Prim.Native.String.{◌++◌ as str_append}
use text.Mathlib.Text.{starts_with}
use teob_ts.Common.{
  ℕ, String, Option, none, some, Bool, true, false, not, ◌&&◌, List, [], ◌∷◌, ◌++◌, map, leb,
  str_eq, if◌then◌else◌, filter,
}
use teob_ts.Common.Maps.{or_zero, set-forward, Map, get, set, values}
use teob_ts.Codec.{Codec}
use teob_ts.Journal.{Journal, all_events, persistence_key}

pub record ViewEnvelope (V : Type 0) : Type 0 where
  pub view_id : String
  pub view : V
  pub sequence_nr : ℕ

-- A listener on one view (`some view_id`) or on all views of a projection.
pub record ViewListener (V : Type 0) : Type 0 where
  pub projection_id : String
  pub view_id : Option String
  pub seen : List (ViewEnvelope V)

pub record ProjectionStore (V : Type 0) : Type 0 where
  pub views : Map (ViewEnvelope V)
  pub offsets : Map ℕ
  pub listeners : List (ViewListener V)

-- The arguments of `offsetGuardedFold` that change from event to event.
pub record FoldItem (E : Type 0) : Type 0 where
  pub category : String
  pub entity_id : String
  pub sequence_nr : ℕ
  pub view_id : String
  pub event : E

pub record SingleStreamProjection (E V : Type 0) : Type 0 where
  pub projection_id : String
  pub category : String
  pub evolve : V → E → String → Option V
  pub initial_state : V

pub record ProjectionSource (E : Type 0) : Type 0 where
  pub category : String
  pub get_view_id : E → String → String

pub record MultiStreamProjection (E V : Type 0) : Type 0 where
  pub projection_id : String
  pub sources : List (ProjectionSource E)
  pub evolve : V → E → String → Option V
  pub initial_state : V

-- `${projectionId}:${viewId}`
unfoldable pub view_key : String → String → String
view_key projection_id view_id = str_append (str_append projection_id ":") view_id

-- `${projectionId}:${category}:${entityId}`
unfoldable pub offset_key : String → String → String → String
unfolding persistence_key
offset_key projection_id category entity_id =
    str_append (str_append projection_id ":") (persistence_key category entity_id)

module _ {V : Type 0} where
  abbrev pub empty_store : ProjectionStore V
  empty_store = record { views = []; offsets = []; listeners = [] }

  unfoldable pub listens : String → String → ViewListener V → Bool
  unfolding view_key
  listens projection_id view_id l = elim l.view_id [
    | none ↦ str_eq l.projection_id projection_id
    | some v ↦ str_eq (view_key l.projection_id v) (view_key projection_id view_id)
  ]

  -- `notifier.notify`
  unfoldable pub notify : String → ViewEnvelope V → List (ViewListener V) → List (ViewListener V)
  unfolding listens
  notify projection_id envelope = map (λ l.
      if listens projection_id envelope.view_id l
      then record l { seen = l.seen ++ envelope ∷ [] }
      else l)

  unfoldable pub get_view : String → String → ProjectionStore V → Option (ViewEnvelope V)
  unfolding view_key
  get_view projection_id view_id s = get s.views (view_key projection_id view_id)

  unfoldable pub get_offset : String → String → String → ProjectionStore V → ℕ
  unfolding offset_key or_zero
  get_offset projection_id category entity_id s =
      or_zero (get s.offsets (offset_key projection_id category entity_id))

  unfoldable pub set_offset : String → String → String → ℕ → ProjectionStore V → ProjectionStore V
  unfolding offset_key
  set_offset projection_id category entity_id n s = record s {
    offsets = set s.offsets (offset_key projection_id category entity_id) n;
  }

  unfoldable pub store_view :
      String → String → ViewEnvelope V → ProjectionStore V → ProjectionStore V
  unfolding notify view_key
  store_view projection_id view_id envelope s = record s {
    views = set s.views (view_key projection_id view_id) envelope;
    listeners = notify projection_id envelope s.listeners;
  }

  unfoldable pub put : String → String → ViewEnvelope V → ProjectionStore V → ProjectionStore V
  unfolding store_view get_view
  put projection_id view_id envelope s = elim (get_view projection_id view_id s) [
    | none ↦ store_view projection_id view_id envelope s
    | some existing ↦
        if leb envelope.sequence_nr existing.sequence_nr
        then s
        else store_view projection_id view_id envelope s
  ]

  -- `existing?.sequenceNr ?? 0`
  unfoldable pub seq_or_zero : Option (ViewEnvelope V) → ℕ
  seq_or_zero none = 0
  seq_or_zero (some e) = e.sequence_nr

  unfoldable pub put_with_offset :
      String → String → ViewEnvelope V → String → String → ProjectionStore V → ProjectionStore V
  unfolding store_view get_view get_offset set_offset seq_or_zero
  put_with_offset projection_id view_id envelope category entity_id s =
      if leb envelope.sequence_nr (get_offset projection_id category entity_id s)
      then s
      else let existing = get_view projection_id view_id s in
        let effective : ViewEnvelope V = record envelope {
          sequence_nr = max envelope.sequence_nr (seq_or_zero existing);
        } in
        set_offset projection_id category entity_id envelope.sequence_nr
          (store_view projection_id view_id effective s)

-- Deletes every key with the prefix.
unfoldable pub without_prefix : {W : Type 0} → String → Map W → Map W
without_prefix prefix = filter (λ p. not (starts_with p.0 prefix))

module _ {V : Type 0} where
  unfoldable pub list_views : String → ProjectionStore V → List (ViewEnvelope V)
  list_views projection_id s =
      values (filter (λ p. starts_with p.0 (str_append projection_id ":")) s.views)

  unfoldable pub clear : String → ProjectionStore V → ProjectionStore V
  unfolding without_prefix
  clear projection_id s =
      let prefix = str_append projection_id ":" in
      record s { views = without_prefix prefix s.views; offsets = without_prefix prefix s.offsets }

  abbrev pub at_once : Option (ViewEnvelope V) → List (ViewEnvelope V)
  at_once none = []
  at_once (some e) = e ∷ []

  -- The listener is called at once with the current envelope; a later write finds it in the list.
  unfoldable pub subscribe : String → String → ProjectionStore V → ProjectionStore V
  unfolding get_view
  subscribe projection_id view_id s = record s {
    listeners =
        s.listeners
        ++ record {
          projection_id = projection_id;
          view_id = some view_id;
          seen = at_once (get_view projection_id view_id s);
        }
          ∷ [];
  }

  unfoldable pub subscribe_all : String → ProjectionStore V → ProjectionStore V
  subscribe_all projection_id s = record s {
    listeners =
        s.listeners ++ record { projection_id = projection_id; view_id = none; seen = [] } ∷ [];
  }
