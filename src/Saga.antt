-- ===== src/Saga.antt =====
-- Sagas: src/saga/index.ts with its in-memory store, and the tails of src/saga/tailing.ts.
-- `W` is the world that a handler changes through its context; a handler that throws returns `false`.

mod Tests
pub mod Tail
pub mod Retry
pub mod Order
use Prim.Native.String.{◌++◌ as str_append}
use teob_ts.Common.{
  ℕ, suc, String, Option, none, some, Bool, true, false, List, [], ◌∷◌, leb, ltb, ◌==◌, str_eq,
  ◌&&◌, if◌then◌else◌,
}
use teob_ts.Common.Maps.{or_zero, set-forward, Map, get, set}
use teob_ts.Codec.{Codec}
use teob_ts.Journal.{Journal, all_events, persistence_key}

pub record SagaStore : Type 0 where
  pub offsets : Map ℕ
  pub steps : Map ℕ

abbrev pub empty_saga_store : SagaStore
empty_saga_store = record { offsets = []; steps = [] }

-- A handler: the event, the entity, and the world before and after.
abbrev pub Handler : Type 0 → Type 0 → Type 0
Handler E W = E → String → W → Bool × W

pub record SagaDefinition (E W : Type 0) : Type 0 where
  pub name : String
  pub on : String
  pub from : String
  pub execute : Handler E W

pub record SagaStep (E W : Type 0) : Type 0 where
  pub on : String
  pub from : String
  pub execute : Handler E W

pub record StatefulSagaDefinition (E W : Type 0) : Type 0 where
  pub name : String
  pub steps : List (SagaStep E W)
  -- Without a `compensate` the world stays as it is.
  pub compensate : ℕ → Handler E W

-- `allEvents` and the tails yield an entity, a number and an event.
abbrev pub SagaRecord : Type 0 → Type 0
SagaRecord E = String × ℕ × E

-- `${sagaName}:${category}:${entityId}`
unfoldable pub offset_key : String → String → String → String
unfolding persistence_key
offset_key saga_name category entity_id =
    persistence_key saga_name (persistence_key category entity_id)

unfoldable pub get_offset : String → String → String → SagaStore → ℕ
unfolding or_zero offset_key
get_offset saga_name category entity_id s =
    or_zero (get s.offsets (offset_key saga_name category entity_id))

unfoldable pub set_offset : String → String → String → ℕ → SagaStore → SagaStore
unfolding offset_key
set_offset saga_name category entity_id n s = record s {
  offsets = set s.offsets (offset_key saga_name category entity_id) n;
}

unfoldable pub get_step : String → String → SagaStore → ℕ
unfolding or_zero persistence_key
get_step saga_name correlation_id s =
    or_zero (get s.steps (persistence_key saga_name correlation_id))

unfoldable pub set_step : String → String → ℕ → SagaStore → SagaStore
unfolding persistence_key
set_step saga_name correlation_id n s = record s {
  steps = set s.steps (persistence_key saga_name correlation_id) n;
}

module _ {E : Type 0} (tag_of : E → Option String) where
  -- `event.tag === on`, of an event that has a tag.
  unfoldable pub matches : String → E → Bool
  matches on event = elim (tag_of event) [ none ↦ false | some tag ↦ str_eq tag on ]

  module _ {W : Type 0} (saga : SagaDefinition E W) where
    -- The body of the loop of `runSaga`; `false` where the handler throws.
    unfoldable pub saga_event : SagaRecord E → W × SagaStore → Bool × W × SagaStore
    unfolding matches get_offset set_offset
    saga_event (entity_id, n, event) (w, s) =
        if leb n (get_offset saga.name saga.from entity_id s)
        then (true, w, s)
        else let advanced = set_offset saga.name saga.from entity_id n s in
          let (ok, w') = saga.execute event entity_id w in
          if matches saga.on event
          then (ok, w', if ok then advanced else s)
          else (true, w, advanced)

    unfoldable pub saga_events : List (SagaRecord E) → W × SagaStore → Bool × W × SagaStore
    unfolding saga_event
    saga_events [] state = (true, state.0, state.1)
    saga_events (x ∷ xs) state =
        let (ok, w, s) = saga_event x state in
        let rest = saga_events xs (w, s) in if ok then rest else (false, w, s)

    unfoldable pub run_saga :
        {J : Type 0} → Codec E J → Journal J → W × SagaStore → Bool × W × SagaStore
    unfolding saga_events
    run_saga codec journal state = elim (all_events codec saga.from journal) [
      | none ↦ (false, state.0, state.1)
      | some events ↦ saga_events events state
    ]

    -- The loop of `runTailingSaga` over what the tail yields: a failure does not end it.
    unfoldable pub run_tailing_saga : List (SagaRecord E) → W × SagaStore → W × SagaStore
    unfolding saga_event
    run_tailing_saga [] state = state
    run_tailing_saga (x ∷ xs) state =
        let (ok, w, s) = saga_event x state in run_tailing_saga xs (w, s)

  -- `print` writes a step's number into its offset key.
  module _ {W : Type 0} (print : ℕ → String) (saga : StatefulSagaDefinition E W) where
    -- `${step.from}:step${stepIdx}`
    unfoldable pub step_key : SagaStep E W → ℕ → String
    step_key step index = str_append step.from (str_append ":step" (print index))

    unfoldable pub step_offset : SagaStep E W → ℕ → String → SagaStore → ℕ
    unfolding get_offset step_key
    step_offset step index entity_id = get_offset saga.name (step_key step index) entity_id

    unfoldable pub advance_offset : SagaStep E W → ℕ → SagaRecord E → SagaStore → SagaStore
    unfolding set_offset step_key
    advance_offset step index (entity_id, n, event) =
        set_offset saga.name (step_key step index) entity_id n

    -- The body of the inner loop of `runStatefulSaga`; `false` where `compensate` throws.
    unfoldable pub stateful_event :
        SagaStep E W → ℕ → SagaRecord E → W × SagaStore → Bool × W × SagaStore
    unfolding matches step_offset advance_offset get_step set_step
    stateful_event step index (entity_id, n, event) (w, s) =
        let advance = advance_offset step index (entity_id, n, event) in
        let (ok, w') = step.execute event entity_id w in
        let (compensated, w'') = saga.compensate index event entity_id w' in
        if leb n (step_offset step index entity_id s)
        then (true, w, s)
        else if matches step.on event && get_step saga.name entity_id s == index
        then if ok
          then (true, w', advance (set_step saga.name entity_id (suc index) s))
          else (compensated, w'', if compensated then advance s else s)
        else (true, w, advance s)

    unfoldable pub stateful_events :
        SagaStep E W → ℕ → List (SagaRecord E) → W × SagaStore → Bool × W × SagaStore
    unfolding stateful_event
    stateful_events step index [] state = (true, state.0, state.1)
    stateful_events step index (x ∷ xs) state =
        let (ok, w, s) = stateful_event step index x state in
        let rest = stateful_events step index xs (w, s) in if ok then rest else (false, w, s)

    -- The outer loop, from the step `index` on.
    unfoldable pub stateful_steps :
        {J : Type 0}
        → Codec E J
        → Journal J
        → ℕ
        → List (SagaStep E W)
        → W × SagaStore
        → Bool × W × SagaStore
    unfolding stateful_events
    stateful_steps codec journal index [] state = (true, state.0, state.1)
    stateful_steps codec journal index (step ∷ steps) state =
        elim (all_events codec step.from journal) [
          | none ↦ (false, state.0, state.1)
          | some events ↦
              let (ok, w, s) = stateful_events step index events state in
              let rest = stateful_steps codec journal (suc index) steps (w, s) in
              if ok then rest else (false, w, s)
        ]

    unfoldable pub run_stateful_saga :
        {J : Type 0} → Codec E J → Journal J → W × SagaStore → Bool × W × SagaStore
    unfolding stateful_steps
    run_stateful_saga codec journal = stateful_steps codec journal 0 saga.steps
