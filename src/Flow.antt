-- ===== src/Flow.antt =====
-- Petri-net flows: src/petrinet/types.ts and the state of src/petrinet/executable-flow.ts. A token
-- is its tag and the rest of its data, of type `D`. Sets are lists in the order of insertion.
pub mod Net
pub mod Commands
pub mod Tokens
pub mod Ready
pub mod Retries
pub mod Twice
mod Tests
use teob_ts.Common.{ℕ, String, Option, none, some, List, [], ◌∷◌}
use teob_ts.Common.Maps.{Map}

pub record Token (D : Type 0) : Type 0 where
  pub tag : String
  pub payload : D

pub data PlaceType : Type 0 where
  inbound outbound internal : PlaceType

pub data TransitionState : Type 0 where
  not_started ongoing completed failed : TransitionState

pub record PlaceDef : Type 0 where
  pub id : String
  pub accepts : List String
  pub place_type : PlaceType

pub record TransitionDef : Type 0 where
  pub id : String
  pub from : String
  pub consumes : List String
  -- token tag to place
  pub to : Map String

pub record PlaceInstance (D : Type 0) : Type 0 where
  pub id : String
  pub accepts : List String
  pub place_type : PlaceType
  pub tokens : List (Token D)
  pub last_span : Option String

pub record TransitionInstance (D : Type 0) : Type 0 where
  pub id : String
  pub from : String
  pub consumes : List String
  pub consumed : Option (List (Token D))
  pub produces : Map String
  pub produced : List (Token D)
  pub state : TransitionState
  pub retry_attempts : ℕ
  pub next_retry_at : Option ℕ

pub record ExecutableFlow (D : Type 0) : Type 0 where
  pub id : String
  pub places : Map (PlaceInstance D)
  pub transitions : Map (TransitionInstance D)
  pub updated : ℕ
  pub seq : ℕ
  pub max_transition_retries : ℕ
  pub backoff_base_millis : ℕ

abbrev or_default : Option ℕ → ℕ → ℕ
or_default none n = n
or_default (some m) n = m

module _ {D : Type 0} where
  unfoldable pub place_instance_from_def : PlaceDef → PlaceInstance D
  place_instance_from_def d = record {
    id = d.id;
    accepts = d.accepts;
    place_type = d.place_type;
    tokens = [];
    last_span = none;
  }

  unfoldable pub transition_instance_from_def : TransitionDef → TransitionInstance D
  transition_instance_from_def d = record {
    id = d.id;
    from = d.from;
    consumes = d.consumes;
    consumed = none;
    produces = d.to;
    produced = [];
    state = not_started;
    retry_attempts = 0;
    next_retry_at = none;
  }

  -- `now` is the time that the time provider gives.
  unfoldable pub create_executable_flow :
      ℕ
      → String
      → Map (PlaceInstance D)
      → Map (TransitionInstance D)
      → Option ℕ
      → Option ℕ
      → ExecutableFlow D
  create_executable_flow now id places transitions max_retries backoff = record {
    id = id;
    places = places;
    transitions = transitions;
    updated = now;
    seq = 0;
    max_transition_retries = or_default max_retries 10;
    backoff_base_millis = or_default backoff 1;
  }
