-- ===== src/Flow/Commands.antt =====
-- The flow aggregate: src/petrinet/flow-aggregate.ts, its reducer, events, replies and side effects.
use teob_ts.Common.{
  ℕ, String, Option, none, some, Bool, true, false, ◌&&◌, ◌||◌, List, [], ◌∷◌, ◌++◌, map, str_eq,
  ltb, length, if◌then◌else◌, foldl,
}
use teob_ts.Common.Maps.{Map, get, set, values}
use teob_ts.Flow.{
  Token, PlaceInstance, PlaceType, inbound, outbound, internal, TransitionState, ExecutableFlow,
}
use teob_ts.Flow.Net.{
  has, or_nothing, add_token, transitions_ready, record_transition_start,
  record_transition_completion, record_transition_failure, place_for_result,
}

pub data FlowCommand (D : Type 0) : Type 0 where
  -- token, expectsRepliesAt, spanId
  inbound_token : Token D → List String → String → FlowCommand D
  get_flow_instance_view : FlowCommand D
  -- transitionId, tokens, spanId
  transition_result : String → List (Token D) → String → FlowCommand D
  -- transitionId, message, spanId
  transition_error : String → String → String → FlowCommand D

pub data FlowReply (D : Type 0) : Type 0 where
  token_rejected : Token D → String → FlowReply D
  outbound_tokens : Map (List (Token D)) → String → FlowReply D
  flow_instance_view : Map (List (Token D)) → Map TransitionState → FlowReply D

pub data FlowEvent (D : Type 0) : Type 0 where
  -- placeId, token, spanId
  token_added : String → Token D → String → FlowEvent D
  -- transitionId, from, consumed, spanId
  transition_fired : String → String → List (Token D) → String → FlowEvent D
  -- transitionId, to, spanId
  transition_completed : String → Map (List (Token D)) → String → FlowEvent D
  -- transitionId, from, spanId
  transition_failed : String → String → String → FlowEvent D

pub record FlowState (D : Type 0) : Type 0 where
  pub flow : ExecutableFlow D
  pub token_history : Map String

pub data FlowSideEffect (D : Type 0) : Type 0 where
  -- transitionId, consumed, spanId
  execute_transition : String → List (Token D) → String → FlowSideEffect D
  -- placeId, token, spanId
  outbound_token : String → Token D → String → FlowSideEffect D
  -- transitionId
  log_completed : String → FlowSideEffect D

pub record FlowCommandResult (D : Type 0) : Type 0 where
  pub events : List (FlowEvent D)
  pub reply : Option (FlowReply D)
  pub side_effects : List (FlowSideEffect D)

abbrev is_inbound : PlaceType → Bool
is_inbound inbound = true
is_inbound outbound = false
is_inbound internal = false

abbrev is_outbound : PlaceType → Bool
is_outbound inbound = false
is_outbound outbound = true
is_outbound internal = false

abbrev is_span : Option String → String → Bool
is_span none span = false
is_span (some s) span = str_eq s span

module _ {D : Type 0} (now : ℕ) where
  unfoldable pub update_flow_state : FlowState D → FlowEvent D → FlowState D
  unfolding add_token record_transition_start record_transition_completion record_transition_failure
  update_flow_state s (token_added place token span) = record {
    flow = add_token now s.flow place token none;
    token_history = set s.token_history span place;
  }
  update_flow_state s (transition_fired id from consumed span) = record s {
    flow = record_transition_start now s.flow from id;
  }
  update_flow_state s (transition_completed id to span) = record s {
    flow = record_transition_completion now s.flow id to span;
  }
  update_flow_state s (transition_failed id from span) = record s {
    flow = record_transition_failure now s.flow id from;
  }

  -- Every ready transition is fired from the place of the token, with all tokens of its own.
  unfoldable pub follow_up_events :
      FlowState D → Token D → PlaceInstance D → String → List (FlowEvent D)
  unfolding add_token transitions_ready
  follow_up_events s token place span =
      token_added place.id token span
      ∷ map (λ r. transition_fired r.0.id place.id r.1 span)
          (transitions_ready now (add_token now s.flow place.id token none))

  unfoldable pub inbound_events :
      FlowState D → Token D → String → List (PlaceInstance D) → List (FlowEvent D)
  unfolding follow_up_events
  inbound_events s token span [] = []
  inbound_events s token span (p ∷ ps) =
      (if is_inbound p.place_type && has p.accepts token.tag
        then follow_up_events s token p span
        else [])
      ++ inbound_events s token span ps

  -- `tokensByPlace` behind these tokens of the result.
  unfoldable pub group_results :
      ExecutableFlow D → String → List (Token D) → Map (List (Token D)) → Map (List (Token D))
  unfolding place_for_result
  group_results flow id [] by_place = by_place
  group_results flow id (t ∷ ts) by_place = elim (place_for_result flow id t) [
    | none ↦ group_results flow id ts by_place
    | some p ↦
        group_results flow id ts (set by_place p.id (or_nothing (get by_place p.id) ++ t ∷ []))
  ]

  unfoldable pub landed :
      FlowState D → PlaceInstance D → String → List (Token D) → List (FlowEvent D)
  unfolding follow_up_events
  landed s p span [] = []
  landed s p span (t ∷ ts) = follow_up_events s t p span ++ landed s p span ts

  unfoldable pub result_events : FlowState D → String → Map (List (Token D)) → List (FlowEvent D)
  unfolding landed
  result_events s span [] = []
  result_events s span ((id, tokens) ∷ rest) = elim (get s.flow.places id) [
    | none ↦ result_events s span rest
    | some p ↦ landed s p span tokens ++ result_events s span rest
  ]

  unfoldable pub events_on_command : FlowState D → FlowCommand D → List (FlowEvent D)
  unfolding inbound_events group_results result_events
  events_on_command s (inbound_token token expects span) =
      inbound_events s token span (values s.flow.places)
  events_on_command s (transition_result id tokens span) =
      let by_place = group_results s.flow id tokens [] in
      transition_completed id by_place span ∷ result_events s span by_place
  events_on_command s (transition_error id message span) = elim (get s.flow.transitions id) [
    | none ↦ []
    | some t ↦ transition_failed id t.from span ∷ []
  ]
  events_on_command s get_flow_instance_view = []

  unfoldable pub flow_view : FlowState D → FlowReply D
  flow_view s =
      flow_instance_view (map (λ x. (x.0, x.1.tokens)) s.flow.places)
        (map (λ x. (x.0, x.1.state)) s.flow.transitions)

  outbound_effect : Option (PlaceInstance D) → String → Token D → String → List (FlowSideEffect D)
  outbound_effect none id token span = []
  outbound_effect (some p) id token span =
      if is_outbound p.place_type then outbound_token id token span ∷ [] else []

  -- The side effects of an event, at the state behind all events.
  unfoldable pub side_effects_of : FlowState D → FlowEvent D → List (FlowSideEffect D)
  unfolding outbound_effect
  side_effects_of s (transition_fired id from consumed span) =
      execute_transition id consumed span ∷ []
  side_effects_of s (token_added id token span) =
      outbound_effect (get s.flow.places id) id token span
  side_effects_of s (transition_completed id to span) = log_completed id ∷ []
  side_effects_of s (transition_failed id from span) = []

  unfoldable pub side_effects_for : FlowState D → List (FlowEvent D) → List (FlowSideEffect D)
  unfolding side_effects_of
  side_effects_for s [] = []
  side_effects_for s (e ∷ es) = side_effects_of s e ++ side_effects_for s es

  -- The first of the places that holds a token of this span.
  unfoldable pub immediate_reply : FlowState D → List String → String → Option (FlowReply D)
  immediate_reply s [] span = none
  immediate_reply s (id ∷ ids) span =
      let rest = immediate_reply s ids span in
      elim (get s.flow.places id) [
        | none ↦ rest
        | some p ↦
            if is_outbound p.place_type && (ltb 0 (length p.tokens) && is_span p.last_span span)
            then some (outbound_tokens ((id, p.tokens) ∷ []) span)
            else rest
      ]

  reply_to : FlowState D → FlowCommand D → Option (FlowReply D)
  unfolding immediate_reply
  reply_to s (inbound_token token expects span) = immediate_reply s expects span
  reply_to s (transition_result id tokens span) = none
  reply_to s (transition_error id message span) = none
  reply_to s get_flow_instance_view = none

  handle_with : FlowState D → FlowCommand D → List (FlowEvent D) → FlowCommandResult D
  unfolding update_flow_state side_effects_for reply_to
  handle_with s command events =
      let s' = foldl update_flow_state s events in
      record {
        events = events;
        reply = reply_to s' command;
        side_effects = side_effects_for s' events;
      }

  unfoldable pub handle_flow_command : FlowState D → FlowCommand D → FlowCommandResult D
  unfolding events_on_command flow_view handle_with
  handle_flow_command s get_flow_instance_view = record {
    events = [];
    reply = some (flow_view s);
    side_effects = [];
  }
  handle_flow_command s command = handle_with s command (events_on_command s command)

-- What an executor settles with: the tokens that it produces, or an error.
pub data Executed (D : Type 0) : Type 0 where
  produced : List (Token D) → Executed D
  error : String → Executed D

module _ {D : Type 0} where
  self_command : Executed D → String → String → FlowCommand D
  self_command (produced tokens) id span = transition_result id tokens span
  self_command (error message) id span = transition_error id message span

  execute_one : Map (String → List (Token D) → Executed D) → FlowSideEffect D → List (FlowCommand D)
  unfolding self_command
  execute_one executors (execute_transition id consumed span) =
      -- empty ids are falsy
      if str_eq id "" || str_eq span "" then [] else elim (get executors id) [
        | none ↦ []
        | some executor ↦ self_command (executor id consumed) id span ∷ []
      ]
  execute_one executors (outbound_token id token span) = []
  execute_one executors (log_completed id) = []

  -- The commands that the entity sends itself; outbound handlers give none.
  unfoldable pub execute_side_effects :
      List (FlowSideEffect D) → Map (String → List (Token D) → Executed D) → List (FlowCommand D)
  unfolding execute_one
  execute_side_effects [] executors = []
  execute_side_effects (e ∷ es) executors =
      execute_one executors e ++ execute_side_effects es executors
