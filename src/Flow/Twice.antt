-- ===== src/Flow/Twice.antt =====
-- What the result of a transition puts on its place.
use mathlib.Core.Option
use teob_ts.Common.{ℕ, String, Option, none, some, true, [], ◌∷◌, ◌++◌, ◌≡◌, refl, ap, ◌∙◌, foldl}
use teob_ts.Common.Maps.{get, set}
use teob_ts.Flow.{Token, PlaceInstance, ExecutableFlow}
use teob_ts.Flow.Net.{
  has, put_token, add_token, transitions_ready, place_for_result, record_transition_completion,
}
use teob_ts.Flow.Commands.{
  token_added, transition_completed, FlowState, transition_result, update_flow_state,
  follow_up_events, group_results, result_events, landed, events_on_command,
}
use teob_ts.Flow.Tokens.{tokens_of, tokens_at, places-update_transition, get-update_place}

module _ {D : Type 0} (now : ℕ) where
  get-add_token :
      (f : ExecutableFlow D) (k : String) (p : PlaceInstance D) (token : Token D)
      (span : Option String)
      → get f.places k ≡ some p
      → has p.accepts token.tag ≡ true
      → get (add_token now f k token span).places k ≡ some (put_token token span p)
  unfolding add_token
  get-add_token f k p token span e h =
      rw (e, add_token, h)
        (get-update_place f k (put_token token span) ∙ ap (Option.map (put_token token span)) e)

  get-completion :
      (f : ExecutableFlow D) (id k span : String) (p : PlaceInstance D) (token : Token D)
      → get f.places k ≡ some p
      → has p.accepts token.tag ≡ true
      → get (record_transition_completion now f id ((k, token ∷ []) ∷ []) span).places k
        ≡ some (put_token token (some span) p)
  unfolding record_transition_completion
  get-completion f id k span p token e h =
      ap (λ m. get m k) (places-update_transition (add_token now f k token (some span)) id _)
      ∙ get-add_token f k p token (some span) e h

  module _ (s : FlowState D) (id span : String) (p : PlaceInstance D) (token : Token D)
      (goes : place_for_result s.flow id token ≡ some p) (stored : get s.flow.places p.id ≡ some p)
      (accepted : has p.accepts token.tag ≡ true)
      (quiet : transitions_ready now (add_token now s.flow p.id token none) ≡ []) where
    events-result :
        events_on_command now s (transition_result id (token ∷ []) span)
        ≡ transition_completed id ((p.id, token ∷ []) ∷ []) span ∷ token_added p.id token span ∷ []
    unfolding events_on_command group_results get set result_events landed follow_up_events
    events-result =
        let by_place : group_results now s.flow id (token ∷ []) [] ≡ (p.id, token ∷ []) ∷ [] =
          rw (goes, group_results) refl in
        ap (λ b. transition_completed id b span ∷ result_events now s span b) by_place
        ∙ ap (λ es. transition_completed id ((p.id, token ∷ []) ∷ []) span ∷ es)
            (rw (stored, result_events) (rw quiet refl))

    -- The result of a transition is put on its place twice: when one token comes back, for a place
    -- that accepts it and where it makes no transition ready, the events of the command leave two of
    -- it behind the tokens that were there.
    pub transition_result_doubles :
        tokens_at
          (foldl
            (update_flow_state now)
            s
            (events_on_command now s (transition_result id (token ∷ []) span))).flow
          p.id
        ≡ (p.tokens ++ token ∷ []) ++ token ∷ []
    unfolding update_flow_state
    transition_result_doubles =
        ap (λ es. tokens_at (foldl (update_flow_state now) s es).flow p.id) events-result
        ∙ ap tokens_of (
            get-add_token _ p.id (put_token token (some span) p) token none
              (get-completion s.flow id p.id span p token stored accepted) accepted)
