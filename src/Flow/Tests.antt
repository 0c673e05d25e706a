-- ===== src/Flow/Tests.antt =====
-- An order that is paid: one transition between two places.
use mathlib.Core.Option
use teob_ts.Common.{
  ℕ, ◌≡◌, refl, true, none, some, [], ◌∷◌, ◌++◌, All, foldl, leb, length, if◌then◌else◌,
}
use teob_ts.Common.Maps.{get, set, values}
use teob_ts.Flow.{
  Token, PlaceInstance, inbound, outbound, TransitionInstance, not_started, failed, ExecutableFlow,
  place_instance_from_def, transition_instance_from_def, create_executable_flow,
}
use teob_ts.Flow.Net.{
  transitions_ready, add_token, record_transition_start, record_transition_failure,
  place_for_result,
}
use teob_ts.Flow.Commands.{
  FlowState, token_added, transition_fired, update_flow_state, events_on_command, inbound_token,
  transition_result,
}
use teob_ts.Flow.Tokens.{count, tokens_at, failure_returns_tokens}
use teob_ts.Flow.Twice.{transition_result_doubles}
use teob_ts.Flow.Ready.{IsReady, transitions_ready-IsReady}
use teob_ts.Flow.Retries.{try_at, report, try_at-outcome}

abbrev cart : PlaceInstance ℕ
unfolding place_instance_from_def
cart =
    place_instance_from_def (record { id = "cart"; accepts = "Order" ∷ []; place_type = inbound })

abbrev paid : PlaceInstance ℕ
unfolding place_instance_from_def
paid =
    place_instance_from_def (record { id = "paid"; accepts = "Paid" ∷ []; place_type = outbound })

abbrev pay : TransitionInstance ℕ
unfolding transition_instance_from_def
pay =
    transition_instance_from_def
      (record { id = "pay"; from = "cart"; consumes = "Order" ∷ []; to = ("Paid", "paid") ∷ [] })

abbrev shop : ExecutableFlow ℕ
unfolding create_executable_flow
shop =
    create_executable_flow 0 "shop" (("cart", cart) ∷ ("paid", paid) ∷ []) (("pay", pay) ∷ [])
      (some 2) none

abbrev order : Token ℕ
order = record { tag = "Order"; payload = 7 }

abbrev receipt : Token ℕ
receipt = record { tag = "Paid"; payload = 7 }

abbrev opened : FlowState ℕ
opened = record { flow = shop; token_history = [] }

-- An order fires the payment.
fires :
    events_on_command 5 opened (inbound_token order [] "s1")
    ≡ token_added "cart" order "s1" ∷ transition_fired "pay" "cart" (order ∷ []) "s1" ∷ []
unfolding events_on_command shop cart paid pay get set values
fires = refl

failure_returns_tokens_example :
    count
      (λ t. true)
      (tokens_at
        (record_transition_failure 9
          (record_transition_start 5 (add_token 1 shop "cart" order none) "cart" "pay")
          "pay"
          "cart")
        "cart")
    ≡ count (λ t. true) (tokens_at (add_token 1 shop "cart" order none) "cart")
failure_returns_tokens_example =
    failure_returns_tokens "cart" "pay" (λ t. true) 5 9 (add_token 1 shop "cart" order none)

transitions_ready-IsReady_example :
    All
      (IsReady 5 (add_token 1 shop "cart" order none))
      (transitions_ready 5 (add_token 1 shop "cart" order none))
transitions_ready-IsReady_example = transitions_ready-IsReady 5 (add_token 1 shop "cart" order none)

try_at-outcome_example :
    Option.map report
      (get (try_at "cart" "pay" shop ((1, 2) ∷ (3, 4) ∷ (5, 6) ∷ [])).transitions "pay")
    ≡ some (
      length {A = ℕ × ℕ} ((1, 2) ∷ (3, 4) ∷ (5, 6) ∷ []),
      if leb (length {A = ℕ × ℕ} ((1, 2) ∷ (3, 4) ∷ (5, 6) ∷ [])) 2 then not_started else failed,
    )
unfolding shop pay cart get
try_at-outcome_example =
    try_at-outcome "cart" "pay" ((1, 2) ∷ (3, 4) ∷ (5, 6) ∷ []) shop pay cart refl refl refl refl

transition_result_doubles_example :
    tokens_at
      (foldl
        (update_flow_state 9)
        opened
        (events_on_command 9 opened (transition_result "pay" (receipt ∷ []) "s1"))).flow
      "paid"
    ≡ ([] ++ receipt ∷ []) ++ receipt ∷ []
unfolding shop paid pay cart get place_for_result transitions_ready add_token set values
transition_result_doubles_example =
    transition_result_doubles 9 opened "pay" "s1" paid receipt refl refl refl refl
