-- ===== src/Flow/Net.antt =====
-- The operations of a flow: src/petrinet/executable-flow.ts. `now` is the time of the provider.
use Prim.Native.Nat.{max}
use mathlib.Core.Option
use teob_ts.Common.{
  ℕ, zero, suc, ◌+◌, ◌-◌, ◌*◌, String, Option, none, some, Bool, true, false, List, [], ◌∷◌, ◌++◌,
  str_eq, ltb, leb, if◌then◌else◌, foldl, any, all,
}
use teob_ts.Common.Maps.{Map, get, set, values}
use teob_ts.Flow.{
  Token, PlaceInstance, TransitionInstance, TransitionState, not_started, ongoing, completed,
  failed, ExecutableFlow,
}

-- The rounds of `for (let i = 2; i < n; i++)`.
unfoldable pub fibonacci_rounds : ℕ → ℕ → ℕ → ℕ
fibonacci_rounds zero a b = b
fibonacci_rounds (suc rounds) a b = fibonacci_rounds rounds b (a + b)

unfoldable pub fibonacci : ℕ → ℕ
unfolding fibonacci_rounds
fibonacci n = if leb n 1 then 1 else fibonacci_rounds (n - 2) 1 1

abbrev pub has : List String → String → Bool
has tags tag = any (λ t. str_eq t tag) tags

abbrev pub is_ongoing : TransitionState → Bool
is_ongoing ongoing = true
is_ongoing not_started = false
is_ongoing completed = false
is_ongoing failed = false

abbrev pub waits : Option ℕ → ℕ → Bool
waits none now = false
waits (some at) now = ltb now at

abbrev pub or_nothing : {A : Type 0} → Option (List A) → List A
or_nothing none = []
or_nothing (some l) = l

-- `spanId ?? p.lastSpan`
abbrev or_last : Option String → Option String → Option String
or_last none last = last
or_last (some span) last = some span

module _ {D : Type 0} where
  unfoldable pub update_place :
      ExecutableFlow D → String → (PlaceInstance D → PlaceInstance D) → ExecutableFlow D
  update_place flow id fn = elim (get flow.places id) [
    | none ↦ flow
    | some p ↦ record flow { places = set flow.places id (fn p) }
  ]

  unfoldable pub update_transition :
      ExecutableFlow D → String → (TransitionInstance D → TransitionInstance D) → ExecutableFlow D
  update_transition flow id fn = elim (get flow.transitions id) [
    | none ↦ flow
    | some t ↦ record flow { transitions = set flow.transitions id (fn t) }
  ]

  unfoldable pub tick : ℕ → ExecutableFlow D → ExecutableFlow D
  tick now flow = record flow { updated = now; seq = flow.seq + 1 }

  -- The place with the token behind its tokens.
  abbrev pub put_token : Token D → Option String → PlaceInstance D → PlaceInstance D
  put_token token span p = record p {
    tokens = p.tokens ++ token ∷ [];
    last_span = or_last span p.last_span;
  }

  unfoldable pub add_token :
      ℕ → ExecutableFlow D → String → Token D → Option String → ExecutableFlow D
  unfolding tick update_place
  add_token now flow id token span = elim (get flow.places id) [
    | none ↦ flow
    | some place ↦
        if has place.accepts token.tag
        then tick now (update_place flow id (put_token token span))
        else flow
  ]

  unfoldable pub add_tokens :
      ℕ → ExecutableFlow D → String → List (Token D) → Option String → ExecutableFlow D
  unfolding add_token
  add_tokens now flow id tokens span = foldl (λ f t. add_token now f id t span) flow tokens

  unfoldable pub with_initial_tokens :
      ℕ → ExecutableFlow D → List (String × Token D) → ExecutableFlow D
  unfolding add_token
  with_initial_tokens now flow pairs = foldl (λ f x. add_token now f x.0 x.1 none) flow pairs

  abbrev pub has_tag : List (Token D) → String → Bool
  has_tag tokens tag = any (λ t. str_eq t.tag tag) tokens

  -- The loop body of `transitionsReady` behind its time checks.
  unfoldable pub ready_at :
      TransitionInstance D → Option (PlaceInstance D) → List (TransitionInstance D × List (Token D))
  ready_at t none = []
  ready_at t (some place) = elim place.tokens [
    | [] ↦ []
    | x ∷ xs ↦ if all (has_tag place.tokens) t.consumes then (t, place.tokens) ∷ [] else []
  ]

  unfoldable pub ready :
      ℕ → ExecutableFlow D → TransitionInstance D → List (TransitionInstance D × List (Token D))
  unfolding ready_at
  ready now flow t =
      if is_ongoing t.state
      then []
      else if waits t.next_retry_at now
      then []
      else ready_at t (get flow.places t.from)

  unfoldable pub ready_among :
      ℕ
      → ExecutableFlow D
      → List (TransitionInstance D)
      → List (TransitionInstance D × List (Token D))
  unfolding ready
  ready_among now flow [] = []
  ready_among now flow (t ∷ ts) = ready now flow t ++ ready_among now flow ts

  unfoldable pub transitions_ready :
      ℕ → ExecutableFlow D → List (TransitionInstance D × List (Token D))
  unfolding ready_among
  transitions_ready now flow = ready_among now flow (values flow.transitions)

  -- `findIndex` and `splice`: the first token with the tag, and the tokens without it.
  unfoldable pub take_tag : String → List (Token D) → Option (Token D × List (Token D))
  take_tag tag [] = none
  take_tag tag (t ∷ ts) =
      let rest = take_tag tag ts in
      if str_eq t.tag tag then some (t, ts) else Option.map (λ r. (r.0, t ∷ r.1)) rest

  -- The loop over `transition.consumes`: the consumed tokens and the remaining ones.
  unfoldable pub consume :
      List String → List (Token D) → List (Token D) → List (Token D) × List (Token D)
  unfolding take_tag
  consume [] consumed remaining = (consumed, remaining)
  consume (tag ∷ tags) consumed remaining = elim (take_tag tag remaining) [
    | none ↦ consume tags consumed remaining
    | some (t, rest) ↦ consume tags (consumed ++ t ∷ []) rest
  ]

  unfoldable pub start_with :
      ℕ
      → ExecutableFlow D
      → String
      → String
      → Option (TransitionInstance D)
      → Option (PlaceInstance D)
      → ExecutableFlow D
  unfolding consume update_place update_transition tick
  start_with now flow from id (some t) (some p) =
      let (consumed, remaining) = consume t.consumes [] p.tokens in
      tick now (
        update_transition (update_place flow from (λ q. record q { tokens = remaining })) id
          (λ u. record u { consumed = some consumed; state = ongoing }))
  start_with now flow from id (some t) none = flow
  start_with now flow from id none p = flow

  unfoldable pub record_transition_start : ℕ → ExecutableFlow D → String → String → ExecutableFlow D
  unfolding start_with
  record_transition_start now flow from id =
      start_with now flow from id (get flow.transitions id) (get flow.places from)

  unfoldable pub place_all : ℕ → ExecutableFlow D → Map (List (Token D)) → String → ExecutableFlow D
  unfolding add_tokens
  place_all now flow [] span = flow
  place_all now flow ((id, tokens) ∷ rest) span =
      place_all now (add_tokens now flow id tokens (some span)) rest span

  abbrev pub all_tokens : Map (List (Token D)) → List (Token D)
  all_tokens [] = []
  all_tokens ((id, tokens) ∷ rest) = tokens ++ all_tokens rest

  unfoldable pub record_transition_completion :
      ℕ → ExecutableFlow D → String → Map (List (Token D)) → String → ExecutableFlow D
  unfolding place_all update_transition tick
  record_transition_completion now flow id tokens_by_place span = tick now (
      update_transition (place_all now flow tokens_by_place span) id (λ t. record t {
        state = completed;
        produced = all_tokens tokens_by_place;
        retry_attempts = 0;
        next_retry_at = none;
      }))

  -- The transition behind its next failure.
  unfoldable pub schedule_retry :
      ℕ → ExecutableFlow D → ℕ → TransitionInstance D → TransitionInstance D
  unfolding fibonacci
  schedule_retry now flow attempts t =
      if leb attempts flow.max_transition_retries
      then record t {
        state = not_started;
        retry_attempts = attempts;
        next_retry_at = some (now + max 1 (fibonacci attempts) * flow.backoff_base_millis);
      }
      else record t { state = failed; retry_attempts = attempts; next_retry_at = none }

  unfoldable pub fail_with :
      ℕ → ExecutableFlow D → String → String → Option (TransitionInstance D) → ExecutableFlow D
  unfolding schedule_retry update_place update_transition tick
  fail_with now flow id from none = flow
  fail_with now flow id from (some t) =
      let returned =
        update_place flow from (λ p. record p { tokens = p.tokens ++ or_nothing t.consumed }) in
      tick now (update_transition returned id (schedule_retry now flow (t.retry_attempts + 1)))

  unfoldable pub record_transition_failure :
      ℕ → ExecutableFlow D → String → String → ExecutableFlow D
  unfolding fail_with
  record_transition_failure now flow id from = fail_with now flow id from (get flow.transitions id)

  place_of : ExecutableFlow D → Option String → Option (PlaceInstance D)
  place_of flow none = none
  -- an empty id is falsy
  place_of flow (some id) = if str_eq id "" then none else get flow.places id

  unfoldable pub place_for_result : ExecutableFlow D → String → Token D → Option (PlaceInstance D)
  unfolding place_of
  place_for_result flow id token = elim (get flow.transitions id) [
    | none ↦ none
    | some t ↦ place_of flow (get t.produces token.tag)
  ]
