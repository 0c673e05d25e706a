-- ===== src/Flow/Tokens.antt =====
-- Tokens are neither lost nor made when a transition starts and fails.
use mathlib.Core.Option
use teob_ts.Common.{
  ℕ, ◌+◌, String, Option, none, some, Bool, List, [], ◌∷◌, ◌++◌, ◌≡◌, refl, ap, ◌∙◌, arith, inl,
  inr, Bool-cases, Option-cases, str_eq, if◌then◌else◌,
}
use teob_ts.Common.Maps.{get, get-set_self}
use teob_ts.Flow.{Token, PlaceInstance, TransitionInstance, ongoing, ExecutableFlow}
use teob_ts.Flow.Net.{
  or_nothing, take_tag, consume, start_with, fail_with, update_place, update_transition, tick,
  record_transition_start, record_transition_failure,
}

-- The tokens of a list that pass a test.
abbrev pub count : {D : Type 0} → (Token D → Bool) → List (Token D) → ℕ
count test [] = 0
count test (t ∷ ts) = (if test t then 1 else 0) + count test ts

abbrev pub tokens_of : {D : Type 0} → Option (PlaceInstance D) → List (Token D)
tokens_of none = []
tokens_of (some p) = p.tokens

module _ {D : Type 0} where
  abbrev pub tokens_at : ExecutableFlow D → String → List (Token D)
  tokens_at flow id = tokens_of (get flow.places id)

  pub count-append :
      (test : Token D → Bool) (xs ys : List (Token D))
      → count test (xs ++ ys) ≡ count test xs + count test ys
  count-append test [] ys = omega arith
  count-append test (x ∷ xs) ys = omega (arith, count-append test xs ys)

  -- What `take_tag` takes, with what it leaves, is what there was.
  abbrev Taken : (Token D → Bool) → List (Token D) → Option (Token D × List (Token D)) → Type 0
  Taken test xs none = Unit
  Taken test xs (some r) = count test xs ≡ count test (r.0 ∷ r.1)

  take_tag-Taken :
      (test : Token D → Bool) (tag : String) (xs : List (Token D)) → Taken test xs (take_tag tag xs)
  unfolding take_tag
  take_tag-Taken test tag [] = tt
  take_tag-Taken test tag (x ∷ xs) = elim (Bool-cases (str_eq x.tag tag)) [
    | inl e ↦ rw e refl
    | inr e ↦ rw e (behind (take_tag tag xs) (take_tag-Taken test tag xs))
  ]
    where
      behind :
          (r : Option (Token D × List (Token D)))
          → Taken test xs r
          → Taken test (x ∷ xs) (Option.map (λ r. (r.0, x ∷ r.1)) r)
      behind none h = tt
      behind (some r) h = omega (arith, h)

  consume-count :
      (test : Token D → Bool) (tags : List String) (consumed remaining : List (Token D))
      → count test (consume tags consumed remaining).0
          + count test (consume tags consumed remaining).1
        ≡ count test consumed + count test remaining
  unfolding consume
  consume-count test [] consumed remaining = refl
  consume-count test (tag ∷ tags) consumed remaining =
      go (take_tag tag remaining) (take_tag-Taken test tag remaining)
        (λ c r. consume-count test tags c r)
    where
      go :
          (r : Option (Token D × List (Token D)))
          → Taken test remaining r
          → ((c r : List (Token D))
              → count test (consume tags c r).0 + count test (consume tags c r).1
                ≡ count test c + count test r)
          → let out : List (Token D) × List (Token D) = elim r [
            | none ↦ consume tags consumed remaining
            | some (t, rest) ↦ consume tags (consumed ++ t ∷ []) rest
          ] in
            count test out.0 + count test out.1 ≡ count test consumed + count test remaining
      go none h ih = ih consumed remaining
      go (some (t, rest)) h ih =
          omega (arith, ih (consumed ++ t ∷ []) rest, h, count-append test consumed (t ∷ []))

  pub places-update_transition :
      (f : ExecutableFlow D) (id : String) (fn : TransitionInstance D → TransitionInstance D)
      → (update_transition f id fn).places ≡ f.places
  unfolding update_transition
  places-update_transition f id fn = elim (Option-cases (get f.transitions id)) [
    | inl e ↦ rw (e, update_transition) refl
    | inr (t, e) ↦ rw (e, update_transition) refl
  ]

  pub get-update_transition :
      (f : ExecutableFlow D) (id : String) (fn : TransitionInstance D → TransitionInstance D)
      → get (update_transition f id fn).transitions id ≡ Option.map fn (get f.transitions id)
  unfolding update_transition
  get-update_transition f id fn = elim (Option-cases (get f.transitions id)) [
    | inl e ↦ rw (e, update_transition) e
    | inr (t, e) ↦ rw (e, update_transition) (get-set_self f.transitions id (fn t))
  ]

  pub transitions-update_place :
      (f : ExecutableFlow D) (id : String) (fn : PlaceInstance D → PlaceInstance D)
      → (update_place f id fn).transitions ≡ f.transitions
  unfolding update_place
  transitions-update_place f id fn = elim (Option-cases (get f.places id)) [
    | inl e ↦ rw (e, update_place) refl
    | inr (p, e) ↦ rw (e, update_place) refl
  ]

  pub get-update_place :
      (f : ExecutableFlow D) (id : String) (fn : PlaceInstance D → PlaceInstance D)
      → get (update_place f id fn).places id ≡ Option.map fn (get f.places id)
  unfolding update_place
  get-update_place f id fn = elim (Option-cases (get f.places id)) [
    | inl e ↦ rw (e, update_place) e
    | inr (p, e) ↦ rw (e, update_place) (get-set_self f.places id (fn p))
  ]

  module _ (from id : String) where
    abbrev pub give_back : TransitionInstance D → PlaceInstance D → PlaceInstance D
    give_back t p = record p { tokens = p.tokens ++ or_nothing t.consumed }

    unfoldable pub returned : ExecutableFlow D → TransitionInstance D → ExecutableFlow D
    unfolding update_place
    returned g t = update_place g from (give_back t)

    tokens_at-failure :
        (now : ℕ) (g : ExecutableFlow D) (t : TransitionInstance D) (p : Option (PlaceInstance D))
        → get g.transitions id ≡ some t
        → get g.places from ≡ p
        → tokens_at (record_transition_failure now g id from) from
          ≡ tokens_of (Option.map (give_back t) p)
    unfolding record_transition_failure fail_with tick returned
    tokens_at-failure now g t p et ep =
        ap (λ o. tokens_of (get (fail_with now g id from o).places from)) et
        ∙ ap (λ m. tokens_of (get m from)) (places-update_transition (returned g t) id _)
        ∙ ap tokens_of (get-update_place g from (give_back t))
        ∙ ap (λ o. tokens_of (Option.map (give_back t) o)) ep

    -- The place and the transition behind a start.
    unfoldable pub started_place :
        TransitionInstance D → PlaceInstance D → PlaceInstance D → PlaceInstance D
    unfolding consume
    started_place t p q = record q { tokens = (consume t.consumes [] p.tokens).1 }

    unfoldable pub started_transition :
        TransitionInstance D → PlaceInstance D → TransitionInstance D → TransitionInstance D
    unfolding consume
    started_transition t p u = record u {
      consumed = some (consume t.consumes [] p.tokens).0;
      state = ongoing;
    }

    pub get-start :
        (now : ℕ) (f : ExecutableFlow D) (t : TransitionInstance D) (p : PlaceInstance D)
        → get f.transitions id ≡ some t
        → get f.places from ≡ some p
        → let g = start_with now f from id (some t) (some p) in
          (get g.transitions id ≡ some (started_transition t p t))
          × (get g.places from ≡ some (started_place t p p))
    unfolding start_with tick started_place started_transition
    get-start now f t p et ep =
        let placed = update_place f from (started_place t p) in
        (
          get-update_transition placed id (started_transition t p)
              ∙ ap (λ m. Option.map (started_transition t p) (get m id))
                  (transitions-update_place f from (started_place t p))
              ∙ ap (Option.map (started_transition t p)) et,
          ap (λ m. get m from) (places-update_transition placed id (started_transition t p))
              ∙ get-update_place f from (started_place t p)
              ∙ ap (Option.map (started_place t p)) ep,
        )

    start-failure :
        (test : Token D → Bool) (started now : ℕ) (f : ExecutableFlow D)
        (t : Option (TransitionInstance D)) (p : Option (PlaceInstance D))
        → get f.transitions id ≡ t
        → get f.places from ≡ p
        → count test (
            tokens_at
              (record_transition_failure now (start_with started f from id t p) id from)
              from)
          ≡ count test (tokens_of p)
    unfolding start_with record_transition_failure fail_with started_place started_transition
    start-failure test started now f none p et ep =
        ap (λ o. count test (tokens_at (fail_with now f id from o) from)) et
        ∙ ap (λ o. count test (tokens_of o)) ep
    start-failure test started now f (some t) none et ep =
        ap (count test) (tokens_at-failure now f t none et ep)
    start-failure test started now f (some t) (some p) et ep =
        let (gt, gp) = get-start started f t p et ep in
        ap (count test) (tokens_at-failure now _ (started_transition t p t) _ gt gp)
        ∙ omega (
          arith,
          consume-count test t.consumes [] p.tokens,
          count-append test (consume t.consumes [] p.tokens).1 (consume t.consumes [] p.tokens).0,
        )

    -- A transition that starts and then fails gives its tokens back: of every kind of token, the
    -- place that it consumes from holds as many as before, whatever the transition consumes and
    -- whether or not the place and the transition exist.
    pub failure_returns_tokens :
        (test : Token D → Bool) (started now : ℕ) (f : ExecutableFlow D)
        → count test (
            tokens_at
              (record_transition_failure now (record_transition_start started f from id) id from)
              from)
          ≡ count test (tokens_at f from)
    unfolding record_transition_start
    failure_returns_tokens test started now f =
        start-failure test started now f (get f.transitions id) (get f.places from) refl refl
