-- ===== src/Flow/Ready.antt =====
-- When a transition may fire.
use teob_ts.Common.{
  ℕ, zero, suc, ◌+◌, ◌-◌, ◌<◌, Option, none, some, true, false, List, [], ◌∷◌, ◌≡◌, refl, sym, ap,
  arith, inl, inr, Bool-cases, All, All-append, all, length, if◌then◌else◌,
}
use teob_ts.Common.Maps.{get, values}
use teob_ts.Call.Retry
use teob_ts.Flow.{Token, PlaceInstance, TransitionInstance, ExecutableFlow}
use teob_ts.Flow.Net.{
  is_ongoing, waits, has_tag, fibonacci, fibonacci_rounds, ready_at, ready, ready_among,
  transitions_ready,
}
use teob_ts.Flow.Tokens.{tokens_of, tokens_at}

rounds-loop : (k a b : ℕ) → fibonacci_rounds k a b ≡ Retry.fibonacci_loop k a b
unfolding fibonacci_rounds Retry.fibonacci_loop
rounds-loop zero a b = refl
rounds-loop (suc k) a b = rounds-loop k b (a + b)

-- The two Fibonacci functions of the program, the flows' and the durable calls', are the same.
pub fibonacci-Retry : (n : ℕ) → fibonacci n ≡ Retry.fibonacci n
unfolding fibonacci Retry.fibonacci
fibonacci-Retry zero = refl
fibonacci-Retry (suc zero) = refl
fibonacci-Retry (suc (suc zero)) = refl
fibonacci-Retry (suc (suc (suc n))) = ground (arith, rounds-loop (suc (suc (suc n)) - 2) 1 1)

module _ {D : Type 0} where
  -- A transition with the tokens that it may consume.
  abbrev pub IsReady : ℕ → ExecutableFlow D → TransitionInstance D × List (Token D) → Type 0
  IsReady now flow r =
      (is_ongoing r.0.state ≡ false)
      × (waits r.0.next_retry_at now ≡ false)
      × (r.1 ≡ tokens_at flow r.0.from)
      × (0 < length r.1)
      × (all (has_tag r.1) r.0.consumes ≡ true)

  module _ (now : ℕ) (flow : ExecutableFlow D) where
    ready_at-IsReady :
        (t : TransitionInstance D) (p : Option (PlaceInstance D))
        → get flow.places t.from ≡ p
        → is_ongoing t.state ≡ false
        → waits t.next_retry_at now ≡ false
        → All (IsReady now flow) (ready_at t p)
    unfolding ready_at
    ready_at-IsReady t none e o w = tt
    ready_at-IsReady t (some p) e o w = go p.tokens refl
      where
        go :
            (l : List (Token D))
            → p.tokens ≡ l
            → All (IsReady now flow) (elim l [
              | [] ↦ []
              | x ∷ xs ↦ if all (has_tag p.tokens) t.consumes then (t, p.tokens) ∷ [] else []
            ])
        go [] q = tt
        go (x ∷ xs) q = elim (Bool-cases (all (has_tag p.tokens) t.consumes)) [
          | inl c ↦ rw c ((o, w, sym (ap tokens_of e), rw q (omega arith), c), tt)
          | inr c ↦ rw c tt
        ]

    ready-IsReady : (t : TransitionInstance D) → All (IsReady now flow) (ready now flow t)
    unfolding ready
    ready-IsReady t = elim (Bool-cases (is_ongoing t.state)) [
      | inl o ↦ rw o tt
      | inr o ↦ rw o (elim (Bool-cases (waits t.next_retry_at now)) [
        | inl w ↦ rw w tt
        | inr w ↦ rw w (ready_at-IsReady t (get flow.places t.from) refl o w)
      ])
    ]

    ready_among-IsReady :
        (ts : List (TransitionInstance D)) → All (IsReady now flow) (ready_among now flow ts)
    unfolding ready_among
    ready_among-IsReady [] = tt
    ready_among-IsReady (t ∷ ts) =
        All-append (IsReady now flow) _ _ (ready-IsReady t) (ready_among-IsReady ts)

    -- A transition is found ready only if it is not under way, its retry is due, its place has
    -- tokens, which are the ones listed, and among them is one of every kind that it consumes.
    pub transitions_ready-IsReady : All (IsReady now flow) (transitions_ready now flow)
    unfolding transitions_ready
    transitions_ready-IsReady = ready_among-IsReady (values flow.transitions)
