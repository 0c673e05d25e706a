-- ===== src/Flow/Retries.antt =====
-- How often a failed transition is tried again.
use mathlib.Core.Option
use mathlib.Core.Path.{subst}
use teob_ts.Common.{
  ℕ, ◌+◌, String, some, List, [], ◌∷◌, ◌≡◌, refl, sym, ap, ◌∙◌, arith, inl, inr, Bool-cases,
  Option-cases, leb, length, if◌then◌else◌,
}
use teob_ts.Common.Maps.{get}
use teob_ts.Flow.{
  PlaceInstance, TransitionInstance, TransitionState, not_started, failed, ExecutableFlow,
}
use teob_ts.Flow.Net.{
  start_with, fail_with, update_place, update_transition, tick, schedule_retry,
  record_transition_start, record_transition_failure,
}
use teob_ts.Flow.Tokens.{
  returned, give_back, get-start, get-update_transition, started_transition,
  transitions-update_place, places-update_transition, get-update_place,
}

-- Tried again as long as the limit is not passed.
abbrev pub outcome : ℕ → ℕ → TransitionState
outcome most n = if leb n most then not_started else failed

outcome_zero : (most : ℕ) → not_started ≡ outcome most 0
outcome_zero most = ground arith

module _ {D : Type 0} where
  limit-update_place :
      (f : ExecutableFlow D) (k : String) (fn : PlaceInstance D → PlaceInstance D)
      → (update_place f k fn).max_transition_retries ≡ f.max_transition_retries
  unfolding update_place
  limit-update_place f k fn = elim (Option-cases (get f.places k)) [
    | inl e ↦ rw (e, update_place) refl
    | inr (p, e) ↦ rw (e, update_place) refl
  ]

  limit-update_transition :
      (f : ExecutableFlow D) (k : String) (fn : TransitionInstance D → TransitionInstance D)
      → (update_transition f k fn).max_transition_retries ≡ f.max_transition_retries
  unfolding update_transition
  limit-update_transition f k fn = elim (Option-cases (get f.transitions k)) [
    | inl e ↦ rw (e, update_transition) refl
    | inr (t, e) ↦ rw (e, update_transition) refl
  ]

  schedule_retry-outcome :
      (now n : ℕ) (g : ExecutableFlow D) (t : TransitionInstance D)
      → ((schedule_retry now g n t).retry_attempts ≡ n)
        × ((schedule_retry now g n t).state ≡ outcome g.max_transition_retries n)
  unfolding schedule_retry
  schedule_retry-outcome now n g t = elim (Bool-cases (leb n g.max_transition_retries)) [
    | inl e ↦ rw e (refl, refl)
    | inr e ↦ rw e (refl, refl)
  ]

-- The failures that a transition has counted, and its state.
abbrev pub report : {D : Type 0} → TransitionInstance D → ℕ × TransitionState
report t = (t.retry_attempts, t.state)

module _ {D : Type 0} (from id : String) where
  -- The transition starts and fails, at each of these pairs of times.
  unfoldable pub try_at : ExecutableFlow D → List (ℕ × ℕ) → ExecutableFlow D
  try_at f [] = f
  try_at f ((started, now) ∷ times) =
      try_at (record_transition_failure now (record_transition_start started f from id) id from)
        times

  -- The transition has failed `n` times in a row.
  record Tried (most n : ℕ) (f : ExecutableFlow D) : Type 0 where
    transition : TransitionInstance D
    place : PlaceInstance D
    stored : get f.transitions id ≡ some transition
    placed : get f.places from ≡ some place
    attempts : transition.retry_attempts ≡ n
    state : transition.state ≡ outcome most n
    limit : f.max_transition_retries ≡ most

  fail_with-Tried :
      (most n now : ℕ) (g : ExecutableFlow D) (t : TransitionInstance D) (p : PlaceInstance D)
      → get g.transitions id ≡ some t
      → get g.places from ≡ some p
      → t.retry_attempts ≡ n
      → g.max_transition_retries ≡ most
      → Tried most (n + 1) (fail_with now g id from (some t))
  unfolding fail_with tick returned
  fail_with-Tried most n now g t p gt gp a l =
      let next = schedule_retry now g (t.retry_attempts + 1) in
      let (attempts, state) = schedule_retry-outcome now (t.retry_attempts + 1) g t in
      record {
        transition = next t;
        place = give_back from id t p;
        stored =
            get-update_transition (returned from id g t) id next
            ∙ ap (λ m. Option.map next (get m id))
                (transitions-update_place g from (give_back from id t))
            ∙ ap (Option.map next) gt;
        placed =
            ap (λ m. get m from) (places-update_transition (returned from id g t) id next)
            ∙ get-update_place g from (give_back from id t)
            ∙ ap (Option.map (give_back from id t)) gp;
        attempts = attempts ∙ ap (λ m. m + 1) a;
        state =
            state ∙ ap (λ m. outcome m (t.retry_attempts + 1)) l ∙ ap (λ m. outcome most (m + 1)) a;
        limit =
            limit-update_transition (returned from id g t) id next
            ∙ limit-update_place g from (give_back from id t)
            ∙ l;
      }

  limit-start :
      (now : ℕ) (f : ExecutableFlow D) (t : TransitionInstance D) (p : PlaceInstance D)
      → (start_with now f from id (some t) (some p)).max_transition_retries
        ≡ f.max_transition_retries
  unfolding start_with tick
  limit-start now f t p = limit-update_transition _ id _ ∙ limit-update_place f from _

  round-Tried :
      (most n started now : ℕ) (f : ExecutableFlow D)
      → Tried most n f
      → Tried most
          (n + 1)
          (record_transition_failure now (record_transition_start started f from id) id from)
  unfolding record_transition_start record_transition_failure started_transition
  round-Tried most n started now f h =
      let g = start_with started f from id (some h.transition) (some h.place) in
      let (gt, gp) = get-start from id started f h.transition h.place h.stored h.placed in
      let is_g : record_transition_start started f from id ≡ g =
        ap (λ o. start_with started f from id o (get f.places from)) h.stored
        ∙ ap (λ o. start_with started f from id (some h.transition) o) h.placed in
      subst (λ k. Tried most (n + 1) (record_transition_failure now k id from)) (sym is_g)
        (subst (λ o. Tried most (n + 1) (fail_with now g id from o)) (sym gt)
          (fail_with-Tried most n now g _ _ gt gp h.attempts
            (limit-start started f h.transition h.place ∙ h.limit)))

  try_at-Tried :
      (most n : ℕ) (times : List (ℕ × ℕ)) (f : ExecutableFlow D)
      → Tried most n f
      → Tried most (n + length times) (try_at f times)
  unfolding try_at
  try_at-Tried most n [] f h = subst (λ m. Tried most m f) (omega arith) h
  try_at-Tried most n ((started, now) ∷ times) f h =
      subst
        (λ m. Tried most m (
          try_at (record_transition_failure now (record_transition_start started f from id) id from)
            times))
        (omega arith) (try_at-Tried most (n + 1) times _ (round-Tried most n started now f h))

  Tried-report :
      (most n : ℕ) (f : ExecutableFlow D)
      → Tried most n f
      → Option.map report (get f.transitions id) ≡ some (n, outcome most n)
  Tried-report most n f h = ap (Option.map report) h.stored ∙ λ i. some (h.attempts i, h.state i)

  -- A transition that is stored with its place and has not been tried yet, and then starts and
  -- fails n times in a row, whenever that happens: n attempts are counted, and it is NotStarted,
  -- to be tried again, as long as n is at most `maxTransitionRetries`, and Failed once n is more.
  pub try_at-outcome :
      (times : List (ℕ × ℕ)) (f : ExecutableFlow D) (t : TransitionInstance D) (p : PlaceInstance D)
      → get f.transitions id ≡ some t
      → get f.places from ≡ some p
      → t.retry_attempts ≡ 0
      → t.state ≡ not_started
      → Option.map report (get (try_at f times).transitions id)
        ≡ some (
          length times,
          if leb (length times) f.max_transition_retries then not_started else failed,
        )
  try_at-outcome times f t p et ep a st =
      let first : Tried f.max_transition_retries 0 f = record {
        transition = t;
        place = p;
        stored = et;
        placed = ep;
        attempts = a;
        state = st ∙ outcome_zero f.max_transition_retries;
        limit = refl;
      } in
      let counted : 0 + length times ≡ length times = omega arith in
      Tried-report f.max_transition_retries (length times) (try_at f times) (
        subst (λ n. Tried f.max_transition_retries n (try_at f times)) counted
          (try_at-Tried f.max_transition_retries 0 times f first))
