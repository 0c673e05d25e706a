-- ===== src/Saga/Tail.antt =====
-- `runTailingStatefulSaga` of src/saga/tailing.ts. The tails of the steps run at the same time: what
-- a handler does is one step of the model, which ends its `await`, and any number of other tails may
-- move between the turn of a handler and its end.
use teob_ts.Common.{
  ℕ, zero, suc, String, Option, none, some, List, [], ◌∷◌, ◌≡◌, leb, ltb, ◌==◌, if◌then◌else◌,
}
use teob_ts.Saga.{
  SagaStore, SagaStep, SagaRecord, StatefulSagaDefinition, matches, get_step, set_step, step_offset,
  advance_offset,
}

pub record Tails (E W : Type 0) : Type 0 where
  pub store : SagaStore
  pub world : W
  -- The record whose handler the tail of a step is waiting for.
  pub executing : ℕ → Option (SagaRecord E)

abbrev pub place : {A : Type 0} → ℕ → Option A → (ℕ → Option A) → ℕ → Option A
place index a f k = if k == index then a else f k

abbrev pub step_at : {A : Type 0} → ℕ → List A → Option A
step_at k [] = none
step_at zero (x ∷ xs) = some x
step_at (suc k) (x ∷ xs) = step_at k xs

module _ {E W : Type 0} (tag_of : E → Option String) (print : ℕ → String)
    (saga : StatefulSagaDefinition E W) where
  -- A record at its turn, or when the wait for it elapsed.
  unfoldable pub receive : SagaStep E W → ℕ → SagaRecord E → Tails E W → Tails E W
  unfolding matches get_step step_offset advance_offset
  receive step index (entity_id, n, event) t =
      let current = get_step saga.name entity_id t.store in
      let advanced : Tails E W = record t {
        store = advance_offset tag_of print saga step index (entity_id, n, event) t.store;
      } in
      if leb n (step_offset tag_of print saga step index entity_id t.store)
      then t
      else if matches tag_of step.on event
      then if current == index
        then record t { executing = place index (some (entity_id, n, event)) t.executing }
        else if ltb index current
        then advanced
        else t
      else advanced

  -- The handler of the step ends; a compensation that throws is only reported.
  unfoldable pub finish : SagaStep E W → ℕ → SagaRecord E → Tails E W → Tails E W
  unfolding set_step advance_offset
  finish step index (entity_id, n, event) t =
      let (ok, w) = step.execute event entity_id t.world in
      let advance = advance_offset tag_of print saga step index (entity_id, n, event) in
      record t {
        executing = place index none t.executing;
        world = if ok then w else (saga.compensate index event entity_id w).1;
        store =
            if ok
            then advance (set_step saga.name entity_id (suc index) t.store)
            else advance t.store;
      }

  -- The steps that the handlers took to their end without an exception, the last one first.
  pub data Tailed : Tails E W → List (ℕ × String) → Tails E W → Type 0 where
    start : {t : Tails E W} → Tailed t [] t
    receives :
        {t u : Tails E W} {done : List (ℕ × String)} (index : ℕ) (step : SagaStep E W)
        (x : SagaRecord E)
        → Tailed t done u
        → step_at index saga.steps ≡ some step
        → u.executing index ≡ none
        → Tailed t done (receive step index x u)
    finishes :
        {t u : Tails E W} {done : List (ℕ × String)} (index : ℕ) (step : SagaStep E W)
        (x : SagaRecord E)
        → Tailed t done u
        → step_at index saga.steps ≡ some step
        → u.executing index ≡ some x
        → Tailed t
            (if (step.execute x.2 x.0 u.world).0 then (index, x.0) ∷ done else done)
            (finish step index x u)
