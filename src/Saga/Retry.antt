-- ===== src/Saga/Retry.antt =====
-- A handler that fails on a tail, and what the next record of the entity does to its retry.
use teob_ts.Common.{
  List, if_true, if_false, if◌then◌else◌, ℕ, String, Option, Bool, true, false, [], ◌∷◌, ◌≡◌, refl,
  sym, ap, ◌∙◌, ◌<◌, arith, leb, lt→not-leb, le→leb,
}
use teob_ts.Common.Maps.{or_zero, get-set_self}
use teob_ts.Saga.{
  SagaStore, SagaDefinition, SagaRecord, matches, get_offset, set_offset, saga_event,
  run_tailing_saga,
}

offset_set :
    (name c i : String) (n : ℕ) (s : SagaStore) → get_offset name c i (set_offset name c i n s) ≡ n
unfolding get_offset set_offset or_zero
offset_set name c i n s = rw get-set_self refl

module _ {E W : Type 0} (tag_of : E → Option String) (saga : SagaDefinition E W) (i : String) where
  offset : SagaStore → ℕ
  offset = get_offset saga.name saga.from i

  event_old :
      (n : ℕ) (e : E) (w : W) (s : SagaStore)
      → leb n (offset s) ≡ true
      → saga_event tag_of saga (i, n, e) (w, s) ≡ (true, w, s)
  unfolding saga_event offset
  event_old n e w s h = if_true (leb n (offset s)) (true, w, s) _ h

  event_fails :
      (n : ℕ) (e : E) (w : W) (s : SagaStore)
      → leb n (offset s) ≡ false
      → matches tag_of saga.on e ≡ true
      → (saga.execute e i w).0 ≡ false
      → saga_event tag_of saga (i, n, e) (w, s) ≡ (false, (saga.execute e i w).1, s)
  unfolding saga_event offset
  event_fails n e w s h on fails =
      if_false (leb n (offset s)) (true, w, s) _ h
      ∙ if_true (matches tag_of saga.on e) _ _ on
      ∙ ap
          (λ ok.
            (ok, (saga.execute e i w).1, if ok then set_offset saga.name saga.from i n s else s))
          fails

  event_passes :
      (n : ℕ) (e : E) (w : W) (s : SagaStore)
      → leb n (offset s) ≡ false
      → matches tag_of saga.on e ≡ false
      → saga_event tag_of saga (i, n, e) (w, s) ≡ (true, w, set_offset saga.name saga.from i n s)
  unfolding saga_event offset
  event_passes n e w s h off =
      if_false (leb n (offset s)) (true, w, s) _ h ∙ if_false (matches tag_of saga.on e) _ _ off

  tail_next :
      (x : SagaRecord E) (xs : List (SagaRecord E)) (w v : W) (s t : SagaStore) (ok : Bool)
      → saga_event tag_of saga x (w, s) ≡ (ok, v, t)
      → run_tailing_saga tag_of saga (x ∷ xs) (w, s) ≡ run_tailing_saga tag_of saga xs (v, t)
  unfolding run_tailing_saga
  tail_next x xs w v s t ok h = ap (λ r. run_tailing_saga tag_of saga xs (r.1, r.2)) h

abbrev pub two_records : {E : Type 0} → String → ℕ → E → ℕ → E → List (SagaRecord E)
two_records i n e m e' = (i, n, e) ∷ (i, m, e') ∷ []

-- An event above its entity's offset whose handler throws, and then an event of the entity that the
-- saga does not react to: the handler is called once, and a restart on the same tail calls it for
-- neither and changes nothing, so the failed event is not retried.
pub run_tailing_saga_failed :
    {E W : Type 0} (tag_of : E → Option String) (saga : SagaDefinition E W) (i : String) (n m : ℕ)
    (event other : E) (w : W) (s : SagaStore)
    → get_offset saga.name saga.from i s < n
    → n < m
    → matches tag_of saga.on event ≡ true
    → (saga.execute event i w).0 ≡ false
    → matches tag_of saga.on other ≡ false
    → let tail = two_records i n event m other in
      let after = run_tailing_saga tag_of saga tail (w, s) in
      (after.0 ≡ (saga.execute event i w).1) × (run_tailing_saga tag_of saga tail after ≡ after)
unfolding offset run_tailing_saga
run_tailing_saga_failed tag_of saga i n m event other w s h k on fails off =
    let v = (saga.execute event i w).1 in
    let t = set_offset saga.name saga.from i m s in
    let tail = two_records i n event m other in
    let last = get_offset saga.name saga.from i s in
    let kept = offset_set saga.name saga.from i m s in
    let first : run_tailing_saga tag_of saga tail (w, s) ≡ (v, t) =
      tail_next tag_of saga i (i, n, event) ((i, m, other) ∷ []) w v s s false
        (event_fails tag_of saga i n event w s (lt→not-leb n last h) on fails)
      ∙ tail_next tag_of saga i (i, m, other) [] v v s t true
          (event_passes tag_of saga i m other v s (lt→not-leb m last (omega arith)) off) in
    let again : run_tailing_saga tag_of saga tail (v, t) ≡ (v, t) =
      tail_next tag_of saga i (i, n, event) ((i, m, other) ∷ []) v v t t true
        (event_old tag_of saga i n event v t (le→leb n _ (omega (arith, kept))))
      ∙ tail_next tag_of saga i (i, m, other) [] v v t t true
          (event_old tag_of saga i m other v t (le→leb m _ (omega (arith, kept)))) in
    (ap (λ r. r.0) first, ap (run_tailing_saga tag_of saga tail) first ∙ again ∙ sym first)
