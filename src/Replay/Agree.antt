-- ===== src/Replay/Agree.antt =====
-- The two verifications of a list of events agree where the older one does not throw.
use mathlib.Core.Option
use mathlib.Core.Option.{some_inj}
use teob_ts.Common.{
  ℕ, suc, String, Option, none, some, Bool, true, false, List, [], ◌∷◌, ◌++◌, ◌≡◌, refl, sym, ap,
  ◌∙◌, if◌then◌else◌, map, Option-cases, inl, inr, length,
}
use mathlib.Core.Path.{ap₂}
use teob_ts.Replay.{
  Text, Invariant, Replayed, InvariantViolation, EventViolation, ReplayResult, check_invariants,
  each_found, check_each, and_then, holds, verify_stream_loop, verify_event_stream, replay_loop,
  replay_and_verify,
}

-- What both kinds of violations tell: the invariant and the number of the event.
abbrev pub told : InvariantViolation → String × ℕ
told v = (v.name, v.sequence_nr)

abbrev pub told_event : EventViolation → String × ℕ
told_event v = (v.invariant_name, v.after_event)

none≢result : (r : ReplayResult) → none ≡ some r → ⊥
none≢result r e = cc

none≢some : (r : List EventViolation) → none ≡ some r → ⊥
none≢some r e = cc

told-each :
    (v : EventViolation) (w : InvariantViolation) (o : Option Bool)
    (rest : Option (List EventViolation)) (others : List InvariantViolation)
    (found : List EventViolation)
    → told w ≡ told_event v
    → ((r : List EventViolation) → rest ≡ some r → map told others ≡ map told_event r)
    → each_found v o rest ≡ some found
    → map told (if holds o then others else w ∷ others) ≡ map told_event found
unfolding each_found holds
told-each v w none rest others found same later h = cc
told-each v w (some ok) none others found same later h = cc
told-each v w (some true) (some r) others found same later h =
    later r refl ∙ ap (map told_event) ((some_inj).0 h)
told-each v w (some false) (some r) others found same later h =
    ap₂ (λ x l. x ∷ l) same (later r refl) ∙ ap (map told_event) ((some_inj).0 h)

map-append : {A B : Type 0} (f : A → B) (xs ys : List A) → map f (xs ++ ys) ≡ map f xs ++ map f ys
map-append f [] ys = refl
map-append f (x ∷ xs) ys = ap (λ l. f x ∷ l) (map-append f xs ys)

module _ {S : Type 0} (text : Text S) where
  check_each-told :
      (invariants : List (Invariant S)) (state : S) (n : ℕ) (description id : String)
      (found : List EventViolation)
      → check_each invariants state n description ≡ some found
      → map told (check_invariants text invariants state id n) ≡ map told_event found
  unfolding check_each check_invariants
  check_each-told [] state n description id found h = ap (map told_event) ((some_inj).0 h)
  check_each-told (inv ∷ invariants) state n description id found h =
      told-each
        (record { invariant_name = inv.name; after_event = n; event_description = description }) _
        (inv.check state) (check_each invariants state n description) _ found refl
        (λ r. check_each-told invariants state n description id r) h

module _ {E S : Type 0} (text : Text S) (aggregate : Replayed E S) (invariants : List (Invariant S))
    (json : E → String) where
  replay_loop-told :
      (id : String) (events : List E) (state : S) (n : ℕ) (found : List InvariantViolation)
      (older result : List EventViolation)
      → map told found ≡ map told_event older
      → replay_loop aggregate invariants json events state n older ≡ some result
      → map told (verify_stream_loop text aggregate invariants id events state n found).2
        ≡ map told_event result
  unfolding replay_loop verify_stream_loop
  replay_loop-told id [] state n found older result same h =
      same ∙ ap (map told_event) ((some_inj).0 h)
  replay_loop-told id (event ∷ events) state n found older result same h =
      let state' = aggregate.apply state event in
      let next : List EventViolation → Option (List EventViolation) =
        λ more. replay_loop aggregate invariants json events state' (suc n) (older ++ more) in
      elim (Option-cases (check_each invariants state' (suc n) (json event))) [
        | inl e ↦ absurd (none≢some result (sym (ap (λ o. and_then o next) e) ∙ h))
        | inr (more, e) ↦
            replay_loop-told id events state' (suc n) _ (older ++ more) result
              (map-append told found _
                ∙ ap₂ (λ x y. x ++ y) same
                    (check_each-told text invariants state' (suc n) (json event) id more e)
                ∙ sym (map-append told_event older more))
              (sym (ap (λ o. and_then o next) e) ∙ h)
      ]

  -- Where `replayAndVerify` does not throw, `verifyEventStream` on the same events finds the same
  -- violations: the same invariants after the same events, in the same order.
  pub verify_event_stream-replay_and_verify :
      (id : String) (events : List E) (r : ReplayResult)
      → replay_and_verify aggregate invariants json id events ≡ some r
      → map told (verify_event_stream text aggregate invariants id events).violations
        ≡ map told_event r.violations
  unfolding verify_event_stream replay_and_verify
  verify_event_stream-replay_and_verify id events r h =
      let wrap : List EventViolation → ReplayResult = λ violations. record {
        entity_id = id;
        events_replayed = length events;
        violations = violations;
      } in
      elim (Option-cases
        (replay_loop aggregate invariants json events (aggregate.initial id) 0 [])) [
          | inl e ↦ absurd (none≢result r (sym (ap (Option.map wrap) e) ∙ h))
          | inr (result, e) ↦
              replay_loop-told id events (aggregate.initial id) 0 [] [] result refl e
              ∙ ap (λ x. map told_event x.violations)
                  ((some_inj).0 (sym (ap (Option.map wrap) e) ∙ h))
        ]
