-- ===== src/Replay/Valid.antt =====
-- A verification is valid just where every state of the replay satisfies every invariant.
use mathlib.Core.Bool.{true≢false}
use teob_ts.Common.{
  ℕ, suc, ◌+◌, String, Option, none, some, Bool, true, false, ◌&&◌, List, [], ◌∷◌, ◌++◌, ◌≡◌, refl,
  sym, ap, ◌∙◌, arith, ◌↔◌, All, length, inl, inr, Bool-cases, ==_iff,
}
use teob_ts.Replay.{
  Text, Invariant, Replayed, InvariantViolation, EntityVerification, check_invariants, holds,
  is_none_of, verify_loop, verify_entity, verify_all_loop, verify_all,
}

-- Every check returns true.
abbrev pub AllHold : {S : Type 0} → List (Invariant S) → S → Type 0
AllHold invariants state = All (λ inv. inv.check state ≡ some true) invariants

-- So it does in every state that the events lead through.
abbrev pub AllHoldAlong :
    {E S : Type 0} → Replayed E S → List (Invariant S) → S → List (E × ℕ) → Type 0
AllHoldAlong aggregate invariants state [] = Unit
AllHoldAlong aggregate invariants state ((event, seq) ∷ events) =
    AllHold invariants (aggregate.apply state event)
    × AllHoldAlong aggregate invariants (aggregate.apply state event) events

is_none_of-append :
    (xs ys : List InvariantViolation) → is_none_of (xs ++ ys) ≡ (is_none_of xs && is_none_of ys)
is_none_of-append [] ys = refl
is_none_of-append (x ∷ xs) ys = refl

both_iff : (a b : Bool) → ((a && b) ≡ true) ↔ ((a ≡ true) × (b ≡ true))
both_iff true b = (λ h. (refl, h), λ h. h.1)
both_iff false b = (λ h. absurd (true≢false (sym h)), λ h. h.0)

holds_iff : (o : Option Bool) → (holds o ≡ true) ↔ (o ≡ some true)
unfolding holds
holds_iff none = (λ h. absurd (true≢false (sym h)), λ h. cc)
holds_iff (some b) = (λ h. ap some h, λ h. cc)

module _ {S : Type 0} (text : Text S) where
  pub check_invariants-AllHold :
      (invariants : List (Invariant S)) (state : S) (id : String) (seq : ℕ)
      → (is_none_of (check_invariants text invariants state id seq) ≡ true)
        ↔ AllHold invariants state
  unfolding check_invariants
  check_invariants-AllHold [] state id seq = (λ h. tt, λ h. refl)
  check_invariants-AllHold (inv ∷ invariants) state id seq =
      let later = check_invariants-AllHold invariants state id seq in
      elim (Bool-cases (holds (inv.check state))) [
        | inl e ↦ rw e (λ h. ((holds_iff (inv.check state)).0 e, later.0 h), λ h. later.1 h.1)
        | inr e ↦ rw e (
          λ h. absurd (true≢false (sym h)),
          λ h. absurd (true≢false (sym ((holds_iff (inv.check state)).1 h.0) ∙ e)),
        )
      ]

module _ {E S : Type 0} (text : Text S) (aggregate : Replayed E S)
    (invariants : List (Invariant S)) where
  verify_loop-AllHoldAlong :
      (id : String) (events : List (E × ℕ)) (state : S) (n : ℕ) (found : List InvariantViolation)
      → (is_none_of (verify_loop text aggregate invariants id events state n found).2 ≡ true)
        ↔ ((is_none_of found ≡ true) × AllHoldAlong aggregate invariants state events)
  unfolding verify_loop
  verify_loop-AllHoldAlong id [] state n found = (λ h. (h, tt), λ h. h.0)
  verify_loop-AllHoldAlong id ((event, seq) ∷ events) state n found =
      let state' = aggregate.apply state event in
      let here = check_invariants text invariants state' id seq in
      let step = check_invariants-AllHold text invariants state' id seq in
      let later = verify_loop-AllHoldAlong id events state' (suc n) (found ++ here) in
      let split = both_iff (is_none_of found) (is_none_of here) in
      (
        λ h.
            let (none_yet, along) = later.0 h in
            let (before, now) = split.0 (sym (is_none_of-append found here) ∙ none_yet) in
            (before, (step.0 now, along)),
        λ h. later.1 (is_none_of-append found here ∙ split.1 (h.0, step.1 h.1.0), h.1.1),
      )

  -- The verification of one entity is valid if and only if every invariant holds, and its check does
  -- not throw, after every event.
  pub verify_entity-AllHoldAlong :
      (id : String) (events : List (E × ℕ))
      → ((verify_entity text aggregate invariants id events).is_valid ≡ true)
        ↔ AllHoldAlong aggregate invariants (aggregate.initial id) events
  unfolding verify_entity
  verify_entity-AllHoldAlong id events =
      let loop = verify_loop-AllHoldAlong id events (aggregate.initial id) 0 [] in
      (λ h. (loop.0 h).1, λ h. loop.1 (refl, h))

none_iff : (xs : List InvariantViolation) → (is_none_of xs ≡ true) ↔ (length xs ≡ 0)
none_iff [] = (λ h. refl, λ h. refl)
none_iff (x ∷ xs) = (λ h. absurd (true≢false (sym h)), λ h. absurd (omega arith))

sum_zero : (a b : ℕ) → a + b ≡ 0 → (a ≡ 0) × (b ≡ 0)
sum_zero a b h = (omega arith, omega arith)

module _ {E S : Type 0} (text : Text S) (aggregate : Replayed E S)
    (invariants : List (Invariant S)) where
  -- The replay of an entity, by its id and its events.
  abbrev pub IsClean : String × List (E × ℕ) → Type 0
  IsClean p = AllHoldAlong aggregate invariants (aggregate.initial p.0) p.1

  violations_zero :
      (id : String) (events : List (E × ℕ))
      → ((verify_entity text aggregate invariants id events).is_valid ≡ true)
        ↔ (length (verify_entity text aggregate invariants id events).violations ≡ 0)
  unfolding verify_entity
  violations_zero id events =
      none_iff (verify_loop text aggregate invariants id events (aggregate.initial id) 0 []).2

  verify_all_loop-IsClean :
      (ids : List (String × List (E × ℕ))) (entities : List (EntityVerification S)) (m n : ℕ)
      → ((verify_all_loop text aggregate invariants ids (entities, m, n)).2 ≡ 0)
        ↔ ((n ≡ 0) × All IsClean ids)
  unfolding verify_all_loop
  verify_all_loop-IsClean [] entities m n = (λ h. (h, tt), λ h. h.0)
  verify_all_loop-IsClean ((id, events) ∷ ids) entities m n =
      let v = verify_entity text aggregate invariants id events in
      let later =
        verify_all_loop-IsClean ids (entities ++ v ∷ []) (m + v.events_processed)
          (n + length v.violations) in
      let clean = verify_entity-AllHoldAlong text aggregate invariants id events in
      let counted = violations_zero id events in
      (
        λ h.
            let (sum, rest) = later.0 h in
            let (zero_before, zero_here) = sum_zero n (length v.violations) sum in
            (zero_before, (clean.0 (counted.1 zero_here), rest)),
        λ h. later.1 (omega (arith, h.0, counted.0 (clean.1 h.1.0)), h.1.1),
      )

  -- The report on all entities is valid if and only if for each of them every invariant holds, and its
  -- check does not throw, after every event.
  pub verify_all-IsClean :
      (ids : List (String × List (E × ℕ)))
      → ((verify_all text aggregate invariants ids).is_valid ≡ true) ↔ All IsClean ids
  unfolding verify_all
  verify_all-IsClean ids =
      let loop = verify_all_loop-IsClean ids [] 0 0 in
      let zero = ==_iff (verify_all_loop text aggregate invariants ids ([], 0, 0)).2 0 in
      (λ h. (loop.0 (zero.0 h)).1, λ h. zero.1 (loop.1 (refl, h)))
