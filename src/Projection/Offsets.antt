-- ===== src/Projection/Offsets.antt =====
-- What folds do to the offsets: they only move forward, and what was folded is not folded again.
use mathlib.Core.Path.{subst}
use mathlib.Core.Bool.{true≢false}
use teob_ts.Common.{
  String, Option, none, some, Bool, true, false, List, [], ◌∷◌, ◌≡◌, refl, sym, ap, ◌∙◌, ◌≤◌, arith,
  leb, leb→le, le→leb, if_false, ◌⊎◌, inl, inr, Bool-cases, Option-cases, All,
}
use teob_ts.Common.Maps.{or_zero, set-forward, get, get-set_self}
use teob_ts.Projection.{
  ProjectionStore, FoldItem, ViewEnvelope, offset_key, get_offset, put_with_offset, set_offset,
  get_view,
}
use teob_ts.Projection.Fold.{
  tail_items, write_evolved, offset_guarded_fold, fold_items, Folded, applied, already, threw,
  current_view,
}

module _ {V : Type 0} where
  -- Every offset of the second store is as high as in the first.
  unfoldable pub AllForward : ProjectionStore V → ProjectionStore V → Type 0
  AllForward s t = (key : String) → or_zero (get s.offsets key) ≤ or_zero (get t.offsets key)

  pub AllForward-refl : (s : ProjectionStore V) → AllForward s s
  unfolding AllForward
  AllForward-refl s key = omega arith

  pub AllForward-trans :
      (s t u : ProjectionStore V) → AllForward s t → AllForward t u → AllForward s u
  unfolding AllForward
  AllForward-trans s t u f g key = omega (arith, f key, g key)

  put_with_offset-AllForward :
      (p v : String) (e : ViewEnvelope V) (c i : String) (s : ProjectionStore V)
      → AllForward s (put_with_offset p v e c i s)
  unfolding AllForward put_with_offset set_offset get_offset
  put_with_offset-AllForward p v e c i s key =
      elim (Bool-cases (leb e.sequence_nr (get_offset p c i s))) [
        | inl h ↦ rw h (omega arith)
        | inr h ↦ rw h (set-forward s.offsets (offset_key p c i) key e.sequence_nr (ground arith))
      ]

  offset_put_with_offset :
      (p v : String) (e : ViewEnvelope V) (c i : String) (s : ProjectionStore V)
      → leb e.sequence_nr (get_offset p c i s) ≡ false
      → get_offset p c i (put_with_offset p v e c i s) ≡ e.sequence_nr
  unfolding put_with_offset set_offset get_offset or_zero
  offset_put_with_offset p v e c i s h = rw h (rw get-set_self refl)

module _ {E V : Type 0} (p : String) (evolve : V → E → String → Option V) (initial : V) where
  -- The event is at or below its entity's offset.
  unfoldable pub IsFolded : ProjectionStore V → FoldItem E → Type 0
  IsFolded s x = x.sequence_nr ≤ get_offset p x.category x.entity_id s

  pub IsFolded-later :
      (s t : ProjectionStore V) (x : FoldItem E) → AllForward s t → IsFolded s x → IsFolded t x
  unfolding AllForward IsFolded get_offset
  IsFolded-later s t x f h = omega (arith, f (offset_key p x.category x.entity_id), h)

  pub All-IsFolded-later :
      (s t : ProjectionStore V) (xs : List (FoldItem E))
      → AllForward s t
      → All (IsFolded s) xs
      → All (IsFolded t) xs
  All-IsFolded-later s t [] f h = tt
  All-IsFolded-later s t (x ∷ xs) f h =
      (IsFolded-later s t x f h.0, All-IsFolded-later s t xs f h.1)

  abbrev pub fold : FoldItem E → ProjectionStore V → Folded × ProjectionStore V
  fold = offset_guarded_fold p evolve initial

  fold_already : (x : FoldItem E) (s : ProjectionStore V) → IsFolded s x → fold x s ≡ (already, s)
  unfolding offset_guarded_fold IsFolded
  fold_already x s h = rw (le→leb x.sequence_nr (get_offset p x.category x.entity_id s) h) refl

  -- The cases of a fold: it throws, or it leaves its event folded.
  Cases : FoldItem E → ProjectionStore V → Type 0
  Cases x s =
      (fold x s ≡ (threw, s))
      ⊎ ((t : ProjectionStore V) × ((fold x s ≡ (already, t)) ⊎ (fold x s ≡ (applied, t)))
          × IsFolded t x
          × AllForward s t)

  fold_new :
      (x : FoldItem E) (s : ProjectionStore V) (o : Option V)
      → leb x.sequence_nr (get_offset p x.category x.entity_id s) ≡ false
      → evolve (current_view initial (get_view p x.view_id s)) x.event x.entity_id ≡ o
      → fold x s ≡ write_evolved p x s o
  unfolding offset_guarded_fold
  fold_new x s o h e =
      if_false _ (already, s) (write_evolved p x s _) h ∙ ap (write_evolved p x s) e

  fold-Cases : (x : FoldItem E) (s : ProjectionStore V) → Cases x s
  unfolding Cases IsFolded write_evolved
  fold-Cases x s = elim (Bool-cases (leb x.sequence_nr (get_offset p x.category x.entity_id s))) [
    | inl h ↦ inr (s, inl (fold_already x s (leb→le _ _ h)), leb→le _ _ h, AllForward-refl s)
    | inr h ↦
        elim (Option-cases
          (evolve (current_view initial (get_view p x.view_id s)) x.event x.entity_id)) [
            | inl e ↦ inl (fold_new x s none h e)
            | inr (view, e) ↦
                let envelope : ViewEnvelope V = record {
                  view_id = x.view_id;
                  view = view;
                  sequence_nr = x.sequence_nr;
                } in
                inr (
                  put_with_offset p x.view_id envelope x.category x.entity_id s,
                  inr (fold_new x s (some view) h e),
                  omega (
                    arith,
                    offset_put_with_offset p x.view_id envelope x.category x.entity_id s h,
                  ),
                  put_with_offset-AllForward p x.view_id envelope x.category x.entity_id s,
                )
          ]
  ]

  -- The loop after a fold.
  continue : List (FoldItem E) → Folded × ProjectionStore V → Bool × ProjectionStore V
  continue xs r = elim r.0 [ threw ↦ (false, r.1) | _ ↦ fold_items p evolve initial xs r.1 ]

  -- A fold that does not throw hands its store to the rest of the loop.
  pub fold_items-cons :
      (x : FoldItem E) (xs : List (FoldItem E)) (s t : ProjectionStore V)
      → (fold x s ≡ (already, t)) ⊎ (fold x s ≡ (applied, t))
      → fold_items p evolve initial (x ∷ xs) s ≡ fold_items p evolve initial xs t
  unfolding fold_items continue
  fold_items-cons x xs s t (inl e) = ap (continue xs) e
  fold_items-cons x xs s t (inr e) = ap (continue xs) e

  fold_items-threw :
      (x : FoldItem E) (xs : List (FoldItem E)) (s : ProjectionStore V)
      → fold x s ≡ (threw, s)
      → fold_items p evolve initial (x ∷ xs) s ≡ (false, s)
  unfolding fold_items continue
  fold_items-threw x xs s e = ap (continue xs) e

  pub fold_items-AllForward :
      (xs : List (FoldItem E)) (s : ProjectionStore V)
      → AllForward s (fold_items p evolve initial xs s).1
  unfolding Cases fold_items
  fold_items-AllForward [] s = AllForward-refl s
  fold_items-AllForward (x ∷ xs) s = elim (fold-Cases x s) [
    | inl e ↦ subst (λ r. AllForward s r.1) (sym (fold_items-threw x xs s e)) (AllForward-refl s)
    | inr (t, e, done, forward) ↦
        subst (λ r. AllForward s r.1) (sym (fold_items-cons x xs s t e))
          (AllForward-trans s t _ forward (fold_items-AllForward xs t))
  ]

  -- A loop that does not throw leaves all its events folded.
  pub fold_items-IsFolded :
      (xs : List (FoldItem E)) (s : ProjectionStore V)
      → (fold_items p evolve initial xs s).0 ≡ true
      → All (IsFolded (fold_items p evolve initial xs s).1) xs
  unfolding Cases
  fold_items-IsFolded [] s h = tt
  fold_items-IsFolded (x ∷ xs) s h = elim (fold-Cases x s) [
    | inl e ↦ absurd (true≢false (sym h ∙ ap (λ r. r.0) (fold_items-threw x xs s e)))
    | inr (t, e, done, forward) ↦
        let same = fold_items-cons x xs s t e in
        subst (λ r. All (IsFolded r.1) (x ∷ xs)) (sym same)
          (
            IsFolded-later t _ x (fold_items-AllForward xs t) done,
            fold_items-IsFolded xs t (sym (ap (λ r. r.0) same) ∙ h),
          )
  ]

  pub fold_items_folded :
      (xs : List (FoldItem E)) (s : ProjectionStore V)
      → All (IsFolded s) xs
      → fold_items p evolve initial xs s ≡ (true, s)
  unfolding fold_items
  fold_items_folded [] s h = refl
  fold_items_folded (x ∷ xs) s h =
      fold_items-cons x xs s s (inl (fold_already x s h.0)) ∙ fold_items_folded xs s h.1

  pub fold_items_twice :
      (xs : List (FoldItem E)) (s : ProjectionStore V)
      → fold_items p evolve initial xs (fold_items p evolve initial xs s).1
        ≡ fold_items p evolve initial xs s
  unfolding Cases fold_items
  fold_items_twice [] s = refl
  fold_items_twice (x ∷ xs) s = elim (fold-Cases x s) [
    | inl e ↦
        let same = fold_items-threw x xs s e in
        ap (λ r. fold_items p evolve initial (x ∷ xs) r.1) same
    | inr (t, e, done, forward) ↦
        let same = fold_items-cons x xs s t e in
        let r = (fold_items p evolve initial xs t).1 in
        ap (λ r. fold_items p evolve initial (x ∷ xs) r.1) same
        ∙ fold_items-cons x xs r r
            (inl (fold_already x r (IsFolded-later t r x (fold_items-AllForward xs t) done)))
        ∙ fold_items_twice xs t
        ∙ sym same
  ]

  stored :
      (x : FoldItem E) (s t : ProjectionStore V)
      → (fold x s ≡ (already, t)) ⊎ (fold x s ≡ (applied, t))
      → (fold x s).1 ≡ t
  stored x s t (inl e) = ap (λ r. r.1) e
  stored x s t (inr e) = ap (λ r. r.1) e

  -- A loop that does not throw leaves what the tails leave on the same events.
  pub fold_items-tail_items :
      (xs : List (FoldItem E)) (s : ProjectionStore V)
      → (fold_items p evolve initial xs s).0 ≡ true
      → (fold_items p evolve initial xs s).1 ≡ tail_items p evolve initial xs s
  unfolding Cases fold_items tail_items
  fold_items-tail_items [] s h = refl
  fold_items-tail_items (x ∷ xs) s h = elim (fold-Cases x s) [
    | inl e ↦ absurd (true≢false (sym h ∙ ap (λ r. r.0) (fold_items-threw x xs s e)))
    | inr (t, e, done, forward) ↦
        let same = fold_items-cons x xs s t e in
        ap (λ r. r.1) same
        ∙ fold_items-tail_items xs t (sym (ap (λ r. r.0) same) ∙ h)
        ∙ ap (tail_items p evolve initial xs) (sym (stored x s t e))
  ]
