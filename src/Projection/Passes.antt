-- ===== src/Projection/Passes.antt =====
-- Passes over the journal: a second pass changes nothing.
use mathlib.Core.Bool.{true≢false}
use teob_ts.Common.{
  ℕ, String, Option, none, some, Bool, true, false, List, [], ◌∷◌, ◌≡◌, refl, sym, ap, ◌∙◌, inl,
  inr, Bool-cases, if_elim, if_true, if_false,
}
use teob_ts.Codec.{Codec}
use teob_ts.Journal.{Journal, all_events}
use teob_ts.Projection.{
  ProjectionStore, ProjectionSource, SingleStreamProjection, MultiStreamProjection,
}
use teob_ts.Projection.Fold.{
  fold_items, items_of, fold_source, run_sources, run_projection, single_source,
  run_multi_stream_projection,
}
use teob_ts.Projection.Offsets.{
  AllForward, AllForward-refl, AllForward-trans, All-IsFolded-later, fold_items-AllForward,
  fold_items-IsFolded, fold_items_folded, fold_items_twice,
}

module _ {E V : Type 0} (p : String) (evolve : V → E → String → Option V) (initial : V) where
  one :
      ProjectionSource E
      → Option (List (String × ℕ × E))
      → ProjectionStore V
      → Bool × ProjectionStore V
  one = fold_source p evolve initial

  one-AllForward :
      (source : ProjectionSource E) (o : Option (List (String × ℕ × E))) (s : ProjectionStore V)
      → AllForward s (one source o s).1
  unfolding one fold_source
  one-AllForward source none s = AllForward-refl s
  one-AllForward source (some events) s =
      fold_items-AllForward p evolve initial (items_of source events) s

  one_twice :
      (source : ProjectionSource E) (o : Option (List (String × ℕ × E))) (s : ProjectionStore V)
      → one source o (one source o s).1 ≡ one source o s
  unfolding one fold_source
  one_twice source none s = refl
  one_twice source (some events) s = fold_items_twice p evolve initial (items_of source events) s

  -- A category that was folded to its end has nothing new for a later store.
  one_later :
      (source : ProjectionSource E) (o : Option (List (String × ℕ × E))) (s t : ProjectionStore V)
      → (one source o s).0 ≡ true
      → AllForward (one source o s).1 t
      → one source o t ≡ (true, t)
  unfolding one fold_source
  one_later source none s t h f = absurd (true≢false (sym h))
  one_later source (some events) s t h f =
      let xs = items_of source events in
      fold_items_folded p evolve initial xs t (
        All-IsFolded-later p evolve initial (fold_items p evolve initial xs s).1 t xs f
          (fold_items-IsFolded p evolve initial xs s h))

  module _ {J : Type 0} (codec : Codec E J) (journal : Journal J) where
    run : List (ProjectionSource E) → ProjectionStore V → Bool × ProjectionStore V
    run sources = run_sources p evolve initial codec sources journal

    head : ProjectionSource E → ProjectionStore V → Bool × ProjectionStore V
    head source = one source (all_events codec source.category journal)

    run-AllForward :
        (sources : List (ProjectionSource E)) (s : ProjectionStore V)
        → AllForward s (run sources s).1
    unfolding run run_sources head one
    run-AllForward [] s = AllForward-refl s
    run-AllForward (source ∷ rest) s =
        let r = head source s in
        let forward = one-AllForward source (all_events codec source.category journal) s in
        if_elim (λ x. AllForward s x.1) r.0 (run rest r.1) (false, r.1)
          (AllForward-trans s r.1 (run rest r.1).1 forward (run-AllForward rest r.1)) forward

    run-head :
        (source : ProjectionSource E) (rest : List (ProjectionSource E)) (s : ProjectionStore V)
        → (head source s).0 ≡ true
        → run (source ∷ rest) s ≡ run rest (head source s).1
    unfolding run run_sources head one
    run-head source rest s e = if_true (head source s).0 _ (false, (head source s).1) e

    run-fail :
        (source : ProjectionSource E) (rest : List (ProjectionSource E)) (s : ProjectionStore V)
        → (head source s).0 ≡ false
        → run (source ∷ rest) s ≡ (false, (head source s).1)
    unfolding run run_sources head one
    run-fail source rest s e =
        if_false (head source s).0 (run rest (head source s).1) (false, (head source s).1) e

    run_twice :
        (sources : List (ProjectionSource E)) (s : ProjectionStore V)
        → run sources (run sources s).1 ≡ run sources s
    unfolding run run_sources head
    run_twice [] s = refl
    run_twice (source ∷ rest) s = elim (Bool-cases (head source s).0) [
      | inl e ↦
          let r = (head source s).1 in
          let t = (run rest r).1 in
          let first = run-head source rest s e in
          let stays : head source t ≡ (true, t) =
            one_later source (all_events codec source.category journal) s t e
              (run-AllForward rest r) in
          ap (λ x. run (source ∷ rest) x.1) first
          ∙ run-head source rest t (ap (λ x. x.0) stays)
          ∙ ap (λ x. run rest x.1) stays
          ∙ run_twice rest r
          ∙ sym first
      | inr e ↦
          let first = run-fail source rest s e in
          let again = one_twice source (all_events codec source.category journal) s in
          ap (λ x. run (source ∷ rest) x.1) first
          ∙ run-fail source rest (head source s).1 (ap (λ x. x.0) again ∙ e)
          ∙ ap (λ x. (false, x.1)) again
          ∙ sym first
    ]

-- A second pass of a projection of one category over the same journal leaves the store as the first
-- left it and ends as the first did: nothing is folded twice, and where the first pass ended in an
-- exception the second one ends at the same event.
pub run_projection_twice :
    {E V J : Type 0} (codec : Codec E J) (p : SingleStreamProjection E V) (journal : Journal J)
    (s : ProjectionStore V)
    → run_projection codec p journal (run_projection codec p journal s).1
      ≡ run_projection codec p journal s
unfolding run_projection one
run_projection_twice codec p journal s =
    one_twice p.projection_id p.evolve p.initial_state (single_source p.category)
      (all_events codec p.category journal) s

-- A second pass of a projection of several categories, whose events may share views, over the same
-- journal leaves the store as the first left it and ends as the first did: nothing is folded twice,
-- and where the first pass ended in an exception the second one ends at the same event.
pub run_multi_stream_projection_twice :
    {E V J : Type 0} (codec : Codec E J) (p : MultiStreamProjection E V) (journal : Journal J)
    (s : ProjectionStore V)
    → run_multi_stream_projection codec p journal (run_multi_stream_projection codec p journal s).1
      ≡ run_multi_stream_projection codec p journal s
unfolding run_multi_stream_projection run
run_multi_stream_projection_twice codec p journal s =
    run_twice p.projection_id p.evolve p.initial_state codec journal p.sources s
