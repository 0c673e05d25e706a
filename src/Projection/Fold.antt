-- ===== src/Projection/Fold.antt =====
-- One pass over the journal, of src/projection/index.ts. A fold whose `evolve` throws, and a journal
-- whose codec throws, end a pass with `false`.
use teob_ts.Common.{
  ℕ, String, Option, none, some, Bool, true, false, List, [], ◌∷◌, map, leb, if◌then◌else◌,
}
use teob_ts.Codec.{Codec}
use teob_ts.Journal.{Journal, all_events}
use teob_ts.Projection.{
  get_view, ProjectionSource, ProjectionStore, clear, get_offset, ViewEnvelope, put_with_offset,
  FoldItem, SingleStreamProjection, MultiStreamProjection,
}

-- `existing?.view ?? opts.initialState()`
abbrev pub current_view : {V : Type 0} → V → Option (ViewEnvelope V) → V
current_view initial none = initial
current_view initial (some e) = e.view

unfoldable pub items_of :
    {E : Type 0} → ProjectionSource E → List (String × ℕ × E) → List (FoldItem E)
items_of source = map (λ r. record {
  category = source.category;
  entity_id = r.0;
  sequence_nr = r.1;
  view_id = source.get_view_id r.2 r.0;
  event = r.2;
})

-- What `offsetGuardedFold` did; `threw` where `evolve` throws.
pub data Folded : Type 0 where
  applied : Folded
  already : Folded
  threw : Folded

module _ {E V : Type 0} (projection_id : String) where
  -- The write of what `evolve` returned.
  unfoldable pub write_evolved :
      FoldItem E → ProjectionStore V → Option V → Folded × ProjectionStore V
  unfolding put_with_offset
  write_evolved x s none = (threw, s)
  write_evolved x s (some view) = (
    applied,
    put_with_offset projection_id x.view_id
        (record { view_id = x.view_id; view = view; sequence_nr = x.sequence_nr }) x.category
        x.entity_id s,
  )

module _ {E V : Type 0} (projection_id : String) (evolve : V → E → String → Option V)
    (initial : V) where
  unfoldable pub offset_guarded_fold : FoldItem E → ProjectionStore V → Folded × ProjectionStore V
  unfolding get_offset get_view write_evolved
  offset_guarded_fold x s =
      if leb x.sequence_nr (get_offset projection_id x.category x.entity_id s)
      then (already, s)
      else write_evolved projection_id x s
          (evolve (current_view initial (get_view projection_id x.view_id s)) x.event x.entity_id)

  -- The loop over the events; `false` where it ended in an exception.
  unfoldable pub fold_items : List (FoldItem E) → ProjectionStore V → Bool × ProjectionStore V
  unfolding offset_guarded_fold
  fold_items [] s = (true, s)
  fold_items (x ∷ xs) s =
      let (folded, s') = offset_guarded_fold x s in
      let rest = fold_items xs s' in elim folded [ threw ↦ (false, s') | _ ↦ rest ]

  -- The loops of `runTailingProjection`, over the events of all tails in the order in which they
  -- come: a fold is synchronous, and an exception is only reported.
  unfoldable pub tail_items : List (FoldItem E) → ProjectionStore V → ProjectionStore V
  unfolding offset_guarded_fold
  tail_items [] s = s
  tail_items (x ∷ xs) s = let (folded, s') = offset_guarded_fold x s in tail_items xs s'

  -- The fold of one category; `none` where `allEvents` throws.
  unfoldable pub fold_source :
      ProjectionSource E
      → Option (List (String × ℕ × E))
      → ProjectionStore V
      → Bool × ProjectionStore V
  unfolding fold_items items_of
  fold_source source none s = (false, s)
  fold_source source (some events) s = fold_items (items_of source events) s

  unfoldable pub run_sources :
      {J : Type 0}
      → Codec E J
      → List (ProjectionSource E)
      → Journal J
      → ProjectionStore V
      → Bool × ProjectionStore V
  unfolding fold_source
  run_sources codec [] journal s = (true, s)
  run_sources codec (source ∷ rest) journal s =
      let (ok, s') = fold_source source (all_events codec source.category journal) s in
      let after = run_sources codec rest journal s' in if ok then after else (false, s')

-- The view of an entity has the entity's id.
abbrev pub single_source : {E : Type 0} → String → ProjectionSource E
single_source category = record { category = category; get_view_id = λ event entity_id. entity_id }

module _ {E V J : Type 0} (codec : Codec E J) where
  unfoldable pub run_projection :
      SingleStreamProjection E V → Journal J → ProjectionStore V → Bool × ProjectionStore V
  unfolding fold_source
  run_projection p journal =
      fold_source p.projection_id p.evolve p.initial_state (single_source p.category)
        (all_events codec p.category journal)

  unfoldable pub run_multi_stream_projection :
      MultiStreamProjection E V → Journal J → ProjectionStore V → Bool × ProjectionStore V
  unfolding run_sources
  run_multi_stream_projection p =
      run_sources p.projection_id p.evolve p.initial_state codec p.sources

  unfoldable pub rebuild_projection :
      SingleStreamProjection E V → Journal J → ProjectionStore V → Bool × ProjectionStore V
  unfolding run_projection clear
  rebuild_projection p journal s = run_projection p journal (clear p.projection_id s)

  unfoldable pub rebuild_multi_stream_projection :
      MultiStreamProjection E V → Journal J → ProjectionStore V → Bool × ProjectionStore V
  unfolding run_multi_stream_projection clear
  rebuild_multi_stream_projection p journal s =
      run_multi_stream_projection p journal (clear p.projection_id s)
