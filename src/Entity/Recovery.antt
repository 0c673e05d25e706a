-- ===== src/Entity/Recovery.antt =====
-- Recovery from the journal: whatever a runner does, and wherever it crashes, a fresh incarnation
-- recovers exactly the state that the runner had.
use teob_ts.Common.{
  ℕ, suc, ◌+◌, ◌≤◌, String, Option, some, List, [], ◌∷◌, ◌≡◌, refl, sym, ap, ◌∙◌, inl, inr, arith,
  foldl, foldl-append, length, take, drop, take-append-drop, length-drop, Bool-cases,
}
use teob_ts.Codec.{RoundTrips}
use teob_ts.Journal.{
  LoadedSnapshot, no_snapshot, snapshot_at, snapshot_undecodable, persistence_key, stored_at,
  load_snapshot,
}
use teob_ts.Journal.Append.{numbered}
use teob_ts.Journal.Stream.{Records, load_events-Records}
use teob_ts.Entity.Types.{Wiring, EntityState, Runner}
use teob_ts.Entity.Loop.{replay, recover, recover_from, recovery_start, start_from}

-- Replaying numbered events folds them into the state.
replay-numbered :
    {E S : Type 0} (f : S → E → S) (s : S) (n : ℕ) (es : List E)
    → replay f s n (numbered n es) ≡ (foldl f s es, n + length es)
unfolding replay
replay-numbered f s n [] = ap (λ m. (s, m)) (omega arith)
replay-numbered f s n (e ∷ es) =
    replay-numbered f (f s e) (suc n) es ∙ ap (λ m. (foldl f (f s e) es, m)) (omega arith)

module _ {C R E S J : Type 0} (g : Wiring C R E S J) where
  -- The state after a history of events.
  abbrev pub state_after : List E → S
  state_after history = foldl g.aggregate.apply (g.aggregate.initial g.entity_id) history

  abbrev pub entity_key : String
  entity_key = persistence_key g.aggregate.category g.entity_id

  -- A readable snapshot is the state after a beginning of the history.
  abbrev pub SnapshotFits : List E → LoadedSnapshot S → Type 0
  SnapshotFits history no_snapshot = Unit
  SnapshotFits history snapshot_undecodable = Unit
  SnapshotFits history (snapshot_at n s) = (n ≤ length history) × (s ≡ state_after (take n history))

  -- The journal holds the history that has led to this state.
  pub record Durable (w : Runner C R S J) : Type 0 where
    pub history : List E
    pub stream : Records g.event_codec 0 history (stored_at w.journal entity_key)
    pub counted : w.entity.sequence_nr ≡ length history
    pub current : w.entity.state ≡ state_after history
    pub snapshot :
        SnapshotFits history
          (load_snapshot g.state_codec g.aggregate.category g.entity_id w.journal)

  replay-rest :
      (history : List E) (k : ℕ) (s : S)
      → k ≤ length history
      → s ≡ state_after (take k history)
      → replay g.aggregate.apply s k (numbered k (drop k history))
        ≡ (state_after history, length history)
  replay-rest history k s h e =
      rw (replay-numbered, e, ← foldl-append)
        (rw (take-append-drop k history, length-drop k history h))

  start_from-fits :
      (history : List E) (l : LoadedSnapshot S)
      → SnapshotFits history l
      → ((start_from g l).1 ≤ length history)
        × ((start_from g l).0 ≡ state_after (take (start_from g l).1 history))
  unfolding start_from
  start_from-fits history no_snapshot h = (omega arith, refl)
  start_from-fits history snapshot_undecodable h = (omega arith, refl)
  start_from-fits history (snapshot_at n s) h = h

  recovery_start-fits :
      (w : Runner C R S J) (d : Durable w)
      → ((recovery_start g w.journal).1 ≤ length d.history)
        × ((recovery_start g w.journal).0
            ≡ state_after (take (recovery_start g w.journal).1 d.history))
  unfolding recovery_start
  recovery_start-fits w d = elim (Bool-cases g.ignore_snapshots_on_recovery) [
    | inl e ↦ rw e (omega arith, refl)
    | inr e ↦ rw e (start_from-fits d.history _ d.snapshot)
  ]

  entity_at : Runner C R S J → S × ℕ → Option (EntityState C S)
  entity_at w (s, n) =
      some (record { state = s; sequence_nr = n; stashed = []; events_since_snapshot = 0 })

  -- The state that a recovery builds.
  abbrev pub recovered : Runner C R S J → EntityState C S
  recovered w = record {
    state = w.entity.state;
    sequence_nr = w.entity.sequence_nr;
    stashed = [];
    events_since_snapshot = 0;
  }

  module _ (ok : RoundTrips g.event_codec) where
    -- From a journal that holds the history of a runner, with or without snapshots, readable or not,
    -- a fresh incarnation recovers the state and the number that the runner has.
    pub recover-Durable :
        (w : Runner C R S J) → Durable w → recover g w.journal ≡ some (recovered w)
    unfolding recover entity_at
    recover-Durable w d =
        let fits = recovery_start-fits w d in
        let start = recovery_start g w.journal in
        let loaded =
          load_events-Records g.event_codec ok g.aggregate.category g.entity_id start.1 d.history
            w.journal d.stream fits.0 in
        ap (recover_from g start) loaded
        ∙ ap (entity_at w) (replay-rest d.history start.1 start.0 fits.0 fits.1)
        ∙ λ i. entity_at w (sym d.current i, sym d.counted i)
