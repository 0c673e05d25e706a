-- ===== src/Entity/Durability.antt =====
-- The writes of a runner keep its journal recoverable.
use teob_ts.Common.{
  ℕ, ◌+◌, List, ◌++◌, ◌≡◌, sym, ap, ◌∙◌, inl, inr, arith, foldl, foldl-append, length,
  length-append, take, take_all, take-append, Bool-cases, ◌&&◌, ltb, leb,
}
use teob_ts.Codec.{RoundTrips}
use teob_ts.Journal.{
  Journal, Persisted, LoadedSnapshot, no_snapshot, snapshot_at, snapshot_undecodable, stored_at,
  to_stored, persist_snapshot,
}
use teob_ts.Journal.Append.{Outcome, appended, refused, persist_events-Outcome}
use teob_ts.Journal.Stream.{to_stored-Records, Records-append}
use teob_ts.Journal.Snapshot.{load_snapshot-persist_snapshot, load_snapshot_cong}
use teob_ts.Entity.Types.{Wiring, Runner}
use teob_ts.Entity.Execute.{
  snapshot_interval, envelopes_for, take_snapshot, auto_snapshot, apply_events, publish,
  after_persist, persist_step,
}
use teob_ts.Entity.Induction.{Holds, Keeps}
use teob_ts.Entity.Recovery.{Durable, SnapshotFits, state_after, entity_key}

module _ {C R E S J : Type 0} (g : Wiring C R E S J) where
  SnapshotFits-append :
      (h es : List E) (l : LoadedSnapshot S) → SnapshotFits g h l → SnapshotFits g (h ++ es) l
  SnapshotFits-append h es no_snapshot f = tt
  SnapshotFits-append h es snapshot_undecodable f = tt
  SnapshotFits-append h es (snapshot_at n s) f =
      (omega (arith, f.0, length-append h es), rw (take-append n h es f.0) f.1)

  pub apply_events-Durable :
      (es : List E) (w : Runner C R S J) (r : Persisted × Journal J)
      → Durable g w
      → stored_at r.1 (entity_key g)
        ≡ stored_at w.journal (entity_key g)
          ++ to_stored g.event_codec w.journal.global_seq w.entity.sequence_nr es
              (envelopes_for g w.minted es)
      → r.1.snapshots ≡ w.journal.snapshots
      → Durable g (apply_events g es (w.entity.sequence_nr + length es) r.1 w)
  unfolding apply_events
  apply_events-Durable es w r d stored snaps = record {
    history = d.history ++ es;
    stream = rw stored (
        Records-append g.event_codec 0 w.entity.sequence_nr d.history es _ _
          (omega (arith, d.counted)) d.stream
          (to_stored-Records g.event_codec w.journal.global_seq w.entity.sequence_nr es
            (envelopes_for g w.minted es)));
    counted = omega (arith, d.counted, length-append d.history es);
    current =
        ap (λ s. foldl g.aggregate.apply s es) d.current
        ∙ sym (foldl-append g.aggregate.apply (g.aggregate.initial g.entity_id) d.history es);
    snapshot =
        rw (load_snapshot_cong g.state_codec g.aggregate.category g.entity_id r.1 w.journal snaps)
          (SnapshotFits-append d.history es _ d.snapshot);
  }

  publish-Durable :
      (es : List E) (start minted : ℕ) (w : Runner C R S J)
      → Durable g w
      → Durable g (publish g es start minted w)
  unfolding publish
  publish-Durable es start minted w d = record {
    history = d.history;
    stream = d.stream;
    counted = d.counted;
    current = d.current;
    snapshot = d.snapshot;
  }

  whole : (w : Runner C R S J) (d : Durable g w) → d.history ≡ take w.entity.sequence_nr d.history
  whole w d = rw d.counted (sym (take_all d.history))

  module _ (ok : RoundTrips g.state_codec) where
    take_snapshot-Durable : (w : Runner C R S J) → Durable g w → Durable g (take_snapshot g w)
    unfolding take_snapshot persist_snapshot stored_at
    take_snapshot-Durable w d = record {
      history = d.history;
      stream = d.stream;
      counted = d.counted;
      current = d.current;
      snapshot =
          rw
            (load_snapshot-persist_snapshot g.state_codec g.aggregate.category g.entity_id
              w.entity.state w.entity.sequence_nr w.journal ok)
            (omega (arith, d.counted), d.current ∙ ap (state_after g) (whole w d));
    }

    auto_snapshot-Durable : (w : Runner C R S J) → Durable g w → Durable g (auto_snapshot g w)
    unfolding auto_snapshot
    auto_snapshot-Durable w d =
        let every = snapshot_interval g.aggregate.snapshot_every in
        elim (Bool-cases (ltb 0 every && leb every w.entity.events_since_snapshot)) [
          | inl e ↦ rw e (take_snapshot-Durable w d)
          | inr e ↦ rw e d
        ]

    after_persist-Durable :
        (es : List E) (w : Runner C R S J) (r : Persisted × Journal J)
        → Durable g w
        → Outcome g.event_codec
            (entity_key g)
            w.entity.sequence_nr
            es
            (envelopes_for g w.minted es)
            w.journal
            r
        → Holds (Durable g) (after_persist g es w r)
    unfolding after_persist
    after_persist-Durable es w r d (appended e _ stored _ snaps) = rw e (
        publish-Durable es w.entity.sequence_nr w.minted _
          (auto_snapshot-Durable _ (apply_events-Durable es w r d stored snaps)))
    after_persist-Durable es w r d (refused n e _ _ _) = rw e d

    persist_step-Durable :
        (es : List E) (w : Runner C R S J) → Durable g w → Holds (Durable g) (persist_step g es w)
    unfolding persist_step
    persist_step-Durable es w d = after_persist-Durable es w _ d (
        persist_events-Outcome g.event_codec g.aggregate.category g.entity_id es
          w.entity.sequence_nr (envelopes_for g w.minted es) w.journal)

    pub keeps_Durable : Keeps g (Durable g)
    keeps_Durable = record {
      outer = λ w mailbox timers waiting completions answers clock terminated d. record {
        history = d.history;
        stream = d.stream;
        counted = d.counted;
        current = d.current;
        snapshot = d.snapshot;
      };
      stashed = λ w entries d. record {
        history = d.history;
        stream = d.stream;
        counted = d.counted;
        current = d.current;
        snapshot = d.snapshot;
      };
      persists = persist_step-Durable;
      snapshots = take_snapshot-Durable;
    }
