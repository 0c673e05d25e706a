-- ===== src/Entity/Recent.antt =====
-- That a runner's count of events since its last snapshot covers what its journal holds.
use teob_ts.Common.Maps.{get, get-set_self}
use teob_ts.Common.{
  ◌⊎◌, ◌+◌, ◌≤◌, Option, none, ap, sym, ◌∙◌, if_elim, length, length-append, ◌++◌, ℕ, some, List,
  ◌≡◌, arith, ltb, leb, ◌&&◌, inl, inr,
}
use teob_ts.Journal.{Journal, Persisted, StoredSnapshot, stored_at, to_stored, persist_snapshot}
use teob_ts.Journal.Append.{Outcome, appended, refused, persist_events-Outcome, length-to_stored}
use teob_ts.Journal.Stream.{length-Records}
use teob_ts.Entity.Types.{Wiring, Runner}
use teob_ts.Entity.Execute.{
  snapshot_interval, envelopes_for, take_snapshot, auto_snapshot, apply_events, publish,
  after_persist, persist_step,
}
use teob_ts.Entity.Induction.{Holds}
use teob_ts.Entity.Recovery.{Durable, entity_key}
use teob_ts.Entity.Durability.{apply_events-Durable}
use teob_ts.Entity.Reach.{stored_count}

module _ {C R E S J : Type 0} (g : Wiring C R E S J) where
  -- The number of the snapshot that is stored for the entity.
  unfoldable pub number_of : Option (StoredSnapshot J) → ℕ
  number_of none = 0
  number_of (some snapshot) = snapshot.sequence_nr

  abbrev pub snapshot_number : Runner C R S J → ℕ
  unfolding number_of
  snapshot_number w = number_of (get w.journal.snapshots (entity_key g))

  -- The count of events since the last snapshot covers what is stored behind the start of the
  -- incarnation, or behind the stored snapshot.
  unfoldable pub Recent : ℕ → Runner C R S J → Type 0
  unfolding number_of
  Recent n w =
      (stored_count g w ≤ n + w.entity.events_since_snapshot)
      ⊎ (stored_count g w ≤ snapshot_number w + w.entity.events_since_snapshot)

  stored_count-Durable :
      (w : Runner C R S J) → Durable g w → stored_count g w ≡ w.entity.sequence_nr
  stored_count-Durable w d = length-Records g.event_codec 0 d.history _ d.stream ∙ sym d.counted

  pub take_snapshot-Recent :
      (n : ℕ) (w : Runner C R S J) → Durable g w → Recent n (take_snapshot g w)
  unfolding take_snapshot persist_snapshot Recent number_of stored_at
  take_snapshot-Recent n w d =
      let written = ap number_of (
        get-set_self w.journal.snapshots (entity_key g) (record {
          sequence_nr = w.entity.sequence_nr;
          manifest = g.state_codec.manifest w.entity.state;
          payload = g.state_codec.encode w.entity.state;
        })) in
      inr (omega (arith, stored_count-Durable w d, written))

  auto_snapshot-Recent :
      (n : ℕ) (w : Runner C R S J) → Durable g w → Recent n w → Recent n (auto_snapshot g w)
  unfolding auto_snapshot
  auto_snapshot-Recent n w d h =
      if_elim (Recent n)
        (ltb 0 (snapshot_interval g.aggregate.snapshot_every)
          && leb (snapshot_interval g.aggregate.snapshot_every) w.entity.events_since_snapshot)
        (take_snapshot g w) w (take_snapshot-Recent n w d) h

  apply_events-Recent :
      (n : ℕ) (es : List E) (w : Runner C R S J) (seq : ℕ) (j : Journal J)
      → stored_at j (entity_key g)
        ≡ stored_at w.journal (entity_key g)
          ++ to_stored g.event_codec w.journal.global_seq w.entity.sequence_nr es
              (envelopes_for g w.minted es)
      → j.snapshots ≡ w.journal.snapshots
      → Recent n w
      → Recent n (apply_events g es seq j w)
  unfolding apply_events Recent number_of
  apply_events-Recent n es w seq j stored snaps h =
      let longer =
        ap length stored
        ∙ length-append (stored_at w.journal (entity_key g)) _
        ∙ ap (λ m. length (stored_at w.journal (entity_key g)) + m)
            (length-to_stored g.event_codec w.journal.global_seq w.entity.sequence_nr es
              (envelopes_for g w.minted es)) in
      let same = ap (λ m. number_of (get m (entity_key g))) snaps in
      elim h [
        | inl k ↦ inl (omega (arith, longer, k))
        | inr k ↦ inr (omega (arith, longer, same, k))
      ]

  after_persist-Recent :
      (n : ℕ) (es : List E) (w : Runner C R S J) (r : Persisted × Journal J)
      → Durable g w
      → Recent n w
      → Outcome g.event_codec
          (entity_key g)
          w.entity.sequence_nr
          es
          (envelopes_for g w.minted es)
          w.journal
          r
      → Holds (Recent n) (after_persist g es w r)
  unfolding after_persist publish Recent number_of
  after_persist-Recent n es w r d h (appended e _ stored _ snaps) = rw e (
      auto_snapshot-Recent n _ (apply_events-Durable g es w r d stored snaps)
        (apply_events-Recent n es w (w.entity.sequence_nr + length es) r.1 stored snaps h))
  after_persist-Recent n es w r d h (refused m e _ _ _) = rw e h

  pub persist_step-Recent :
      (n : ℕ) (es : List E) (w : Runner C R S J)
      → Durable g w
      → Recent n w
      → Holds (Recent n) (persist_step g es w)
  unfolding persist_step
  persist_step-Recent n es w d h = after_persist-Recent n es w _ d h (
      persist_events-Outcome g.event_codec g.aggregate.category g.entity_id es w.entity.sequence_nr
        (envelopes_for g w.minted es) w.journal)
