-- ===== src/Entity/Snapshots.antt =====
-- How often a runner snapshots: how far its journal may be ahead of its last snapshot.
use teob_ts.Common.Maps.{get}
use teob_ts.Common.{◌⊎◌, ◌+◌, ℕ, ◌<◌, some, List, ◌≡◌, arith, ltb, leb, ◌&&◌, inl, inr, Bool-cases}
use teob_ts.Codec.{RoundTrips}
use teob_ts.Journal
use teob_ts.Journal.{
  Journal, Persisted, persisted, empty, StoredSnapshot, stored_at, to_stored, persist_snapshot,
}
use teob_ts.Entity.Types.{Wiring, EntityState, Runner, Ran, finished, crashed, out_of_fuel}
use teob_ts.Entity.Execute.{
  snapshot_interval, take_snapshot, auto_snapshot, apply_events, publish, after_persist,
  persist_step,
}
use teob_ts.Entity.Loop.{create_entity_runner, recover, start}
use teob_ts.Entity.Induction.{Holds, Keeps}
use teob_ts.Entity.Recovery.{Durable, recovered, recover-Durable}
use teob_ts.Entity.Durability.{keeps_Durable}
use teob_ts.Entity.Recent.{snapshot_number, Recent, take_snapshot-Recent, persist_step-Recent}
use teob_ts.Entity.Reach.{
  Reach, stored_count, begun, Reach-keeps_since, restart-keeps, fresh-Durable, restart-Durable,
}

Holds-× :
    {W : Type 0} (P Q : W → Type 0) (r : Ran W) → Holds P r → Holds Q r → Holds (λ w. P w × Q w) r
Holds-× P Q (finished w) p q = (p, q)
Holds-× P Q (crashed e w) p q = (p, q)
Holds-× P Q out_of_fuel p q = tt

module _ {C R E S J : Type 0} (g : Wiring C R E S J) where
  Keeps-× : (P Q : Runner C R S J → Type 0) → Keeps g P → Keeps g Q → Keeps g (λ w. P w × Q w)
  Keeps-× P Q k l = record {
    outer = λ w m t wa co a c b h. (k.outer w m t wa co a c b h.0, l.outer w m t wa co a c b h.1);
    stashed = λ w s h. (k.stashed w s h.0, l.stashed w s h.1);
    persists = λ es w h. Holds-× P Q _ (k.persists es w h.0) (l.persists es w h.1);
    snapshots = λ w h. (k.snapshots w h.0, l.snapshots w h.1);
  }

  abbrev pub every : ℕ
  every = snapshot_interval g.aggregate.snapshot_every

  abbrev pub IsSnapshotted : Runner C R S J → Type 0
  IsSnapshotted w = 0 < every → w.entity.events_since_snapshot < every

  auto_snapshot-IsSnapshotted : (w : Runner C R S J) → IsSnapshotted (auto_snapshot g w)
  unfolding auto_snapshot
  auto_snapshot-IsSnapshotted w pos =
      elim (Bool-cases (ltb 0 every && leb every w.entity.events_since_snapshot)) [
        | inl e ↦ rw e pos
        | inr e ↦ rw e (ground arith)
      ]

  after_persist-IsSnapshotted :
      (es : List E) (w : Runner C R S J) (r : Persisted × Journal J)
      → IsSnapshotted w
      → Holds IsSnapshotted (after_persist g es w r)
  unfolding after_persist publish
  after_persist-IsSnapshotted es w (persisted n, j) h =
      auto_snapshot-IsSnapshotted (apply_events g es n j w)
  after_persist-IsSnapshotted es w (Journal.duplicate_sequence_nr n, j) h = h

  keeps_IsSnapshotted : Keeps g IsSnapshotted
  unfolding persist_step take_snapshot
  keeps_IsSnapshotted = record {
    outer = λ w m t wa co a c b h. h;
    stashed = λ w s h. h;
    persists = λ es w h. after_persist-IsSnapshotted es w _ h;
    snapshots = λ w h pos. pos;
  }

  module _ (events_ok : RoundTrips g.event_codec) (states_ok : RoundTrips g.state_codec) where
    keeps_both : Keeps g (λ w. Durable g w × IsSnapshotted w)
    keeps_both = Keeps-× (Durable g) IsSnapshotted (keeps_Durable g states_ok) keeps_IsSnapshotted

    recovered_again :
        (w : Runner C R S J) (minted clock : ℕ)
        → Durable g w × IsSnapshotted w
        → (s : EntityState C S) × (recover g w.journal ≡ some s)
          × (Durable g (record (create_entity_runner g w.journal minted clock) { entity = s })
              × IsSnapshotted
                  (record (create_entity_runner g w.journal minted clock) { entity = s }))
    recovered_again w minted clock h = (
      recovered g w,
      recover-Durable g events_ok w h.0,
      (restart-Durable g events_ok states_ok w minted clock h.0, λ pos. pos),
    )

    Kept : ℕ → Runner C R S J → Type 0
    Kept n w = (Durable g w × IsSnapshotted w) × Recent g n w

    restarted :
        (n : ℕ) (w w' : Runner C R S J) (minted clock : ℕ)
        → start g (create_entity_runner g w.journal minted clock) ≡ finished w'
        → Kept n w
        → Kept (stored_count g w') w'
    unfolding Kept Recent
    restarted n w w' minted clock e h = (
      restart-keeps g (λ v. Durable g v × IsSnapshotted v) keeps_both recovered_again w minted clock
          h.0 w' e,
      inl (omega arith),
    )

    keeps_Kept : (n : ℕ) → Keeps g (Kept n)
    unfolding Kept Recent
    keeps_Kept n = record {
      outer = λ w m t wa co a c b h. (keeps_both.outer w m t wa co a c b h.0, h.1);
      stashed = λ w s h. (keeps_both.stashed w s h.0, h.1);
      persists = λ es w h.
          Holds-× (λ v. Durable g v × IsSnapshotted v) (Recent g n) _ (keeps_both.persists es w h.0)
            (persist_step-Recent g n es w h.0.0 h.1);
      snapshots = λ w h. (keeps_both.snapshots w h.0, take_snapshot-Recent g n w h.0.0);
    }

    -- With codecs that round-trip, from an empty journal to which nothing else writes, and if
    -- `snapshotEvery` is not 0: however an entity lives, the journal holds fewer than `snapshotEvery`
    -- of its events behind those of its last start, or fewer than that behind the number of the
    -- snapshot that is stored for it.
    pub stored_count-lt-every :
        (minted clock : ℕ) (w : Runner C R S J)
        (r : Reach g (create_entity_runner g empty minted clock) w)
        → 0 < every
        → (stored_count g w < begun g r + every) ⊎ (stored_count g w < snapshot_number g w + every)
    unfolding create_entity_runner Kept Recent stored_at get
    stored_count-lt-every minted clock w r positive =
        let (kept, recent) =
          Reach-keeps_since g Kept keeps_Kept restarted r
            ((fresh-Durable g minted clock, λ pos. pos), inl (omega arith)) in
        elim recent [
          | inl h ↦ inl (omega (arith, h, kept.1 positive))
          | inr h ↦ inr (omega (arith, h, kept.1 positive))
        ]
