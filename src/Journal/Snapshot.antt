-- ===== src/Journal/Snapshot.antt =====
-- Snapshots: what `loadSnapshot` reads is what `persistSnapshot` wrote last for the entity.
use teob_ts.Common.{ℕ, String, false, ◌≡◌, ap, str_eq}
use teob_ts.Common.Maps.{get, get-set_ne, get-set_self}
use teob_ts.Codec.{Codec, RoundTrips}
use teob_ts.Journal.{
  Journal, snapshot_at, persistence_key, persist_snapshot, load_snapshot, read_snapshot,
}

module _ {S J : Type 0} (codec : Codec S J) (c i : String) (s : S) (n : ℕ) (j : Journal J) where
  -- With a codec that round-trips, the snapshot that was written last for an entity is the one read.
  pub load_snapshot-persist_snapshot :
      (ok : RoundTrips codec)
      → load_snapshot codec c i (persist_snapshot codec c i s n j) ≡ snapshot_at n s
  unfolding load_snapshot persist_snapshot
  load_snapshot-persist_snapshot ok = rw (get-set_self, read_snapshot) (rw (ok.decode-encode s))

  -- Writing a snapshot under one key leaves what is read under another as it is.
  pub load_snapshot-persist_snapshot_ne :
      (d k : String)
      → str_eq (persistence_key c i) (persistence_key d k) ≡ false
      → load_snapshot codec d k (persist_snapshot codec c i s n j) ≡ load_snapshot codec d k j
  unfolding load_snapshot persist_snapshot
  load_snapshot-persist_snapshot_ne d k ne =
      ap (read_snapshot codec)
        (get-set_ne j.snapshots (persistence_key c i) (persistence_key d k) _ ne)

-- Reading a snapshot depends on the stored snapshots alone.
pub load_snapshot_cong :
    {S J : Type 0} (codec : Codec S J) (c i : String) (j k : Journal J)
    → j.snapshots ≡ k.snapshots
    → load_snapshot codec c i j ≡ load_snapshot codec c i k
unfolding load_snapshot
load_snapshot_cong codec c i j k e = ap (λ m. read_snapshot codec (get m (persistence_key c i))) e
