-- ===== src/Journal/Tests.antt =====
-- A small journal: its theorems at concrete batches.
use teob_ts.Common.{ℕ, [], ◌∷◌, ◌≡◌, refl, some, drop, arith}
use teob_ts.Codec.{Codec, RoundTrips, object_codec}
use teob_ts.Common.Maps.{get, set}
use teob_ts.Journal.{
  Journal, persisted, duplicate_sequence_nr, empty, persistence_key, stored_at, persist_events,
  load_events, all_events,
}
use teob_ts.Journal.Append.{Outcome, persist_events-Outcome, numbered}
use teob_ts.Journal.Keys.{shared_key}
use teob_ts.Journal.Stream.{load_events-Records}

abbrev plain : Codec ℕ ℕ
unfolding object_codec
plain = object_codec "e"

plain-RoundTrips : RoundTrips plain
unfolding object_codec
plain-RoundTrips = record { decode-encode = λ a. refl }

-- Two events of the order `7`.
abbrev ordered : Journal ℕ
unfolding persist_events
ordered = (persist_events plain "order" "7" (10 ∷ 20 ∷ []) 0 [] empty).1

-- Two events of the entity `b:c` of the category `a`.
abbrev shared : Journal ℕ
unfolding persist_events
shared = (persist_events plain "a" "b:c" (10 ∷ 20 ∷ []) 0 [] empty).1

refused_again :
    (persist_events plain "order" "7" (30 ∷ 40 ∷ []) 1 [] ordered).0 ≡ duplicate_sequence_nr 2
unfolding persist_events get set
refused_again = refl

goes_on : (persist_events plain "order" "7" (30 ∷ []) 2 [] ordered).0 ≡ persisted 3
unfolding persist_events get set
goes_on = refl

listed : all_events plain "order" ordered ≡ some (("7", 1, 10) ∷ ("7", 2, 20) ∷ [])
unfolding all_events persist_events get set plain
listed = refl

persist_events-Outcome_example :
    Outcome plain
      (persistence_key "order" "7")
      1
      (30 ∷ 40 ∷ [])
      []
      ordered
      (persist_events plain "order" "7" (30 ∷ 40 ∷ []) 1 [] ordered)
persist_events-Outcome_example =
    persist_events-Outcome plain "order" "7" (30 ∷ 40 ∷ []) 1 [] ordered

shared_key_example :
    let r = persist_events plain (persistence_key "a" "b") "c" (30 ∷ []) 2 [] shared in
    (r.0 ≡ persisted 3)
    × (load_events plain "a" (persistence_key "b" "c") 0 r.1
        ≡ some (numbered 0 (10 ∷ 20 ∷ 30 ∷ [])))
unfolding persist_events stored_at persistence_key object_codec get set
shared_key_example =
    shared_key plain "a" "b" "c" plain-RoundTrips (10 ∷ 20 ∷ []) (30 ∷ []) [] shared 0
      (refl, refl, refl, (refl, refl, refl, tt)) (omega arith)

load_events-Records_example :
    load_events plain "order" "7" 1 ordered ≡ some (numbered 1 (drop 1 (10 ∷ 20 ∷ [])))
unfolding persist_events stored_at persistence_key object_codec get set
load_events-Records_example =
    load_events-Records plain plain-RoundTrips "order" "7" 1 (10 ∷ 20 ∷ []) ordered
      (refl, refl, refl, (refl, refl, refl, tt)) (omega arith)
