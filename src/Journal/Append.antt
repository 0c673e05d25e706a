-- ===== src/Journal/Append.antt =====
-- What `persistEvents` does to the stored events: the batch is appended whole under its own key, or
-- it is refused and nothing changes.
use teob_ts.Common.{
  ℕ, suc, ◌+◌, ◌≤◌, ◌<◌, String, Option, none, some, true, false, List, [], ◌∷◌, ◌++◌, ◌≡◌, refl,
  sym, ap, ◌∙◌, inl, inr, arith, str_eq, append-nil, find?, find?-none, find?-some, All, length,
  Option-cases,
}
use teob_ts.Common.Maps.{get, set, get-set_ne, get-set_self}
use teob_ts.Envelope.{EventEnvelope}
use teob_ts.Codec.{Codec, RoundTrips}
use teob_ts.Journal.{
  StoredEvent, Journal, Persisted, persisted, duplicate_sequence_nr, persistence_key, stored_at,
  taken, envelopes_from, to_stored, append_batch, persist_events, decode_all, or_empty,
}

-- The events with the numbers that follow `start`.
abbrev pub numbered : {E : Type 0} → ℕ → List E → List (ℕ × E)
numbered start [] = []
numbered start (e ∷ es) = (suc start, e) ∷ numbered (suc start) es

module _ {E J : Type 0} (codec : Codec E J) where
  pub length-to_stored :
      (g start : ℕ) (es : List E) (envelopes : List EventEnvelope)
      → length (to_stored codec g start es envelopes) ≡ length es
  unfolding to_stored
  length-to_stored g start [] envelopes = refl
  length-to_stored g start (e ∷ es) envelopes =
      ap suc (length-to_stored (suc g) (suc start) es (envelopes_from envelopes))

  -- Decoding a batch gives back its events, numbered from the start of the batch.
  pub decode_all-to_stored :
      (ok : RoundTrips codec) (g start : ℕ) (es : List E) (envelopes : List EventEnvelope)
      → decode_all codec (to_stored codec g start es envelopes) ≡ some (numbered start es)
  unfolding to_stored decode_all
  decode_all-to_stored ok g start [] envelopes = refl
  decode_all-to_stored ok g start (e ∷ es) envelopes = rw (
    ok.decode-encode e,
    decode_all-to_stored ok (suc g) (suc start) es (envelopes_from envelopes),
  )

  -- The search for a duplicate, as `persistEvents` makes it.
  abbrev pub clash : String → ℕ → List E → List EventEnvelope → Journal J → Option (StoredEvent J)
  clash key start es envelopes j =
      find? (λ s. taken (stored_at j key) s.sequence_nr)
        (to_stored codec j.global_seq start es envelopes)

module _ {E J : Type 0} (codec : Codec E J) (c i : String) (j : Journal J) where
  -- No number of the batch is taken.
  pub persist_events-ok :
      (e : E) (es : List E) (start : ℕ) (envelopes : List EventEnvelope)
      → clash codec (persistence_key c i) start (e ∷ es) envelopes j ≡ none
      → let r = persist_events codec c i (e ∷ es) start envelopes j in
        (r.0 ≡ persisted (start + length (e ∷ es)))
        × (r.1.events
            ≡ set j.events (persistence_key c i) (
                stored_at j (persistence_key c i)
                ++ to_stored codec j.global_seq start (e ∷ es) envelopes))
        × (r.1.global_seq ≡ j.global_seq + length (e ∷ es))
        × (r.1.snapshots ≡ j.snapshots)
  unfolding persist_events append_batch
  persist_events-ok e es start envelopes h =
      rw (h, append_batch)
        (
          refl,
          refl,
          ap (λ n. j.global_seq + n) (length-to_stored codec _ start (e ∷ es) envelopes),
          refl,
        )

  -- A clash: the first number that is taken is reported, and the journal is the same.
  pub persist_events-clash :
      (e : E) (es : List E) (start : ℕ) (envelopes : List EventEnvelope) {s : StoredEvent J}
      → clash codec (persistence_key c i) start (e ∷ es) envelopes j ≡ some s
      → persist_events codec c i (e ∷ es) start envelopes j
        ≡ (duplicate_sequence_nr s.sequence_nr, j)
  unfolding persist_events append_batch
  persist_events-clash e es start envelopes h = rw (h, append_batch)

module _ {E J : Type 0} (codec : Codec E J) where
  -- The numbers of a batch lie behind its start.
  abbrev Within : ℕ → ℕ → StoredEvent J → Type 0
  Within start n s = (start < s.sequence_nr) × (s.sequence_nr ≤ start + n)

  Within-weaken :
      (start n : ℕ) (l : List (StoredEvent J))
      → All (Within (suc start) n) l
      → All (Within start (suc n)) l
  Within-weaken start n [] h = tt
  Within-weaken start n (s ∷ l) h =
      ((omega (arith, h.0.0), omega (arith, h.0.1)), Within-weaken start n l h.1)

  to_stored-Within :
      (g start : ℕ) (es : List E) (envelopes : List EventEnvelope)
      → All (Within start (length es)) (to_stored codec g start es envelopes)
  unfolding to_stored
  to_stored-Within g start [] envelopes = tt
  to_stored-Within g start (e ∷ es) envelopes = (
    (omega arith, omega arith),
    Within-weaken start (length es) _
        (to_stored-Within (suc g) (suc start) es (envelopes_from envelopes)),
  )

  -- How `persistEvents` may end, for the entity with this key.
  pub data Outcome (key : String) (start : ℕ) (es : List E) (envelopes : List EventEnvelope)
      (j : Journal J) (r : Persisted × Journal J) : Type 0 where
    appended :
        r.0 ≡ persisted (start + length es)
        → All
            (λ s. taken (stored_at j key) s.sequence_nr ≡ false)
            (to_stored codec j.global_seq start es envelopes)
        → stored_at r.1 key ≡ stored_at j key ++ to_stored codec j.global_seq start es envelopes
        → r.1.global_seq ≡ j.global_seq + length es
        → r.1.snapshots ≡ j.snapshots
        → Outcome key start es envelopes j r
    refused :
        (n : ℕ)
        → r ≡ (duplicate_sequence_nr n, j)
        → start < n
        → n ≤ start + length es
        → taken (stored_at j key) n ≡ true
        → Outcome key start es envelopes j r

module _ {E J : Type 0} (codec : Codec E J) (c i : String) where
  -- A batch is all or nothing. Either no number of it is taken: then it stands behind the entity's
  -- events, the result and the global number count it, and no snapshot has changed. Or the error
  -- names a number of the batch that is taken, and the journal is the same.
  pub persist_events-Outcome :
      (es : List E) (start : ℕ) (envelopes : List EventEnvelope) (j : Journal J)
      → Outcome codec
          (persistence_key c i)
          start
          es
          envelopes
          j
          (persist_events codec c i es start envelopes j)
  unfolding persist_events to_stored
  persist_events-Outcome [] start envelopes j =
      appended (ap persisted (omega arith)) tt (sym (append-nil _)) (omega arith) refl
  persist_events-Outcome (e ∷ es) start envelopes j =
      let key = persistence_key c i in
      let batch = to_stored codec j.global_seq start (e ∷ es) envelopes in
      let is_taken = λ (s : StoredEvent J). taken (stored_at j key) s.sequence_nr in
      elim (Option-cases (clash codec key start (e ∷ es) envelopes j)) [
        | inl h ↦
            let (r, ev, g, sn) = persist_events-ok codec c i j e es start envelopes h in
            appended r (find?-none is_taken batch h)
              (ap (λ m. or_empty (get m key)) ev ∙ ap or_empty (get-set_self _ key _)) g sn
        | inr (s, h) ↦
            let (within, hit) =
              find?-some is_taken (Within codec start (length (e ∷ es))) batch s
                (to_stored-Within codec j.global_seq start (e ∷ es) envelopes) h in
            refused s.sequence_nr (persist_events-clash codec c i j e es start envelopes h) within.0
              within.1 hit
      ]

  -- A batch leaves the events under every other key as they are, appended or refused.
  pub persist_events_elsewhere :
      (es : List E) (start : ℕ) (envelopes : List EventEnvelope) (j : Journal J) (k : String)
      → str_eq (persistence_key c i) k ≡ false
      → stored_at (persist_events codec c i es start envelopes j).1 k ≡ stored_at j k
  unfolding persist_events
  persist_events_elsewhere [] start envelopes j k ne = refl
  persist_events_elsewhere (e ∷ es) start envelopes j k ne =
      elim (Option-cases (clash codec (persistence_key c i) start (e ∷ es) envelopes j)) [
        | inl h ↦
            ap (λ m. or_empty (get m k)) (persist_events-ok codec c i j e es start envelopes h).1
            ∙ ap or_empty (get-set_ne _ (persistence_key c i) k _ ne)
        | inr (s, h) ↦
            ap (λ r. stored_at r.1 k) (persist_events-clash codec c i j e es start envelopes h)
      ]
