-- ===== src/Journal/Stream.antt =====
-- The stored events of an entity as the stream of its events, numbered from 1 without a gap, which
-- is what a single writer leaves in the journal.
use teob_ts.Common.{
  ℕ, zero, suc, ◌+◌, ◌≤◌, ◌<◌, String, some, false, List, [], ◌∷◌, ◌++◌, ◌≡◌, refl, sym, ap, ◌∙◌,
  arith, filter, length, drop, ltb,
}
use mathlib.Core.Path.{subst}
use mathlib.Core.Bool.{true≢false}
use teob_ts.Envelope.{EventEnvelope}
use teob_ts.Codec.{Codec, RoundTrips}
use teob_ts.Journal.{
  StoredEvent, Journal, taken, envelopes_from, to_stored, decode_all, stored_at, load_events,
  persist_events, persisted, persistence_key,
}
use teob_ts.Journal.Append.{numbered, appended, refused, persist_events-Outcome}

module _ {E J : Type 0} (codec : Codec E J) where
  -- `xs` holds the encodings of `es` at the numbers behind `n`.
  abbrev pub Records : ℕ → List E → List (StoredEvent J) → Type 0
  Records n [] [] = Unit
  Records n (e ∷ es) (x ∷ xs) =
      (x.sequence_nr ≡ suc n)
      × (x.manifest ≡ codec.manifest e)
      × (x.payload ≡ codec.encode e)
      × Records (suc n) es xs
  Records n [] (x ∷ xs) = ⊥
  Records n (e ∷ es) [] = ⊥

  pub to_stored-Records :
      (g n : ℕ) (es : List E) (envelopes : List EventEnvelope)
      → Records n es (to_stored codec g n es envelopes)
  unfolding to_stored
  to_stored-Records g n [] envelopes = tt
  to_stored-Records g n (e ∷ es) envelopes =
      (refl, refl, refl, to_stored-Records (suc g) (suc n) es (envelopes_from envelopes))

  pub Records-append :
      (n m : ℕ) (es fs : List E) (xs ys : List (StoredEvent J))
      → m ≡ n + length es
      → Records n es xs
      → Records m fs ys
      → Records n (es ++ fs) (xs ++ ys)
  Records-append n m [] fs [] ys e r s = let same : m ≡ n = omega arith in rw (← same) s
  Records-append n m [] fs (x ∷ xs) ys e r s = absurd r
  Records-append n m (e₁ ∷ es) fs [] ys e r s = absurd r
  Records-append n m (e₁ ∷ es) fs (x ∷ xs) ys e r s =
      (r.0, r.1, r.2, Records-append (suc n) m es fs xs ys (omega arith) r.3 s)

  -- A number behind the stream is free.
  pub Records-free :
      (n m : ℕ) (es : List E) (xs : List (StoredEvent J))
      → Records n es xs
      → n + length es < m
      → taken xs m ≡ false
  unfolding taken
  Records-free n m [] [] r h = refl
  Records-free n m [] (x ∷ xs) r h = absurd r
  Records-free n m (e ∷ es) [] r h = absurd r
  Records-free n m (e ∷ es) (x ∷ xs) r h =
      let rest = Records-free (suc n) m es xs r.3 (omega arith) in ground (arith, r.0, rest)

  module _ (ok : RoundTrips codec) where
    pub Records-decode_all :
        (n : ℕ) (es : List E) (xs : List (StoredEvent J))
        → Records n es xs
        → decode_all codec xs ≡ some (numbered n es)
    unfolding decode_all
    Records-decode_all n [] [] r = refl
    Records-decode_all n [] (x ∷ xs) r = absurd r
    Records-decode_all n (e ∷ es) [] r = absurd r
    Records-decode_all n (e ∷ es) (x ∷ xs) r =
        let payload : codec.decode x.manifest x.payload ≡ some e =
          rw (r.1, r.2) (ok.decode-encode e) in
        rw (payload, decode_all) (rw (Records-decode_all (suc n) es xs r.3, r.0))

  Records-filter_all :
      (k n : ℕ) (es : List E) (xs : List (StoredEvent J))
      → k ≤ n
      → Records n es xs
      → filter (λ x. ltb k x.sequence_nr) xs ≡ xs
  Records-filter_all k n [] [] h r = refl
  Records-filter_all k n [] (x ∷ xs) h r = absurd r
  Records-filter_all k n (e ∷ es) [] h r = absurd r
  Records-filter_all k n (e ∷ es) (x ∷ xs) h r =
      ground (arith, r.0, Records-filter_all k (suc n) es xs (omega arith) r.3)

  -- Reading behind the k-th event drops the first k.
  pub Records-filter :
      (k n : ℕ) (es : List E) (xs : List (StoredEvent J))
      → k ≤ length es
      → Records n es xs
      → Records (n + k) (drop k es) (filter (λ x. ltb (n + k) x.sequence_nr) xs)
  Records-filter zero n es xs h r =
      let e : n ≡ n + 0 = omega arith in
      rw (Records-filter_all (n + 0) n es xs (omega arith) r) (subst (λ m. Records m es xs) e r)
  Records-filter (suc k) n [] xs h r = absurd (omega arith)
  Records-filter (suc k) n (e ∷ es) [] h r = absurd r
  Records-filter (suc k) n (e ∷ es) (x ∷ xs) h r =
      let skipped : ltb (n + suc k) x.sequence_nr ≡ false = ground (arith, r.0) in
      let shifted : suc n + k ≡ n + suc k = omega arith in
      rw skipped (
        subst (λ m. Records m (drop k es) (filter (λ y. ltb m y.sequence_nr) xs)) shifted
          (Records-filter k (suc n) es xs (omega arith) r.3))

  -- With a codec that round-trips, and for an entity whose stored events are the encodings of `es` at
  -- the numbers from 1 on: `loadEvents` behind number `k`, which is not past the end, gives the events
  -- of `es` behind the first `k`, in order and with their numbers.
  pub load_events-Records :
      (ok : RoundTrips codec) (c i : String) (k : ℕ) (es : List E) (j : Journal J)
      → Records 0 es (stored_at j (persistence_key c i))
      → k ≤ length es
      → load_events codec c i k j ≡ some (numbered k (drop k es))
  unfolding load_events
  load_events-Records ok c i k es j r h =
      let xs = stored_at j (persistence_key c i) in
      let same : 0 + k ≡ k = omega arith in
      Records-decode_all ok k (drop k es) (filter (λ x. ltb k x.sequence_nr) xs) (
        subst (λ m. Records m (drop k es) (filter (λ x. ltb m x.sequence_nr) xs)) same
          (Records-filter k 0 es xs h r))

  pub length-Records :
      (n : ℕ) (es : List E) (xs : List (StoredEvent J)) → Records n es xs → length xs ≡ length es
  length-Records n [] [] r = refl
  length-Records n [] (x ∷ xs) r = absurd r
  length-Records n (e ∷ es) [] r = absurd r
  length-Records n (e ∷ es) (x ∷ xs) r = ap suc (length-Records (suc n) es xs r.3)

  -- A batch that is numbered from the end of the entity's stream is appended to it.
  pub persist_events-Records :
      (c i : String) (es fs : List E) (envelopes : List EventEnvelope) (j : Journal J)
      → Records 0 es (stored_at j (persistence_key c i))
      → let r = persist_events codec c i fs (length es) envelopes j in
        (r.0 ≡ persisted (length es + length fs))
        × Records 0 (es ++ fs) (stored_at r.1 (persistence_key c i))
  persist_events-Records c i es fs envelopes j r =
      elim (persist_events-Outcome codec c i fs (length es) envelopes j) [
        | appended result free stored g snaps ↦ (
          result,
          subst (Records 0 (es ++ fs)) (sym stored) (
              Records-append 0 (length es) es fs _ _ (omega arith) r
                (to_stored-Records j.global_seq (length es) fs envelopes)),
        )
        | refused n same low high hit ↦
            absurd (true≢false (sym hit ∙ Records-free 0 n es _ r (omega (arith, low))))
      ]
