-- ===== src/Codec/Upcasts.antt =====
-- Chains of upcasts: when they leave a value alone, how they compose, and what they migrate.
use teob_ts.Common.{
  String, List, [], ◌∷◌, ◌++◌, ◌≡◌, refl, sym, ◌∙◌, some, false, ap, str_eq, eq_iff, All,
}
use teob_ts.Codec.{Codec, RoundTrips, Upcast, upcast_once, upcast_all, codec_with_upcasts}

-- No upcast of the list starts at this manifest.
abbrev pub IsCurrent : {J : Type 0} → String → List (Upcast J) → Type 0
IsCurrent m us = All (λ u. str_eq m u.source_manifest ≡ false) us

module _ {J : Type 0} where
  upcast_all-current :
      (m : String) (p : J) (us : List (Upcast J)) → IsCurrent m us → upcast_all (m, p) us ≡ (m, p)
  unfolding upcast_all
  upcast_all-current m p [] h = refl
  upcast_all-current m p (u ∷ us) h = rw h.0 (upcast_all-current m p us h.1)

  upcast_all-append :
      (c : String × J) (us vs : List (Upcast J))
      → upcast_all c (us ++ vs) ≡ upcast_all (upcast_all c us) vs
  unfolding upcast_all
  upcast_all-append c [] vs = refl
  upcast_all-append c (u ∷ us) vs = upcast_all-append (upcast_once c u) us vs

  upcast_all-skip :
      (m : String) (p : J) (us vs : List (Upcast J))
      → IsCurrent m us
      → upcast_all (m, p) (us ++ vs) ≡ upcast_all (m, p) vs
  upcast_all-skip m p us vs h =
      upcast_all-append (m, p) us vs ∙ ap (λ c. upcast_all c vs) (upcast_all-current m p us h)

  upcast_all-hit :
      (m : String) (p : J) (u : Upcast J) (vs : List (Upcast J))
      → m ≡ u.source_manifest
      → upcast_all (m, p) (u ∷ vs) ≡ upcast_all (u.target_manifest, u.transform p) vs
  unfolding upcast_all
  upcast_all-hit m p u vs e = rw ((eq_iff m u.source_manifest).1 e)

-- The upcasts lead from this manifest on, each from the target of the one before it.
abbrev pub IsChain : {J : Type 0} → String → List (Upcast J) → Type 0
IsChain m [] = Unit
IsChain m (u ∷ us) = (m ≡ u.source_manifest) × IsChain u.target_manifest us

abbrev pub last_target : {J : Type 0} → String → List (Upcast J) → String
last_target m [] = m
last_target m (u ∷ us) = last_target u.target_manifest us

abbrev pub migrated : {J : Type 0} → J → List (Upcast J) → J
migrated p [] = p
migrated p (u ∷ us) = migrated (u.transform p) us

upcast_all-chain :
    {J : Type 0} (m : String) (p : J) (us : List (Upcast J))
    → IsChain m us
    → upcast_all (m, p) us ≡ (last_target m us, migrated p us)
unfolding upcast_all
upcast_all-chain m p [] h = refl
upcast_all-chain m p (u ∷ us) h =
    upcast_all-hit m p u us h.0 ∙ upcast_all-chain u.target_manifest (u.transform p) us h.1

module _ {A J : Type 0} (base : Codec A J) where
  -- Upcasts that start at no manifest of a value leave the round trip alone.
  pub codec_with_upcasts-RoundTrips :
      (us : List (Upcast J))
      → RoundTrips base
      → ((a : A) → IsCurrent (base.manifest a) us)
      → RoundTrips (codec_with_upcasts base us)
  unfolding codec_with_upcasts
  codec_with_upcasts-RoundTrips us ok current = record {
    decode-encode = λ a.
        rw (upcast_all-current (base.manifest a) (base.encode a) us (current a))
          (ok.decode-encode a);
  }

  -- A stored value of an old version, behind whose manifest the upcasts form a chain, decodes to the
  -- value whose encoding all transforms of the chain give, in their order, and whose manifest is the
  -- chain's last target: if the codec without upcasts round-trips and the upcasts of older versions,
  -- which stand before the chain, do not start at the stored manifest. An empty chain is a value of
  -- the current version, which decodes to itself.
  pub codec_with_upcasts-migrates :
      (ok : RoundTrips base) (older chain : List (Upcast J)) (m : String) (p : J) (a : A)
      → IsCurrent m older
      → IsChain m chain
      → base.manifest a ≡ last_target m chain
      → base.encode a ≡ migrated p chain
      → (codec_with_upcasts base (older ++ chain)).decode m p ≡ some a
  unfolding codec_with_upcasts
  codec_with_upcasts-migrates ok older chain m p a skipped linked same encoded =
      ap (λ (c : String × J). base.decode c.0 c.1)
        (upcast_all-skip m p older chain skipped ∙ upcast_all-chain m p chain linked)
      ∙ (λ i. base.decode (sym same i) (sym encoded i))
      ∙ ok.decode-encode a

  -- Wrapping twice runs the outer upcasts first: it is one wrapper with both lists in that order.
  pub codec_with_upcasts_twice :
      (inner outer : List (Upcast J)) (m : String) (p : J)
      → (codec_with_upcasts (codec_with_upcasts base inner) outer).decode m p
        ≡ (codec_with_upcasts base (outer ++ inner)).decode m p
  unfolding codec_with_upcasts
  codec_with_upcasts_twice inner outer m p = rw (upcast_all-append (m, p) outer inner)

  -- A stored version 1 passes through a chain 1 → 2 → 3 in this order, whatever upcasts of other
  -- manifests stand before, between and behind the two: the result is decoded as version 3 from
  -- data that both transformations have changed.
  pub codec_with_upcasts_chain :
      (u v : Upcast J) (before between behind : List (Upcast J)) (p : J)
      → u.target_manifest ≡ v.source_manifest
      → IsCurrent u.source_manifest before
      → IsCurrent v.source_manifest between
      → IsCurrent v.target_manifest behind
      → (codec_with_upcasts base (before ++ (u ∷ (between ++ (v ∷ behind))))).decode
          u.source_manifest p
        ≡ base.decode v.target_manifest (v.transform (u.transform p))
  unfolding codec_with_upcasts
  codec_with_upcasts_chain u v before between behind p e h₁ h₂ h₃ =
      ap (λ (c : String × J). base.decode c.0 c.1)
        (upcast_all-skip u.source_manifest p before _ h₁
          ∙ upcast_all-hit u.source_manifest p u (between ++ (v ∷ behind)) refl
          ∙ ap (λ m. upcast_all (m, u.transform p) (between ++ (v ∷ behind))) e
          ∙ upcast_all-skip v.source_manifest _ between _ h₂
          ∙ upcast_all-hit v.source_manifest _ v behind refl
          ∙ upcast_all-current v.target_manifest _ behind h₃)
