-- ===== src/Codec.antt =====
-- Serialization with text manifests: src/core/codec.ts. `J` is the type of encoded values. A decoder
-- that throws returns `none`.
pub mod Upcasts
mod Tests
use teob_ts.Common.{String, Option, some, List, [], ◌∷◌, ◌≡◌, str_eq, if◌then◌else◌}

pub record Codec (A J : Type 0) : Type 0 where
  pub manifest : A → String
  pub encode : A → J
  pub decode : String → J → Option A

-- What the journal relies on: an encoded value decodes to itself under its own manifest.
pub record RoundTrips {A J : Type 0} (codec : Codec A J) : Type 0 where
  pub decode-encode : (a : A) → codec.decode (codec.manifest a) (codec.encode a) ≡ some a

-- `tagCodec` for values that are their own encoding; `tag` reads the tag of a value.
unfoldable pub tag_codec : {A : Type 0} → (A → String) → Codec A A
tag_codec tag = record { manifest = tag; encode = λ a. a; decode = λ _ a. some a }

unfoldable pub object_codec : {A : Type 0} → String → Codec A A
object_codec manifest_str = record {
  manifest = λ _. manifest_str;
  encode = λ a. a;
  decode = λ _ a. some a;
}

pub record Upcast (J : Type 0) : Type 0 where
  pub source_manifest : String
  pub target_manifest : String
  pub transform : J → J

unfoldable pub upcast : {J : Type 0} → String → String → (J → J) → Upcast J
upcast source target transform = record {
  source_manifest = source;
  target_manifest = target;
  transform = transform;
}

module _ {J : Type 0} where
  -- One round of the loop over the upcasts.
  unfoldable pub upcast_once : String × J → Upcast J → String × J
  upcast_once (manifest, payload) u =
      if str_eq manifest u.source_manifest
      then (u.target_manifest, u.transform payload)
      else (manifest, payload)

  unfoldable pub upcast_all : String × J → List (Upcast J) → String × J
  unfolding upcast_once
  upcast_all current [] = current
  upcast_all current (u ∷ us) = upcast_all (upcast_once current u) us

unfoldable pub codec_with_upcasts : {A J : Type 0} → Codec A J → List (Upcast J) → Codec A J
unfolding upcast_all
codec_with_upcasts base upcasts = record {
  manifest = base.manifest;
  encode = base.encode;
  decode =
      λ manifest payload. let (m, p) = upcast_all (manifest, payload) upcasts in base.decode m p;
}
