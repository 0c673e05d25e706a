-- ===== src/Codec/Tests.antt =====
-- A three-version event: its upcasts at concrete values.
use teob_ts.Common.{ℕ, ◌+◌, ◌*◌, [], ◌∷◌, ◌≡◌, refl, some}
use teob_ts.Codec.{Codec, RoundTrips, Upcast, tag_codec, object_codec, upcast, codec_with_upcasts}
use teob_ts.Codec.Upcasts.{codec_with_upcasts-migrates}

abbrev v0 : Upcast ℕ
unfolding upcast
v0 = upcast "V0" "V1" (λ n. n + 7)

abbrev v1 : Upcast ℕ
unfolding upcast
v1 = upcast "V1" "V2" (λ n. n * 10)

abbrev v2 : Upcast ℕ
unfolding upcast
v2 = upcast "V2" "V3" (λ n. n + 1)

abbrev base : Codec ℕ ℕ
unfolding object_codec
base = object_codec "V3"

tagged : (tag_codec {A = ℕ} (λ _. "T")).decode "T" 4 ≡ some 4
unfolding tag_codec
tagged = refl

migrated : (codec_with_upcasts base (v1 ∷ v2 ∷ [])).decode "V1" 4 ≡ some 41
unfolding codec_with_upcasts object_codec upcast
migrated = refl

base-RoundTrips : RoundTrips base
unfolding object_codec
base-RoundTrips = record { decode-encode = λ a. refl }

codec_with_upcasts-migrates_example :
    (codec_with_upcasts base (v0 ∷ (v1 ∷ v2 ∷ []))).decode "V1" 4 ≡ some 41
unfolding object_codec upcast
codec_with_upcasts-migrates_example =
    codec_with_upcasts-migrates base base-RoundTrips (v0 ∷ []) (v1 ∷ v2 ∷ []) "V1" 4 41 (refl, tt)
      (refl, (refl, tt)) refl refl
