-- ===== src/Journal/Keys.antt =====
-- The text key under which the journal files an entity: when two entities share one, and when not.
use Prim.Native.Char.{Char, code}
use Prim.Native.String.{◌++◌ as str_append}
use text.Mathlib.TextLemmas.{
  nil-append, cons-append, append_assoc, head-eq_of_cons-eq, tail-eq_of_cons-eq,
}
use teob_ts.Common.{
  ℕ, String, Bool, false, ◌||◌, List, ◌≡◌, refl, sym, ap, ◌∙◌, arith, ◌==◌, ◌++◌, ◌+◌, ◌≤◌, some,
  length, drop,
}
use mathlib.Core.Path.{ap₂, subst}
use teob_ts.Codec.{Codec, RoundTrips}
use teob_ts.Journal.{Journal, persisted, persistence_key, persist_events, load_events, stored_at}
use teob_ts.Journal.Append.{numbered}
use teob_ts.Journal.Stream.{Records, load_events-Records, persist_events-Records}
use teob_ts.Envelope.{EventEnvelope}

key_regroup :
    (a b c : String)
    → persistence_key (persistence_key a b) c ≡ persistence_key a (persistence_key b c)
unfolding persistence_key
key_regroup a b c =
    append_assoc a (str_append ":" b) (str_append ":" c)
    ∙ ap (str_append a) (append_assoc ":" b (str_append ":" c))

abbrev pub has_colon : String → Bool
has_colon String.[] = false
has_colon (String.◌∷◌ c s) = code c == 58 || has_colon s

not-colon : (y : Char) (d : String) → 58 ≡ code y → has_colon (String.◌∷◌ y d) ≡ false → ⊥
not-colon y d e q = ground arith

has_colon-tail : (y : Char) (d : String) → has_colon (String.◌∷◌ y d) ≡ false → has_colon d ≡ false
has_colon-tail y d q = ground arith

abbrev colon : Char
colon = ":"

key_nil : (i : String) → persistence_key String.[] i ≡ String.◌∷◌ colon i
unfolding persistence_key
key_nil i =
    nil-append (str_append ":" i)
    ∙ cons-append colon String.[] i
    ∙ ap (String.◌∷◌ colon) (nil-append i)

key_cons :
    (x : Char) (c i : String)
    → persistence_key (String.◌∷◌ x c) i ≡ String.◌∷◌ x (persistence_key c i)
unfolding persistence_key
key_cons x c i = cons-append x c (str_append ":" i)

-- The keys of two entities are equal only if the entities are, as long as no category has a colon.
pub persistence_key_inj :
    (c d i k : String)
    → has_colon c ≡ false
    → has_colon d ≡ false
    → persistence_key c i ≡ persistence_key d k
    → (c ≡ d) × (i ≡ k)
persistence_key_inj String.[] String.[] i k p q e =
    (refl, tail-eq_of_cons-eq (sym (key_nil i) ∙ e ∙ key_nil k))
persistence_key_inj String.[] (String.◌∷◌ y d) i k p q e =
    absurd (not-colon y d (ap code (head-eq_of_cons-eq (sym (key_nil i) ∙ e ∙ key_cons y d k))) q)
persistence_key_inj (String.◌∷◌ x c) String.[] i k p q e =
    absurd
      (not-colon x c (ap code (head-eq_of_cons-eq (sym (key_nil k) ∙ sym e ∙ key_cons x c i))) p)
persistence_key_inj (String.◌∷◌ x c) (String.◌∷◌ y d) i k p q e =
    let e' = sym (key_cons x c i) ∙ e ∙ key_cons y d k in
    let (same, entity) =
      persistence_key_inj c d i k (has_colon-tail x c p) (has_colon-tail y d q)
        (tail-eq_of_cons-eq e') in
    (ap₂ String.◌∷◌ (head-eq_of_cons-eq e') same, entity)

-- Two entities of different categories can share a key: the category `a:b` with the entity `c`, and
-- the category `a` with the entity `b:c`. So with a codec that round-trips: if the second has the
-- events `es` and the first writes `fs`, numbered from behind the same count, then the write
-- succeeds and the second reads `es` and behind them `fs` as its own, from any number on that is not
-- past their end.
pub shared_key :
    {E J : Type 0} (codec : Codec E J) (a b c : String)
    → RoundTrips codec
    → (es fs : List E) (envelopes : List EventEnvelope) (j : Journal J) (k : ℕ)
    → Records codec 0 es (stored_at j (persistence_key a (persistence_key b c)))
    → k ≤ length (es ++ fs)
    → let r = persist_events codec (persistence_key a b) c fs (length es) envelopes j in
      (r.0 ≡ persisted (length es + length fs))
      × (load_events codec a (persistence_key b c) k r.1 ≡ some (numbered k (drop k (es ++ fs))))
shared_key codec a b c ok es fs envelopes j k stream h =
    let ab = persistence_key a b in
    let bc = persistence_key b c in
    let key = persistence_key ab c in
    let other = persistence_key a bc in
    let r = persist_events codec ab c fs (length es) envelopes j in
    let here = subst (λ x. Records codec 0 es (stored_at j x)) (sym (key_regroup a b c)) stream in
    let (result, stored) = persist_events-Records codec ab c es fs envelopes j here in
    (
      result,
      load_events-Records codec ok a bc k (es ++ fs) r.1
          (subst (λ x. Records codec 0 (es ++ fs) (stored_at r.1 x)) (key_regroup a b c) stored) h,
    )
