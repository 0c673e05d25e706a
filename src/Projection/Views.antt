-- ===== src/Projection/Views.antt =====
-- A projection of one category, entity by entity: each view is the fold of its entity's events.
use Prim.Native.Nat.{max}
use Prim.Native.String.{◌++◌ as str_append}
use mathlib.Core.Path.{ap₂, subst}
use teob_ts.Common.{
  ℕ, String, Option, some, true, false, List, [], ◌∷◌, ◌≡◌, refl, sym, ap, ◌∙◌, leb, str_eq, eq_iff,
  eq_refl, if◌then◌else◌, if_true, if_false, ◌⊎◌, inl, inr, Bool-cases, foldl,
}
use teob_ts.Journal.{persistence_key}
use teob_ts.Common.Maps.{or_zero, str_eq-append, get-set}
use teob_ts.Projection.Offsets.{fold_items-cons}
use teob_ts.Projection.{
  ProjectionStore, FoldItem, ViewEnvelope, view_key, offset_key, get_offset, get_view,
  put_with_offset, set_offset, store_view, seq_or_zero,
}
use teob_ts.Projection.Fold.{
  write_evolved, offset_guarded_fold, fold_items, items_of, current_view, single_source, applied,
  already,
}

pub view_key_eq : (p v w : String) → str_eq (view_key p v) (view_key p w) ≡ str_eq v w
unfolding view_key
view_key_eq p v w = str_eq-append (str_append p ":") v w

offset_key_eq : (p c i k : String) → str_eq (offset_key p c i) (offset_key p c k) ≡ str_eq i k
unfolding offset_key persistence_key
offset_key_eq p c i k =
    str_eq-append (str_append p ":") (persistence_key c i) (persistence_key c k)
    ∙ str_eq-append c (str_append ":" i) (str_append ":" k)
    ∙ str_eq-append ":" i k

-- What the store keeps of one entity: its offset and its view.
abbrev pub Slot : Type 0 → Type 0
Slot V = ℕ × Option (ViewEnvelope V)

module _ {E V : Type 0} (p c : String) (f : V → E → String → V) (initial : V) where
  unfoldable pub slot_at : String → ProjectionStore V → Slot V
  slot_at i s = (get_offset p c i s, get_view p i s)

  -- One event of the entity `i` on its slot.
  unfoldable pub advance : String → Slot V → ℕ × E → Slot V
  advance i slot (n, e) = if leb n slot.0 then slot else (
    n,
    some (record {
      view_id = i;
      view = f (current_view initial slot.1) e i;
      sequence_nr = max n (seq_or_zero slot.1);
    }),
  )

  -- The events of the entity `i`.
  abbrev pub own : String → List (String × ℕ × E) → List (ℕ × E)
  own i [] = []
  own i ((k, n, e) ∷ rest) = if str_eq k i then (n, e) ∷ own i rest else own i rest

  abbrev pub total : V → E → String → Option V
  total v e i = some (f v e i)

  item : String → ℕ → E → FoldItem E
  item k n e = record { category = c; entity_id = k; sequence_nr = n; view_id = k; event = e }

  slot-fold_old :
      (k : String) (n : ℕ) (e : E) (s : ProjectionStore V)
      → leb n (get_offset p c k s) ≡ true
      → offset_guarded_fold p total initial (item k n e) s ≡ (already, s)
  unfolding offset_guarded_fold item
  slot-fold_old k n e s h = rw h refl

  written : String → ℕ → E → ProjectionStore V → ProjectionStore V
  written k n e s = set_offset p c k n (
      store_view p k
        (record {
          view_id = k;
          view = f (current_view initial (get_view p k s)) e k;
          sequence_nr = max n (seq_or_zero (get_view p k s));
        })
        s)

  fold_new :
      (k : String) (n : ℕ) (e : E) (s : ProjectionStore V)
      → leb n (get_offset p c k s) ≡ false
      → offset_guarded_fold p total initial (item k n e) s ≡ (applied, written k n e s)
  unfolding offset_guarded_fold item write_evolved put_with_offset written
  fold_new k n e s h =
      let guard = leb n (get_offset p c k s) in
      if_false guard (already, s) _ h
      ∙ ap (λ x. (applied, x)) (if_false guard s (written k n e s) h)

  -- The envelope that the event leaves.
  evolved : String → ℕ → E → Option (ViewEnvelope V) → ViewEnvelope V
  evolved i n e old = record {
    view_id = i;
    view = f (current_view initial old) e i;
    sequence_nr = max n (seq_or_zero old);
  }

  get_offset-written :
      (k i : String) (n : ℕ) (e : E) (s : ProjectionStore V)
      → get_offset p c i (written k n e s) ≡ (if str_eq k i then n else get_offset p c i s)
  unfolding get_offset written set_offset store_view or_zero
  get_offset-written k i n e s = elim (Bool-cases (str_eq k i)) [
    | inl h ↦ rw (get-set, offset_key_eq, h) refl
    | inr h ↦ rw (get-set, offset_key_eq, h) refl
  ]

  get_view-written :
      (k i : String) (n : ℕ) (e : E) (s : ProjectionStore V)
      → get_view p i (written k n e s)
        ≡ (if str_eq k i then some (evolved k n e (get_view p k s)) else get_view p i s)
  unfolding get_view written set_offset store_view evolved
  get_view-written k i n e s =
      get-set s.views (view_key p k) (view_key p i) (evolved k n e (get_view p k s))
      ∙ ap (λ b. if b then some (evolved k n e (get_view p k s)) else get_view p i s)
          (view_key_eq p k i)

  slot_at-written_self :
      (i : String) (n : ℕ) (e : E) (s : ProjectionStore V)
      → leb n (get_offset p c i s) ≡ false
      → slot_at i (written i n e s) ≡ advance i (slot_at i s) (n, e)
  unfolding slot_at advance evolved
  slot_at-written_self i n e s fresh =
      let new : Slot V = (n, some (evolved i n e (get_view p i s))) in
      ap₂ (λ o v. (o, v))
        (get_offset-written i i n e s ∙ if_true (str_eq i i) n (get_offset p c i s) (eq_refl i))
        (get_view-written i i n e s ∙ if_true (str_eq i i) new.1 (get_view p i s) (eq_refl i))
      ∙ sym (if_false (leb n (get_offset p c i s)) (slot_at i s) new fresh)

  slot_at-written_ne :
      (k i : String) (n : ℕ) (e : E) (s : ProjectionStore V)
      → str_eq k i ≡ false
      → slot_at i (written k n e s) ≡ slot_at i s
  unfolding slot_at
  slot_at-written_ne k i n e s h =
      ap₂ (λ o v. (o, v))
        (get_offset-written k i n e s ∙ if_false (str_eq k i) n (get_offset p c i s) h)
        (get_view-written k i n e s ∙ if_false (str_eq k i) _ (get_view p i s) h)

  -- The loop over the events of the category does to each entity's slot what its own events do.
  unfoldable pub Evolves : String → List (String × ℕ × E) → ProjectionStore V → Type 0
  Evolves i events s =
      let r = fold_items p total initial (items_of (single_source c) events) s in
      (r.0 ≡ true) × (slot_at i r.1 ≡ foldl (advance i) (slot_at i s) (own i events))

  advance_old :
      (i : String) (n : ℕ) (e : E) (slot : Slot V)
      → leb n slot.0 ≡ true
      → advance i slot (n, e) ≡ slot
  unfolding advance
  advance_old i n e slot h = if_true (leb n slot.0) slot _ h

  old_own :
      (i k : String) (n : ℕ) (e : E) (s : ProjectionStore V)
      → str_eq k i ≡ true
      → leb n (get_offset p c k s) ≡ true
      → slot_at i s ≡ (if str_eq k i then advance i (slot_at i s) (n, e) else slot_at i s)
  unfolding slot_at
  old_own i k n e s same h =
      let at : leb n (get_offset p c i s) ≡ true =
        subst (λ x. leb n (get_offset p c x s) ≡ true) ((eq_iff k i).0 same) h in
      sym (if_true (str_eq k i) _ (slot_at i s) same ∙ advance_old i n e (slot_at i s) at)

  new_own :
      (i k : String) (n : ℕ) (e : E) (s : ProjectionStore V)
      → str_eq k i ≡ true
      → leb n (get_offset p c k s) ≡ false
      → slot_at i (written k n e s)
        ≡ (if str_eq k i then advance i (slot_at i s) (n, e) else slot_at i s)
  new_own i k n e s same h =
      subst
        (λ x.
          leb n (get_offset p c x s) ≡ false
          → slot_at i (written x n e s) ≡ advance i (slot_at i s) (n, e))
        (sym ((eq_iff k i).0 same)) (slot_at-written_self i n e s) h
      ∙ sym (if_true (str_eq k i) _ (slot_at i s) same)

  -- One event does to the slot of `i` what `advance` does, if it is an event of `i`.
  slot_at-fold :
      (i k : String) (n : ℕ) (e : E) (s : ProjectionStore V)
      → (t : ProjectionStore V) × ((offset_guarded_fold p total initial (item k n e) s
            ≡ (already, t))
          ⊎ (offset_guarded_fold p total initial (item k n e) s ≡ (applied, t)))
        × (slot_at i t ≡ (if str_eq k i then advance i (slot_at i s) (n, e) else slot_at i s))
  slot_at-fold i k n e s = elim (Bool-cases (leb n (get_offset p c k s))) [
    | inl h ↦ (
      s,
      inl (slot-fold_old k n e s h),
      elim (Bool-cases (str_eq k i)) [
        | inl same ↦ old_own i k n e s same h
        | inr ne ↦ sym (if_false _ _ (slot_at i s) ne)
      ],
    )
    | inr h ↦ (
      written k n e s,
      inr (fold_new k n e s h),
      elim (Bool-cases (str_eq k i)) [
        | inl same ↦ new_own i k n e s same h
        | inr ne ↦ slot_at-written_ne k i n e s ne ∙ sym (if_false _ _ (slot_at i s) ne)
      ],
    )
  ]

  own-step :
      (i k : String) (n : ℕ) (e : E) (rest : List (String × ℕ × E)) (slot : Slot V)
      → foldl (advance i) (if str_eq k i then advance i slot (n, e) else slot) (own i rest)
        ≡ foldl (advance i) slot (own i ((k, n, e) ∷ rest))
  own-step i k n e rest slot = elim (Bool-cases (str_eq k i)) [
    | inl h ↦ rw h refl
    | inr h ↦ rw h refl
  ]

  pub slot_at-fold_items :
      (i : String) (events : List (String × ℕ × E)) (s : ProjectionStore V) → Evolves i events s
  unfolding Evolves fold_items items_of item
  slot_at-fold_items i [] s = (refl, refl)
  slot_at-fold_items i ((k, n, e) ∷ rest) s =
      let (t, done, at) = slot_at-fold i k n e s in
      let (ok, later) = slot_at-fold_items i rest t in
      let same =
        fold_items-cons p total initial (item k n e) (items_of (single_source c) rest) s t done in
      (
        ap (λ r. r.0) same ∙ ok,
        ap (λ r. slot_at i r.1) same
            ∙ later
            ∙ ap (λ x. foldl (advance i) x (own i rest)) at
            ∙ own-step i k n e rest (slot_at i s),
      )
