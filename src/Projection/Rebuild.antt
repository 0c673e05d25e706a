-- ===== src/Projection/Rebuild.antt =====
-- Rebuilds and later passes of a projection of one category.
use mathlib.Core.Path.{ap₂}
use mathlib.Core.Bool.{true≢false}
use Prim.Native.String.{◌++◌ as str_append}
use text.Mathlib.Text.{starts_with}
use text.Mathlib.TextLemmas.{append_assoc}
use text.Mathlib.TextPositions.{starts_with-append}
use teob_ts.Common.{
  ℕ, String, Option, none, some, Bool, true, List, [], ◌∷◌, ◌++◌, ◌≡◌, refl, sym, ap, ◌∙◌, arith,
  ◌<◌, leb, lt→not-leb, if_false, str_eq, eq_iff, inl, inr, Bool-cases, foldl, foldl-append,
}
use teob_ts.Common.Maps.{or_zero, Map, get}
use teob_ts.Codec.{Codec}
use teob_ts.Journal.{Journal, all_events, persistence_key}
use teob_ts.Projection.{
  ProjectionStore, SingleStreamProjection, ViewEnvelope, view_key, offset_key, get_offset, get_view,
  without_prefix, clear, seq_or_zero,
}
use teob_ts.Projection.Fold.{single_source, run_projection, rebuild_projection, fold_source}
use teob_ts.Projection.Passes.{run_projection_twice}
use teob_ts.Projection.Views.{Slot, slot_at, advance, own, total, slot_at-fold_items, Evolves}

get-without_prefix :
    {W : Type 0} (prefix key : String) (m : Map W)
    → starts_with key prefix ≡ true
    → get (without_prefix prefix m) key ≡ none
unfolding get without_prefix
get-without_prefix prefix key [] h = refl
get-without_prefix prefix key ((j, v) ∷ m) h = elim (Bool-cases (starts_with j prefix)) [
  | inl e ↦ rw e (get-without_prefix prefix key m h)
  | inr e ↦ elim (Bool-cases (str_eq j key)) [
    | inl same ↦
        absurd
          (true≢false (sym h ∙ ap (λ k. starts_with k prefix) (sym ((eq_iff j key).0 same)) ∙ e))
    | inr ne ↦ rw (e, ne) (get-without_prefix prefix key m h)
  ]
]

-- The numbers go up, from above `o`.
abbrev pub Ascending : {E : Type 0} → ℕ → List (ℕ × E) → Type 0
Ascending o [] = Unit
Ascending o ((n, e) ∷ rest) = (o < n) × Ascending n rest

abbrev pub last_nr : {E : Type 0} → ℕ → List (ℕ × E) → ℕ
last_nr o [] = o
last_nr o ((n, e) ∷ rest) = last_nr n rest

module _ {E V : Type 0} (id c : String) (f : V → E → String → V) (initial : V) where
  abbrev pub the_projection : SingleStreamProjection E V
  the_projection = record {
    projection_id = id;
    category = c;
    evolve = total id c f initial;
    initial_state = initial;
  }

  -- The view of the entity `i` that the events make, from the first to the last.
  abbrev pub folded_view : String → List (ℕ × E) → Option (ViewEnvelope V)
  folded_view i [] = none
  folded_view i ((n, e) ∷ rest) = some (record {
    view_id = i;
    view = foldl (λ v x. f v x.1 i) initial ((n, e) ∷ rest);
    sequence_nr = last_nr n rest;
  })

  cleared : (i : String) (s : ProjectionStore V) → slot_at id c f initial i (clear id s) ≡ (0, none)
  unfolding slot_at clear get_offset get_view view_key offset_key or_zero
  cleared i s =
      let prefix = str_append id ":" in
      ap₂ (λ o v. (or_zero o, v))
        (get-without_prefix prefix (offset_key id c i) s.offsets
          (starts_with-append prefix (persistence_key c i)))
        (get-without_prefix prefix (view_key id i) s.views (starts_with-append prefix i))

  envelope : String → V → ℕ → ViewEnvelope V
  envelope i v n = record { view_id = i; view = v; sequence_nr = n }

  advance_next :
      (i : String) (v : V) (o n : ℕ) (e : E)
      → o < n
      → advance id c f initial i (o, some (envelope i v o)) (n, e)
        ≡ (n, some (envelope i (f v e i) n))
  unfolding advance envelope seq_or_zero
  advance_next i v o n e h =
      if_false (leb n o) _ _ (lt→not-leb n o h)
      ∙ ap (λ k. (n, some (envelope i (f v e i) k))) (omega arith)

  advance_first :
      (i : String) (n : ℕ) (e : E)
      → 0 < n
      → advance id c f initial i (0, none) (n, e) ≡ (n, some (envelope i (f initial e i) n))
  unfolding advance envelope seq_or_zero
  advance_first i n e h =
      if_false (leb n 0) _ _ (lt→not-leb n 0 h)
      ∙ ap (λ k. (n, some (envelope i (f initial e i) k))) (omega arith)

  foldl-advance :
      (i : String) (v : V) (o : ℕ) (xs : List (ℕ × E))
      → Ascending o xs
      → foldl (advance id c f initial i) (o, some (envelope i v o)) xs
        ≡ (last_nr o xs, some (envelope i (foldl (λ w x. f w x.1 i) v xs) (last_nr o xs)))
  unfolding advance envelope seq_or_zero
  foldl-advance i v o [] h = refl
  foldl-advance i v o ((n, e) ∷ rest) h =
      ap (λ slot. foldl (advance id c f initial i) slot rest) (advance_next i v o n e h.0)
      ∙ foldl-advance i (f v e i) n rest h.1

  foldl-advance_first :
      (i : String) (xs : List (ℕ × E))
      → Ascending 0 xs
      → foldl (advance id c f initial i) (0, none) xs ≡ (last_nr 0 xs, folded_view i xs)
  unfolding envelope
  foldl-advance_first i [] h = refl
  foldl-advance_first i ((n, e) ∷ rest) h =
      ap (λ slot. foldl (advance id c f initial i) slot rest) (advance_first i n e h.0)
      ∙ foldl-advance i (f initial e i) n rest h.1

module _ {E V J : Type 0} (codec : Codec E J) (id c : String) (f : V → E → String → V)
    (initial : V) where
  pass : Journal J → ProjectionStore V → Bool × ProjectionStore V
  pass = run_projection codec (the_projection id c f initial)

  -- A pass does to the slot of an entity what the entity's events do.
  pass-slot :
      (journal : Journal J) (events : List (String × ℕ × E)) (i : String) (s : ProjectionStore V)
      → all_events codec c journal ≡ some events
      → ((pass journal s).0 ≡ true)
        × (slot_at id c f initial i (pass journal s).1
            ≡ foldl
                (advance id c f initial i)
                (slot_at id c f initial i s)
                (own id c f initial i events))
  unfolding pass run_projection fold_source Evolves
  pass-slot journal events i s h =
      let go = fold_source id (total id c f initial) initial (single_source c) in
      let same : pass journal s ≡ go (some events) s = ap (λ o. go o s) h in
      let (ok, slot) = slot_at-fold_items id c f initial i events s in
      (ap (λ r. r.0) same ∙ ok, ap (λ r. slot_at id c f initial i r.1) same ∙ slot)

  -- A rebuild, whatever the store held: if `evolve` does not throw, the journal decodes and the
  -- events of an entity are numbered upwards from above 0, then the rebuild runs to the end, the
  -- entity's view is the fold of all its events from the initial state, with the number of the last,
  -- its offset is that number, and an entity without events has no view.
  pub rebuild_projection-folded_view :
      (journal : Journal J) (events : List (String × ℕ × E)) (i : String) (s : ProjectionStore V)
      → all_events codec c journal ≡ some events
      → Ascending 0 (own id c f initial i events)
      → let r = rebuild_projection codec (the_projection id c f initial) journal s in
        (r.0 ≡ true)
        × (get_view id i r.1 ≡ folded_view id c f initial i (own id c f initial i events))
        × (get_offset id c i r.1 ≡ last_nr 0 (own id c f initial i events))
  unfolding rebuild_projection pass slot_at
  rebuild_projection-folded_view journal events i s h up =
      let (ok, slot) = pass-slot journal events i (clear id s) h in
      let at =
        slot
        ∙ ap (λ x. foldl (advance id c f initial i) x (own id c f initial i events))
            (cleared id c f initial i s)
        ∙ foldl-advance_first id c f initial i (own id c f initial i events) up in
      (ok, ap (λ x. x.1) at, ap (λ x. x.0) at)

  -- A pass, and a second one over a journal in which the entity's events go on: if `evolve` does not
  -- throw and both journals decode, then the two leave the view and the offset of the entity that the
  -- second alone leaves.
  pub run_projection-incremental :
      (before after : Journal J) (old new : List (String × ℕ × E)) (more : List (ℕ × E))
      (i : String) (s : ProjectionStore V)
      → all_events codec c before ≡ some old
      → all_events codec c after ≡ some new
      → own id c f initial i new ≡ own id c f initial i old ++ more
      → let p = the_projection id c f initial in
        let two = (run_projection codec p after (run_projection codec p before s).1).1 in
        let one = (run_projection codec p after s).1 in
        (get_view id i two ≡ get_view id i one) × (get_offset id c i two ≡ get_offset id c i one)
  unfolding pass slot_at
  run_projection-incremental before after old new more i s h k grows =
      let go = foldl (advance id c f initial i) in
      let at = slot_at id c f initial i in
      let s' = (pass before s).1 in
      let first = (pass-slot before old i s h).1 in
      let again : go (at s') (own id c f initial i old) ≡ at s' =
        sym (pass-slot before old i s' h).1
        ∙ ap (λ r. at r.1) (run_projection_twice codec (the_projection id c f initial) before s) in
      let split : (slot : Slot V)
          → go slot (own id c f initial i new) ≡ go (go slot (own id c f initial i old)) more =
        λ slot.
          ap (go slot) grows
          ∙ foldl-append (advance id c f initial i) slot (own id c f initial i old) more in
      let same : at (pass after s').1 ≡ at (pass after s).1 =
        (pass-slot after new i s' k).1
        ∙ split (at s')
        ∙ ap (λ x. go x more) (again ∙ first)
        ∙ sym (split (at s))
        ∙ sym (pass-slot after new i s k).1 in
      (ap (λ x. x.1) same, ap (λ x. x.0) same)

nested_key :
    (a b v : String)
    → str_append (str_append a ":") (str_append (str_append b ":") v)
      ≡ view_key (persistence_key a b) v
unfolding view_key persistence_key
nested_key a b v =
    append_assoc a ":" (str_append (str_append b ":") v)
    ∙ ap (str_append a) (
        sym (append_assoc ":" (str_append b ":") v)
        ∙ ap (λ x. str_append x v) (sym (append_assoc ":" b ":")))
    ∙ sym (append_assoc a (str_append (str_append ":" b) ":") v)
    ∙ ap (λ x. str_append x v) (sym (append_assoc a (str_append ":" b) ":"))

-- To clear the projection `a` deletes the views of the projection `a:b` too, and the offsets of both
-- go: an entity of `a:b` starts again from offset 0 and without a view.
pub clear_nested :
    {V : Type 0} (a b v c i : String) (s : ProjectionStore V)
    → (get_view (persistence_key a b) v (clear a s) ≡ none)
      × (get_offset (persistence_key a b) c i (clear a s) ≡ 0)
unfolding clear get_view get_offset or_zero offset_key view_key
clear_nested a b v c i s =
    let prefix = str_append a ":" in
    (
      get-without_prefix prefix (view_key (persistence_key a b) v) s.views (
          ap (λ k. starts_with k prefix) (sym (nested_key a b v))
          ∙ starts_with-append prefix (str_append (str_append b ":") v)),
      ap or_zero (
          get-without_prefix prefix (offset_key (persistence_key a b) c i) s.offsets (
            ap (λ k. starts_with k prefix) (sym (nested_key a b (persistence_key c i)))
            ∙ starts_with-append prefix (str_append (str_append b ":") (persistence_key c i)))),
    )
