-- ===== src/NodeFlow/Search.antt =====
-- The search for cycles of `compile`: each deeper call has one node less that is still white.
use mathlib.Core.Bool.{true≢false}
use teob_ts.Common.{
  ℕ, zero, suc, ◌+◌, ◌≤◌, ◌<◌, String, Bool, true, false, List, [], ◌∷◌, ◌≡◌, refl, sym, ap, ◌∙◌,
  arith, any, str_eq, eq_iff, if◌then◌else◌, All, inl, inr, Bool-cases,
}
use teob_ts.Common.Maps.{Map, get, set, get-set}
use teob_ts.NodeFlow.Compile.{
  Color, white, gray, black, Visited, visited, cycle, too_deep, names_at, color_at, visit_each,
  visit_next, by_color, blacken, visit,
}

abbrev is_white : Color → Bool
is_white white = true
is_white _ = false

abbrev pub whites : List String → Map Color → ℕ
whites [] colors = 0
whites (i ∷ ids) colors = (if is_white (color_at (get colors i)) then 1 else 0) + whites ids colors

abbrev pub IsIn : List String → String → Type 0
IsIn ids id = any (str_eq id) ids ≡ true

weight : Color → ℕ
weight c = if is_white c then 1 else 0

-- A node that is no longer white takes no other node's colour.
color_set :
    (colors : Map Color) (id i : String) (c : Color)
    → color_at (get (set colors id c) i) ≡ (if str_eq id i then c else color_at (get colors i))
color_set colors id i c = elim (Bool-cases (str_eq id i)) [
  | inl e ↦ rw (get-set, e) refl
  | inr e ↦ rw (get-set, e) refl
]

whites-set :
    (ids : List String) (colors : Map Color) (id : String) (c : Color)
    → is_white c ≡ false
    → whites ids (set colors id c) ≤ whites ids colors
whites-set [] colors id c h = omega arith
whites-set (i ∷ ids) colors id c h = elim (Bool-cases (str_eq id i)) [
  | inl e ↦ rw (color_set, e, h) (omega (arith, whites-set ids colors id c h))
  | inr e ↦ rw (color_set, e) (omega (arith, whites-set ids colors id c h))
]

whites-set_in :
    (ids : List String) (colors : Map Color) (id : String) (c : Color)
    → is_white c ≡ false
    → color_at (get colors id) ≡ white
    → IsIn ids id
    → whites ids (set colors id c) < whites ids colors
whites-set_in [] colors id c h now in_ids = absurd (true≢false (sym in_ids))
whites-set_in (i ∷ ids) colors id c h now in_ids = elim (Bool-cases (str_eq id i)) [
  | inl e ↦
      let before : color_at (get colors i) ≡ white =
        ap (λ x. color_at (get colors x)) (sym ((eq_iff id i).0 e)) ∙ now in
      rw (color_set, e, h, before) (omega (arith, whites-set ids colors id c h))
  | inr e ↦
      let later : IsIn ids id = rw e at in_ids in
      rw (color_set, e) (omega (arith, whites-set_in ids colors id c h now later))
]

-- The search ended, and made no node white.
abbrev pub IsDone : List String → ℕ → Visited → Type 0
IsDone ids most (visited colors) = whites ids colors ≤ most
IsDone ids most cycle = Unit
IsDone ids most too_deep = ⊥

IsDone-le : (ids : List String) (m n : ℕ) (r : Visited) → m ≤ n → IsDone ids m r → IsDone ids n r
IsDone-le ids m n (visited colors) h done = omega arith
IsDone-le ids m n cycle h done = tt
IsDone-le ids m n too_deep h done = done

-- A visit of any node ends if fewer nodes than `fuel` are white.
unfoldable pub Visits : List String → ℕ → (String → Map Color → Visited) → Type 0
Visits ids fuel go =
    (id : String) (colors : Map Color)
    → IsIn ids id
    → whites ids colors < fuel
    → IsDone ids (whites ids colors) (go id colors)

visit_next-IsDone :
    (ids : List String) (m : ℕ) (next : Map Color → Visited) (r : Visited)
    → IsDone ids m r
    → ((colors : Map Color) → whites ids colors ≤ m → IsDone ids m (next colors))
    → IsDone ids m (visit_next next r)
visit_next-IsDone ids m next (visited colors) done after = after colors done
visit_next-IsDone ids m next cycle done after = tt
visit_next-IsDone ids m next too_deep done after = done

pub visit_each-IsDone :
    (ids : List String) (fuel : ℕ) (go : String → Map Color → Visited)
    → Visits ids fuel go
    → (names : List String) (colors : Map Color) → All (IsIn ids) names
    → whites ids colors < fuel
    → IsDone ids (whites ids colors) (visit_each go names colors)
unfolding visit_each Visits
visit_each-IsDone ids fuel go visits [] colors inside h = omega arith
visit_each-IsDone ids fuel go visits (name ∷ names) colors inside h =
    visit_next-IsDone ids (whites ids colors) (λ c. visit_each go names c) (go name colors)
      (visits name colors inside.0 h)
      (λ c le.
        IsDone-le ids (whites ids c) (whites ids colors) (visit_each go names c) le
          (visit_each-IsDone ids fuel go visits names c inside.1 (omega arith)))

blacken-IsDone :
    (ids : List String) (m : ℕ) (id : String) (r : Visited)
    → IsDone ids m r
    → IsDone ids m (blacken id r)
blacken-IsDone ids m id (visited colors) done = omega (arith, whites-set ids colors id black refl)
blacken-IsDone ids m id cycle done = tt
blacken-IsDone ids m id too_deep done = done

-- The names behind each node are names of nodes.
unfoldable pub IsClosed : List String → Map (List String) → Type 0
IsClosed ids m = (id : String) → All (IsIn ids) (names_at (get m id))

visited_by :
    (ids : List String) (c : Color) (colors : Map Color) (search : Visited)
    → (c ≡ white → IsDone ids (whites ids colors) search)
    → IsDone ids (whites ids colors) (by_color c colors search)
visited_by ids white colors search h = h refl
visited_by ids gray colors search h = tt
visited_by ids black colors search h = omega arith

pub visit-Visits :
    (ids : List String) (dependents : Map (List String)) (fuel : ℕ)
    → IsClosed ids dependents
    → Visits ids fuel (visit fuel dependents)
unfolding Visits visit IsClosed
visit-Visits ids dependents zero closed id colors inside h = absurd (omega arith)
visit-Visits ids dependents (suc fuel) closed id colors inside h =
    visited_by ids (color_at (get colors id)) colors _ (λ now.
      let less = whites-set_in ids colors id gray refl now inside in
      blacken-IsDone ids (whites ids colors) id _ (
        IsDone-le ids (whites ids (set colors id gray)) (whites ids colors) _ (omega (arith, less))
          (visit_each-IsDone ids fuel (visit fuel dependents)
            (visit-Visits ids dependents fuel closed) (names_at (get dependents id))
            (set colors id gray) (closed id) (omega (arith, less)))))
