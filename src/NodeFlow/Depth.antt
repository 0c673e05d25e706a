-- ===== src/NodeFlow/Depth.antt =====
-- The search for cycles of `compile` always comes to its end: the edges lead to known nodes only.
use teob_ts.Common.{
  ℕ, suc, ◌≤◌, String, Bool, true, false, not, List, [], ◌∷◌, ◌++◌, ◌≡◌, refl, arith, map, any,
  length, str_eq, eq_refl, if◌then◌else◌, if_elim, All, All-append, inl, inr, Bool-cases,
}
use teob_ts.Common.Maps.{Map, get, set, get-set}
use teob_ts.NodeFlow.{NodeFlowDef, add}
use mathlib.Core.Bool.{◌&&◌}
use teob_ts.NodeFlow.Compile.{
  is_empty, without_names, Color, white, Visited, visited, cycle, too_deep, Compiled,
  depth_exceeded, names_at, Edges, connected, from_unknown, to_unknown, add_edges, visit_each,
  after_edges, after_search, visit, finish_compile, compile,
}
use teob_ts.NodeFlow.Search.{IsClosed, IsDone, IsIn, visit-Visits, visit_each-IsDone, whites}

blank-IsClosed : (ids names : List String) → IsClosed ids (map (λ id. (id, [])) names)
unfolding IsClosed get
blank-IsClosed ids [] id = tt
blank-IsClosed ids (name ∷ names) id = elim (Bool-cases (str_eq name id)) [
  | inl e ↦ rw e tt
  | inr e ↦ rw e (blank-IsClosed ids names id)
]

set-IsClosed :
    (ids : List String) (m : Map (List String)) (from : String) (names : List String)
    → IsClosed ids m
    → All (IsIn ids) names
    → IsClosed ids (set m from names)
unfolding IsClosed
set-IsClosed ids m from names closed inside id = elim (Bool-cases (str_eq from id)) [
  | inl e ↦ rw (get-set, e) inside
  | inr e ↦ rw (get-set, e) (closed id)
]

All-add :
    (ids : List String) (x : String) (xs : List String)
    → All (IsIn ids) xs
    → IsIn ids x
    → All (IsIn ids) (add x xs)
unfolding add
All-add ids x xs inside h =
    if_elim (All (IsIn ids)) (any (str_eq x) xs) xs (xs ++ x ∷ []) inside
      (All-append (IsIn ids) xs (x ∷ []) inside (h, tt))

abbrev EdgesClosed : List String → Edges → Type 0
EdgesClosed ids (connected dependencies dependents) = IsClosed ids dependents
EdgesClosed ids (from_unknown _) = Unit
EdgesClosed ids (to_unknown _) = Unit

at_name :
    (ids : List String) (m : Map (List String)) (id : String)
    → IsClosed ids m
    → All (IsIn ids) (names_at (get m id))
unfolding IsClosed
at_name ids m id closed = closed id

checked_to :
    (ids : List String) (to : String) (b : Bool) (rest : Edges)
    → (b ≡ true → EdgesClosed ids rest)
    → EdgesClosed ids (if not b then to_unknown to else rest)
checked_to ids to true rest h = h refl
checked_to ids to false rest h = tt

add_edges-EdgesClosed :
    (ids : List String) (edges : List (String × String))
    (dependencies dependents : Map (List String))
    → IsClosed ids dependents
    → EdgesClosed ids (add_edges ids edges dependencies dependents)
unfolding add_edges
add_edges-EdgesClosed ids [] dependencies dependents closed = closed
add_edges-EdgesClosed ids ((from, to) ∷ edges) dependencies dependents closed =
    let rest = λ (inside : IsIn ids to).
      add_edges-EdgesClosed ids edges
        (set dependencies to (add from (names_at (get dependencies to))))
        (set dependents from (add to (names_at (get dependents from))))
        (set-IsClosed ids dependents from (add to (names_at (get dependents from))) closed (
          All-add ids to (names_at (get dependents from)) (at_name ids dependents from closed)
            inside)) in
    if_elim (EdgesClosed ids) (not (any (str_eq from) ids)) (from_unknown from) _ tt
      (checked_to ids to (any (str_eq to) ids) _ rest)

All-IsIn_tail :
    (x : String) (ids names : List String) → All (IsIn ids) names → All (IsIn (x ∷ ids)) names
All-IsIn_tail x ids [] h = tt
All-IsIn_tail x ids (name ∷ names) h = (ground (arith, h.0), All-IsIn_tail x ids names h.1)

All-IsIn : (ids : List String) → All (IsIn ids) ids
All-IsIn [] = tt
All-IsIn (x ∷ ids) = (ground (arith, eq_refl x), All-IsIn_tail x ids ids (All-IsIn ids))

whites-le-length : (ids : List String) (colors : Map Color) → whites ids colors ≤ length ids
whites-le-length [] colors = omega arith
whites-le-length (i ∷ ids) colors = ground (arith, whites-le-length ids colors)

module _ {N J : Type 0} where
  abbrev pub is_too_deep : Compiled N J → Bool
  is_too_deep depth_exceeded = true
  is_too_deep _ = false

  finish_compile-depth :
      (def : NodeFlowDef N J) (ids : List String) (dependencies dependents : Map (List String))
      → is_too_deep (finish_compile def ids dependencies dependents) ≡ false
  unfolding finish_compile
  finish_compile-depth def ids dependencies dependents =
      elim (Bool-cases (not (is_empty ids) && is_empty (without_names dependencies ids))) [
        | inl h ↦ rw h refl
        | inr h ↦ rw h refl
      ]

  after_search-depth :
      (ids : List String) (m : ℕ) (finished : Compiled N J) (r : Visited)
      → is_too_deep finished ≡ false
      → IsDone ids m r
      → is_too_deep (after_search finished r) ≡ false
  unfolding after_search
  after_search-depth ids m finished (visited _) h done = h
  after_search-depth ids m finished cycle h done = refl
  after_search-depth ids m finished too_deep h done = absurd done

  after_edges-depth :
      (def : NodeFlowDef N J) (ids : List String) (edges : Edges)
      → EdgesClosed ids edges
      → is_too_deep (after_edges def ids edges) ≡ false
  unfolding after_edges
  after_edges-depth def ids (from_unknown _) closed = refl
  after_edges-depth def ids (to_unknown _) closed = refl
  after_edges-depth def ids (connected dependencies dependents) closed =
      let fuel = suc (length ids) in
      let colors : Map Color = map (λ id. (id, white)) ids in
      after_search-depth ids (whites ids colors) (finish_compile def ids dependencies dependents)
        (visit_each (visit fuel dependents) ids colors)
        (finish_compile-depth def ids dependencies dependents)
        (visit_each-IsDone ids fuel (visit fuel dependents)
          (visit-Visits ids dependents fuel closed) ids colors (All-IsIn ids)
          (omega (arith, whites-le-length ids colors)))

  -- The compilation of every definition of a flow comes to its end: whatever the edges, cyclic or not,
  -- the search for cycles is never cut off at the depth that bounds it.
  pub compile-depth : (def : NodeFlowDef N J) → is_too_deep (compile def) ≡ false
  unfolding compile
  compile-depth def =
      let ids = map (λ p. p.0) def.nodes in
      let blank : Map (List String) = map (λ id. (id, [])) ids in
      after_edges-depth def ids (add_edges ids def.edges blank blank)
        (add_edges-EdgesClosed ids def.edges blank blank (blank-IsClosed ids ids))
