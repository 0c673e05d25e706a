-- ===== src/NodeFlow/Compile.antt =====
-- `compile` of src/ai/node-flow/def.ts. What it throws is a value; the path of a cycle, which only
-- its message names, is left out. The depth of the search is bounded by the number of nodes.
use teob_ts.Common.{
  ℕ, zero, suc, String, Option, none, some, Bool, true, false, not, ◌&&◌, List, [], ◌∷◌, map, any,
  str_eq, length, filter, if◌then◌else◌,
}
use teob_ts.Common.Maps.{Map, get, set}
use teob_ts.NodeFlow.{NodeFlowDef, CompiledFlow, add}

pub data Color : Type 0 where
  white : Color
  gray : Color
  black : Color

pub data Visited : Type 0 where
  visited : Map Color → Visited
  cycle : Visited
  too_deep : Visited

pub data Compiled (N J : Type 0) : Type 0 where
  compiled : CompiledFlow N J → Compiled N J
  unknown_from : String → Compiled N J
  unknown_to : String → Compiled N J
  cycle_detected : Compiled N J
  no_root_nodes : Compiled N J
  depth_exceeded : Compiled N J

abbrev pub names_at : Option (List String) → List String
names_at none = []
names_at (some names) = names

abbrev pub color_at : Option Color → Color
color_at none = white
color_at (some color) = color

-- The edges so far, or the error of the first one that names an unknown node.
pub data Edges : Type 0 where
  connected : Map (List String) → Map (List String) → Edges
  from_unknown : String → Edges
  to_unknown : String → Edges

unfoldable pub add_edges :
    List String → List (String × String) → Map (List String) → Map (List String) → Edges
unfolding add
add_edges ids [] dependencies dependents = connected dependencies dependents
add_edges ids ((from, to) ∷ edges) dependencies dependents =
    let rest =
      add_edges ids edges (set dependencies to (add from (names_at (get dependencies to))))
        (set dependents from (add to (names_at (get dependents from)))) in
    if not (any (str_eq from) ids)
    then from_unknown from
    else if not (any (str_eq to) ids)
    then to_unknown to
    else rest

-- What follows a search that ran to its end.
abbrev pub visit_next : (Map Color → Visited) → Visited → Visited
visit_next next (visited colors) = next colors
visit_next next cycle = cycle
visit_next next too_deep = too_deep

-- `visit` on each of the names, one after the other.
unfoldable pub visit_each : (String → Map Color → Visited) → List String → Map Color → Visited
visit_each visit [] colors = visited colors
visit_each visit (id ∷ ids) colors =
    visit_next (λ colors'. visit_each visit ids colors') (visit id colors)

abbrev pub blacken : String → Visited → Visited
blacken id (visited colors) = visited (set colors id black)
blacken id cycle = cycle
blacken id too_deep = too_deep

-- The guards of `visit`, and what it does with a white node.
abbrev pub by_color : Color → Map Color → Visited → Visited
by_color gray colors search = cycle
by_color black colors search = visited colors
by_color white colors search = search

unfoldable pub visit : ℕ → Map (List String) → String → Map Color → Visited
unfolding visit_each
visit zero dependents id colors = too_deep
visit (suc fuel) dependents id colors = by_color (color_at (get colors id)) colors (
    blacken id
      (visit_each (visit fuel dependents) (names_at (get dependents id)) (set colors id gray)))

abbrev pub is_empty : List String → Bool
is_empty [] = true
is_empty (_ ∷ _) = false

abbrev pub without_names : Map (List String) → List String → List String
without_names m = filter (λ id. is_empty (names_at (get m id)))

module _ {N J : Type 0} where
  unfoldable pub finish_compile :
      NodeFlowDef N J → List String → Map (List String) → Map (List String) → Compiled N J
  finish_compile def ids dependencies dependents =
      let roots = without_names dependencies ids in
      if not (is_empty ids) && is_empty roots
      then no_root_nodes
      else compiled (record {
        def = def;
        root_nodes = roots;
        terminal_nodes = without_names dependents ids;
        dependencies = dependencies;
        dependents = dependents;
      })

  unfoldable pub after_search : Compiled N J → Visited → Compiled N J
  after_search finished (visited _) = finished
  after_search finished cycle = cycle_detected
  after_search finished too_deep = depth_exceeded

  -- The search over all nodes, once the edges are in.
  unfoldable pub after_edges : NodeFlowDef N J → List String → Edges → Compiled N J
  unfolding visit visit_each after_search
  after_edges def ids (from_unknown from) = unknown_from from
  after_edges def ids (to_unknown to) = unknown_to to
  after_edges def ids (connected dependencies dependents) =
      after_search (finish_compile def ids dependencies dependents)
        (visit_each (visit (suc (length ids)) dependents) ids (map (λ id. (id, white)) ids))

  unfoldable pub compile : NodeFlowDef N J → Compiled N J
  unfolding add_edges after_edges finish_compile
  compile def =
      let ids = map (λ p. p.0) def.nodes in
      let blank : Map (List String) = map (λ id. (id, [])) ids in
      after_edges def ids (add_edges ids def.edges blank blank)
