-- ===== src/NodeFlow/Ready.antt =====
-- What a node's completion starts: nodes whose dependencies are completed, and nothing else.
use teob_ts.Common.{
  String, Option, none, some, Bool, true, false, ◌&&◌, List, [], ◌∷◌, ◌≡◌, refl, ap, ◌∙◌, map, all,
  filter, All, All-append, inl, inr, ◌⊎◌, Bool-cases,
}
use teob_ts.Common.Maps.{Map, get}
use teob_ts.NodeFlow.{
  CompiledFlow, NodeFlowState, NodeFlowEvent, node_started, flow_completed_with, node_succeeded,
  apply_events, status_of, Output,
}
use teob_ts.NodeFlow.Decide.{
  fire_found, is_pending, is_done, nodes_ready_to_run, fire_node, fire_nodes, completed_events,
  completion, flow_completed_if,
}

abbrev pub Listed : {A : Type 0} → A → List A → Type 0
Listed a [] = ⊥
Listed a (x ∷ xs) = (x ≡ a) ⊎ Listed a xs

both : (a b : Bool) → (a && b) ≡ true → (a ≡ true) × (b ≡ true)
both true b h = (refl, h)
both false b h = cc

module _ {N J : Type 0} where
  -- The node waits, and all that it depends on is completed.
  unfoldable pub IsReady : NodeFlowState N J → CompiledFlow N J → String → Type 0
  IsReady s c name =
      (is_pending (status_of s name) ≡ true)
      × ((deps : List String) × Listed (name, deps) c.dependencies × (all (is_done s) deps ≡ true))

  -- What must hold of the state for the event: all terminal nodes are completed where the flow is.
  unfoldable pub IsDue :
      NodeFlowState N J → NodeFlowState N J → CompiledFlow N J → NodeFlowEvent J → Type 0
  IsDue before after c (node_started name) = IsReady before c name
  IsDue before after c (flow_completed_with context) =
      (all (is_done after) c.terminal_nodes ≡ true) × (context ≡ after.context)
  IsDue before after c _ = Unit

  filter-IsReady :
      (s : NodeFlowState N J) (c : CompiledFlow N J) (deps : Map (List String))
      → ((p : String × List String) → Listed p deps → Listed p c.dependencies)
      → All
          (IsReady s c)
          (map (λ p. p.0) (filter (λ p. is_pending (status_of s p.0) && all (is_done s) p.1) deps))
  unfolding IsReady
  filter-IsReady s c [] inside = tt
  filter-IsReady s c ((name, d) ∷ deps) inside =
      elim (Bool-cases (is_pending (status_of s name) && all (is_done s) d)) [
        | inr kept ↦ rw kept (filter-IsReady s c deps (λ p h. inside p (inr h)))
        | inl ready ↦ rw ready (
          ((both _ _ ready).0, (d, inside (name, d) (inl refl), (both _ _ ready).1)),
          filter-IsReady s c deps (λ p h. inside p (inr h)),
        )
      ]

  fire_found-IsDue :
      (s after : NodeFlowState N J) (c : CompiledFlow N J) (name : String) (o : Option N)
      → IsReady s c name
      → All (IsDue s after c) (fire_found s name o).0
  unfolding fire_found IsDue
  fire_found-IsDue s after c name none h = (tt, tt)
  fire_found-IsDue s after c name (some node) h = (h, tt)

  fire_nodes-IsDue :
      (s after : NodeFlowState N J) (c : CompiledFlow N J) (names : List String)
      → All (IsReady s c) names
      → All (IsDue s after c) (fire_nodes s c names).0
  unfolding fire_nodes fire_node
  fire_nodes-IsDue s after c [] h = tt
  fire_nodes-IsDue s after c (name ∷ names) h =
      All-append (IsDue s after c) (fire_found s name (get c.def.nodes name)).0 _
        (fire_found-IsDue s after c name (get c.def.nodes name) h.0)
        (fire_nodes-IsDue s after c names h.1)

  completion-IsDue :
      (s after : NodeFlowState N J) (c : CompiledFlow N J) (ts : List String)
      → c.terminal_nodes ≡ ts
      → All (IsDue s after c) (flow_completed_if after ts)
  unfolding flow_completed_if IsDue
  completion-IsDue s after c [] same = tt
  completion-IsDue s after c (t ∷ ts) same = elim (Bool-cases (all (is_done after) (t ∷ ts))) [
    | inl h ↦ rw h ((ap (all (is_done after)) same ∙ h, refl), tt)
    | inr h ↦ rw h tt
  ]

  -- A node's completion: every node that it starts is pending once the completion is recorded and all
  -- its dependencies are completed then, and it completes the flow only if all terminal nodes are
  -- completed after all that it starts, with the context of that state.
  pub completed_events-IsDue :
      (s : NodeFlowState N J) (c : CompiledFlow N J) (id : String) (result : Output J)
      → let before = apply_events s (node_succeeded id result ∷ []) in
        let fired = fire_nodes before c (nodes_ready_to_run before c) in
        let after = apply_events s (node_succeeded id result ∷ fired.0) in
        All (IsDue before after c) (completed_events s c id result).0
  unfolding completed_events nodes_ready_to_run completion IsDue
  completed_events-IsDue s c id result =
      let before = apply_events s (node_succeeded id result ∷ []) in
      let fired = (fire_nodes before c (nodes_ready_to_run before c)).0 in
      let after = apply_events s (node_succeeded id result ∷ fired) in
      (
        tt,
        All-append (IsDue before after c) fired _
            (fire_nodes-IsDue before after c (nodes_ready_to_run before c)
              (filter-IsReady before c c.dependencies (λ p h. h)))
            (completion-IsDue before after c c.terminal_nodes refl),
      )
