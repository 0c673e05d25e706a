-- ===== src/NodeFlow/Quiet.antt =====
-- What events do to a node that is not pending, and that a completion does not start it.
use mathlib.Core.Bool.{true≢false}
use teob_ts.Common.{
  String, Option, none, some, Bool, true, false, ◌&&◌, List, [], ◌∷◌, ◌++◌, ◌≡◌, refl, sym, ap, ◌∙◌,
  map, all, any, ◌||◌, filter, foldl, str_eq, eq_iff, All, All-append, append-nil, inl, inr,
  Bool-cases, if_elim, if_true, if_false,
}
use teob_ts.Common.Maps.{Map, get, set, get-set}
use teob_ts.Effect.{
  persist, and_run, append_to_chain, run_then, done_now, extract_events, persist_then, reply_with,
  deferred_with, snapshot_then, unstash_then, stop_now, stash_now,
}
use teob_ts.NodeFlow.{
  or_pending, NodeStatus, running, completed, failed, CompiledFlow, NodeFlowState, NodeFlowEvent,
  node_started, flow_started, node_succeeded, node_failed, flow_completed_with, flow_failed_for,
  waiting_for_input_of, child_flow_started, child_flow_done, message_received, message_sent,
  apply_event, apply_events, status_of, Output,
}
use teob_ts.NodeFlow.Decide.{
  fire_found, flow_completed_if, Firing, FlowEffect, is_pending, is_done, nodes_ready_to_run,
  fire_node, fire_nodes, persist_and_run, completed_events, completion,
}

-- The event starts the node `id`.
abbrev pub starts : {J : Type 0} → String → NodeFlowEvent J → Bool
starts id (node_started i) = str_eq i id
starts id _ = false

abbrev pub NotNamed : String → List String → Type 0
NotNamed id = All (λ name. str_eq name id ≡ false)

-- No event starts the node `id`.
abbrev pub IsQuiet : {J : Type 0} → String → List (NodeFlowEvent J) → Type 0
IsQuiet id = All (λ e. starts id e ≡ false)

module _ {N J : Type 0} where
  extract-run :
      (e : FlowEffect N J) (f : Firing N J)
      → extract_events (append_to_chain e (run_then f done_now)) ≡ extract_events e
  unfolding extract_events append_to_chain
  extract-run (persist_then es rest) f = ap (λ l. es ++ l) (extract-run rest f)
  extract-run (run_then a rest) f = extract-run rest f
  extract-run (snapshot_then rest) f = extract-run rest f
  extract-run (unstash_then rest) f = extract-run rest f
  extract-run (reply_with v) f = refl
  extract-run (deferred_with d) f = refl
  extract-run stop_now f = refl
  extract-run stash_now f = refl
  extract-run done_now f = refl

  extract-runs :
      (e : FlowEffect N J) (fs : List (Firing N J))
      → extract_events (foldl and_run e fs) ≡ extract_events e
  unfolding and_run
  extract-runs e [] = refl
  extract-runs e (f ∷ fs) = extract-runs (and_run e f) fs ∙ extract-run e f

  pub extract-persist_and_run :
      (es : List (NodeFlowEvent J)) (fs : List (Firing N J))
      → extract_events (persist_and_run {N = N} es fs) ≡ es
  unfolding persist_and_run persist extract_events
  extract-persist_and_run es fs = extract-runs (persist es) fs ∙ append-nil es

  -- A node that is not pending never is again, but by a start of the flow.
  status_of-set :
      (s : NodeFlowState N J) (i id : String) (m : Map NodeStatus) (status : NodeStatus)
      → is_pending status ≡ false
      → is_pending (status_of (record s { node_statuses = m }) id) ≡ false
      → is_pending (status_of (record s { node_statuses = set m i status }) id) ≡ false
  unfolding status_of
  status_of-set s i id m status h before = elim (Bool-cases (str_eq i id)) [
    | inl same ↦
        ap (λ o. is_pending (or_pending o))
          (get-set m i id status ∙ if_true (str_eq i id) _ (get m id) same)
        ∙ h
    | inr ne ↦
        ap (λ o. is_pending (or_pending o))
          (get-set m i id status ∙ if_false (str_eq i id) (some status) _ ne)
        ∙ before
  ]

  apply_event-pending :
      (s : NodeFlowState N J) (e : NodeFlowEvent J) (id : String)
      → is_pending (status_of s id) ≡ false
      → is_pending (status_of (apply_event s e) id) ≡ false
  unfolding apply_event status_of is_pending
  apply_event-pending s (flow_started _ _) id h = h
  apply_event-pending s (node_started i) id h = status_of-set s i id s.node_statuses running refl h
  apply_event-pending s (node_succeeded i _) id h =
      status_of-set s i id s.node_statuses completed refl h
  apply_event-pending s (node_failed i _) id h = status_of-set s i id s.node_statuses failed refl h
  apply_event-pending s (flow_completed_with _) id h = h
  apply_event-pending s (flow_failed_for _) id h = h
  apply_event-pending s (waiting_for_input_of _) id h = h
  apply_event-pending s (child_flow_started _ _) id h = h
  apply_event-pending s (child_flow_done _ _) id h = h
  apply_event-pending s (message_received _ _) id h = h
  apply_event-pending s (message_sent _) id h = h

  pub apply_events-pending :
      (s : NodeFlowState N J) (es : List (NodeFlowEvent J)) (id : String)
      → is_pending (status_of s id) ≡ false
      → is_pending (status_of (apply_events s es) id) ≡ false
  unfolding apply_events
  apply_events-pending s [] id h = h
  apply_events-pending s (e ∷ es) id h =
      apply_events-pending (apply_event s e) es id (apply_event-pending s e id h)

  apply_event-started :
      (s : NodeFlowState N J) (e : NodeFlowEvent J) (id : String)
      → starts id e ≡ true
      → is_pending (status_of (apply_event s e) id) ≡ false
  unfolding apply_event status_of is_pending
  apply_event-started s (node_started i) id h =
      ap (λ o. is_pending (or_pending o))
        (get-set s.node_statuses i id running ∙ if_true (str_eq i id) _ (get s.node_statuses id) h)
  apply_event-started s (flow_started _ _) id h = absurd (true≢false (sym h))
  apply_event-started s (node_succeeded _ _) id h = absurd (true≢false (sym h))
  apply_event-started s (node_failed _ _) id h = absurd (true≢false (sym h))
  apply_event-started s (flow_completed_with _) id h = absurd (true≢false (sym h))
  apply_event-started s (flow_failed_for _) id h = absurd (true≢false (sym h))
  apply_event-started s (waiting_for_input_of _) id h = absurd (true≢false (sym h))
  apply_event-started s (child_flow_started _ _) id h = absurd (true≢false (sym h))
  apply_event-started s (child_flow_done _ _) id h = absurd (true≢false (sym h))
  apply_event-started s (message_received _ _) id h = absurd (true≢false (sym h))
  apply_event-started s (message_sent _) id h = absurd (true≢false (sym h))

  -- A node that one of the events starts is not pending behind them.
  pub apply_events-started :
      (s : NodeFlowState N J) (es : List (NodeFlowEvent J)) (id : String)
      → any (starts id) es ≡ true
      → is_pending (status_of (apply_events s es) id) ≡ false
  unfolding apply_events
  apply_events-started s [] id h = absurd (true≢false (sym h))
  apply_events-started s (e ∷ es) id h = elim (Bool-cases (starts id e)) [
    | inl now ↦ apply_events-pending (apply_event s e) es id (apply_event-started s e id now)
    | inr not_yet ↦
        apply_events-started (apply_event s e) es id
          (sym (ap (λ b. b || any (starts id) es) not_yet) ∙ h)
  ]

  fire_found-IsQuiet :
      (s : NodeFlowState N J) (name : String) (o : Option N) (id : String)
      → str_eq name id ≡ false
      → IsQuiet id (fire_found s name o).0
  unfolding fire_found
  fire_found-IsQuiet s name none id h = (refl, tt)
  fire_found-IsQuiet s name (some node) id h = (h, tt)

  fire_nodes-IsQuiet :
      (s : NodeFlowState N J) (c : CompiledFlow N J) (names : List String) (id : String)
      → NotNamed id names
      → IsQuiet id (fire_nodes s c names).0
  unfolding fire_nodes fire_node
  fire_nodes-IsQuiet s c [] id h = tt
  fire_nodes-IsQuiet s c (name ∷ names) id h =
      All-append (λ e. starts id e ≡ false) (fire_found s name (get c.def.nodes name)).0 _
        (fire_found-IsQuiet s name (get c.def.nodes name) id h.0)
        (fire_nodes-IsQuiet s c names id h.1)

  unnamed :
      (s : NodeFlowState N J) (name id : String) (b d : Bool)
      → (b && d) ≡ true
      → is_pending (status_of s name) ≡ b
      → is_pending (status_of s id) ≡ false
      → str_eq name id ≡ false
  unnamed s name id false d ready same h = absurd (true≢false (sym ready))
  unnamed s name id true d ready same h = elim (Bool-cases (str_eq name id)) [
    | inl e ↦
        absurd
          (true≢false (sym same ∙ ap (λ i. is_pending (status_of s i)) ((eq_iff name id).0 e) ∙ h))
    | inr ne ↦ ne
  ]

  ready-NotNamed :
      (s : NodeFlowState N J) (deps : Map (List String)) (id : String)
      → is_pending (status_of s id) ≡ false
      → NotNamed id
          (map (λ p. p.0) (filter (λ p. is_pending (status_of s p.0) && all (is_done s) p.1) deps))
  ready-NotNamed s [] id h = tt
  ready-NotNamed s ((name, d) ∷ deps) id h =
      elim (Bool-cases (is_pending (status_of s name) && all (is_done s) d)) [
        | inr kept ↦ rw kept (ready-NotNamed s deps id h)
        | inl ready ↦ rw ready (
          unnamed s name id (is_pending (status_of s name)) (all (is_done s) d) ready refl h,
          ready-NotNamed s deps id h,
        )
      ]

  terminals :
      (s : NodeFlowState N J) (ts : List String) (id : String) → IsQuiet id (flow_completed_if s ts)
  unfolding flow_completed_if
  terminals s [] id = tt
  terminals s (t ∷ ts) id =
      if_elim (IsQuiet id) (is_done s t && all (is_done s) ts) _ _ (refl, tt) tt

  completion-IsQuiet :
      (s : NodeFlowState N J) (c : CompiledFlow N J) (id : String) → IsQuiet id (completion s c)
  unfolding completion
  completion-IsQuiet s c id = terminals s c.terminal_nodes id

  pub completed_events-IsQuiet :
      (s : NodeFlowState N J) (c : CompiledFlow N J) (i id : String) (result : Output J)
      → is_pending (status_of s id) ≡ false
      → IsQuiet id (completed_events s c i result).0
  unfolding completed_events nodes_ready_to_run
  completed_events-IsQuiet s c i id result h =
      let succeeded : List (NodeFlowEvent J) = node_succeeded i result ∷ [] in
      let after = apply_events s succeeded in
      let ready = nodes_ready_to_run after c in
      let later = apply_events-pending s succeeded id h in
      let fired =
        fire_nodes-IsQuiet after c ready id (ready-NotNamed after c.dependencies id later) in
      (
        refl,
        All-append (λ e. starts id e ≡ false) (fire_nodes after c ready).0 _ fired
            (completion-IsQuiet (apply_events s (succeeded ++ (fire_nodes after c ready).0)) c id),
      )
