-- ===== src/NodeFlow/Restart.antt =====
-- A flow that is started a second time on the same aggregate.
use teob_ts.Common.{ℕ, some, Bool, List, [], ◌∷◌, ◌≡◌, refl, ap, ◌∙◌, if_elim}
use teob_ts.Common.Maps.{Map}
use teob_ts.NodeFlow.{
  NodeFlowDef, CompiledFlow, NodeFlowState, NodeFlowEvent, node_started, flow_started,
  node_succeeded, node_failed, flow_completed_with, flow_failed_for, waiting_for_input_of,
  child_flow_started, child_flow_done, message_received, message_sent, apply_event, apply_events,
}
use teob_ts.NodeFlow.Compile.{
  Compiled, compiled, unknown_from, unknown_to, cycle_detected, no_root_nodes, depth_exceeded,
  compile,
}
use teob_ts.NodeFlow.Decide.{start_flow, decide, decide_start, may_start, get_compiled}
use teob_ts.NodeFlow.Started.{events_of, state_of, registry_of}

module _ {N J : Type 0} where
  apply_event-compiled :
      (s : NodeFlowState N J) (e : NodeFlowEvent J) → (apply_event s e).compiled ≡ s.compiled
  unfolding apply_event
  apply_event-compiled s (flow_started _ _) = refl
  apply_event-compiled s (node_started _) = refl
  apply_event-compiled s (node_succeeded _ _) = refl
  apply_event-compiled s (node_failed _ _) = refl
  apply_event-compiled s (flow_completed_with _) = refl
  apply_event-compiled s (flow_failed_for _) = refl
  apply_event-compiled s (waiting_for_input_of _) = refl
  apply_event-compiled s (child_flow_started _ _) = refl
  apply_event-compiled s (child_flow_done _ _) = refl
  apply_event-compiled s (message_received _ _) = refl
  apply_event-compiled s (message_sent _) = refl

  apply_events-compiled :
      (s : NodeFlowState N J) (es : List (NodeFlowEvent J))
      → (apply_events s es).compiled ≡ s.compiled
  unfolding apply_events
  apply_events-compiled s [] = refl
  apply_events-compiled s (e ∷ es) =
      apply_events-compiled (apply_event s e) es ∙ apply_event-compiled s e

  start-state :
      (s : NodeFlowState N J) (registry : Map (NodeFlowDef N J)) (def : NodeFlowDef N J)
      (given : Map J) (c : Compiled N J)
      → state_of s (decide_start s registry def given c) ≡ s
  unfolding decide_start
  start-state s registry def given (compiled c) = refl
  start-state s registry def given (unknown_from _) = refl
  start-state s registry def given (unknown_to _) = refl
  start-state s registry def given cycle_detected = refl
  start-state s registry def given no_root_nodes = refl
  start-state s registry def given depth_exceeded = refl

decide-state :
    {N J : Type 0} (skips : N → Bool) (of_choice : ℕ → J) (s : NodeFlowState N J)
    (registry : Map (NodeFlowDef N J)) (def : NodeFlowDef N J) (given : Map J)
    → state_of s (decide skips of_choice s registry (start_flow def given)) ≡ s
unfolding decide
decide-state skips of_choice s registry def given =
    if_elim (λ d. state_of s d ≡ s) (may_start s.status)
      (decide_start s registry def given (compile def)) _
      (start-state s registry def given (compile def)) refl

-- A flow that is started on a state that still has a compiled flow, whichever definition it is started
-- with: once the events of the start are applied, the commands that follow see the old compiled flow
-- and not that of the new definition.
pub decide-start_stale :
    {N J : Type 0} (skips : N → Bool) (of_choice : ℕ → J) (s : NodeFlowState N J)
    (registry : Map (NodeFlowDef N J)) (def : NodeFlowDef N J) (given : Map J)
    (old : CompiledFlow N J)
    → s.compiled ≡ some old
    → let d = decide skips of_choice s registry (start_flow def given) in
      get_compiled (apply_events (state_of s d) (events_of d)) (registry_of registry d)
      ≡ some (compiled old)
unfolding get_compiled
decide-start_stale skips of_choice s registry def given old h =
    let d = decide skips of_choice s registry (start_flow def given) in
    let kept : (apply_events (state_of s d) (events_of d)).compiled ≡ some old =
      apply_events-compiled (state_of s d) (events_of d)
      ∙ ap (λ x. x.compiled) (decide-state skips of_choice s registry def given)
      ∙ h in
    rw kept refl
