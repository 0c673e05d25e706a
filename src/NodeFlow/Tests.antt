-- ===== src/NodeFlow/Tests.antt =====
-- Flows of two nodes; a node definition is whether it is skipped when it fails.
use teob_ts.Common.{◌≤◌, ℕ, String, some, Bool, true, false, List, [], ◌∷◌, ◌≡◌, refl, All}
use teob_ts.Common.Maps.{get, set}
use teob_ts.Effect.{and_run, persist}
use teob_ts.NodeFlow.{
  NodeFlowDef, CompiledFlow, NodeFlowState, node_started, node_succeeded, flow_started,
  flow_completed_with, initial, apply_events, null, running, completed, flow_completed,
}
use teob_ts.NodeFlow.Compile.{compiled, compile, cycle_detected, unknown_to}
use teob_ts.NodeFlow.Decide.{
  NodeFlowCommand, start_flow, node_completed, node_failed_with, decide, get_compiled,
  completed_events, fire_nodes, nodes_ready_to_run,
}
use teob_ts.NodeFlow.Started.{
  run_commands, starting_commands, starting_commands-le-one, events_of, state_of, registry_of,
}
use teob_ts.NodeFlow.Depth.{is_too_deep, compile-depth}
use teob_ts.NodeFlow.Ready.{IsDue, completed_events-IsDue}
use teob_ts.NodeFlow.Restart.{decide-start_stale}

abbrev two : String → String → NodeFlowDef Bool ℕ
two a b = record {
  id = a;
  nodes = (a, false) ∷ (b, true) ∷ [];
  edges = (a, b) ∷ [];
  initial_context = [];
}

abbrev graph : String → String → CompiledFlow Bool ℕ
graph a b = record {
  def = two a b;
  root_nodes = a ∷ [];
  terminal_nodes = b ∷ [];
  dependencies = (a, []) ∷ (b, a ∷ []) ∷ [];
  dependents = (a, b ∷ []) ∷ (b, []) ∷ [];
}

compiles : compile (two "a" "b") ≡ compiled (graph "a" "b")
unfolding compile get set
compiles = refl

abbrev looped : NodeFlowDef Bool ℕ
looped = record (two "a" "b") { edges = ("a", "b") ∷ ("b", "a") ∷ [] }

finds_cycle : compile looped ≡ cycle_detected
unfolding compile get set
finds_cycle = refl

abbrev unknown : NodeFlowDef Bool ℕ
unknown = record (two "a" "b") { edges = ("a", "c") ∷ [] }

finds_unknown : compile unknown ≡ unknown_to "c"
unfolding compile get set
finds_unknown = refl

-- The flow runs: `a` is started, its completion starts `b`, and that of `b` completes the flow.
abbrev whole : List (NodeFlowCommand Bool ℕ)
whole = start_flow (two "a" "b") [] ∷ node_completed "a" null ∷ node_completed "b" null ∷ []

runs :
    run_commands (λ n. n) (λ k. k) initial [] whole
    ≡ flow_started "a" []
      ∷ node_started "a"
      ∷ node_succeeded "a" null
      ∷ node_started "b"
      ∷ node_succeeded "b" null
      ∷ flow_completed_with []
      ∷ []
unfolding run_commands get set compile and_run persist
runs = refl

-- The state after that.
abbrev ended : NodeFlowState Bool ℕ
ended = record {
  flow_def_id = some "a";
  status = flow_completed;
  node_statuses = ("a", completed) ∷ ("b", completed) ∷ [];
  node_outputs = [];
  context = [];
  active_node_count = 0;
  waiting_nodes = [];
  compiled = some (graph "a" "b");
}

-- A second run of the same flow: the completion of `a` completes it, and `b` is not started.
restart_completes_early :
    run_commands
      (λ n. n)
      (λ k. k)
      ended
      []
      (start_flow (two "a" "b") [] ∷ node_completed "a" null ∷ [])
    ≡ flow_started "a" [] ∷ node_started "a" ∷ node_succeeded "a" null ∷ flow_completed_with [] ∷ []
unfolding run_commands get set compile and_run persist
restart_completes_early = refl

-- A failed node that its policy skips starts nothing, nor does it complete the flow.
skipped_ends_nothing :
    run_commands
      (λ n. n)
      (λ k. k)
      (record ended { node_statuses = ("a", completed) ∷ ("b", running) ∷ [] })
      []
      (node_failed_with "b" "down" ∷ [])
    ≡ node_succeeded "b" null ∷ []
unfolding run_commands get set compile and_run persist
skipped_ends_nothing = refl

decide-start_stale_example :
    get_compiled
      (apply_events
        (state_of ended (decide (λ n. n) (λ k. k) ended [] (start_flow (two "x" "y") [])))
        (events_of (decide (λ n. n) (λ k. k) ended [] (start_flow (two "x" "y") []))))
      (registry_of [] (decide (λ n. n) (λ k. k) ended [] (start_flow (two "x" "y") [])))
    ≡ some (compiled (graph "a" "b"))
decide-start_stale_example =
    decide-start_stale (λ n. n) (λ k. k) ended [] (two "x" "y") [] (graph "a" "b") refl

starting_commands-le-one_example :
    starting_commands
      (λ n. n)
      (λ k. k)
      initial
      []
      "b"
      (start_flow (two "a" "b") [] ∷ node_completed "a" null ∷ node_completed "a" null ∷ [])
    ≤ 1
starting_commands-le-one_example =
    starting_commands-le-one (λ n. n) (λ k. k) initial [] (start_flow (two "a" "b") [])
      (node_completed "a" null ∷ node_completed "a" null ∷ []) "b" (refl, (refl, tt))

-- One of them starts `b`.
starts_once :
    starting_commands
      (λ n. n)
      (λ k. k)
      initial
      []
      "b"
      (start_flow (two "a" "b") [] ∷ node_completed "a" null ∷ node_completed "a" null ∷ [])
    ≡ 1
unfolding starting_commands get set compile and_run persist
starts_once = refl

abbrev at_a : NodeFlowState Bool ℕ
at_a = record ended { node_statuses = ("a", running) ∷ [] }

completed_events-IsDue_example :
    All
      (IsDue
        (apply_events at_a (node_succeeded "a" null ∷ []))
        (apply_events at_a (
          node_succeeded "a" null
          ∷ (fire_nodes (apply_events at_a (node_succeeded "a" null ∷ [])) (graph "a" "b") (
              nodes_ready_to_run
                (apply_events at_a (node_succeeded "a" null ∷ []))
                (graph "a" "b"))).0))
        (graph "a" "b"))
      (completed_events at_a (graph "a" "b") "a" null).0
completed_events-IsDue_example = completed_events-IsDue at_a (graph "a" "b") "a" null

compile-depth_example : is_too_deep (compile looped) ≡ false
compile-depth_example = compile-depth looped
