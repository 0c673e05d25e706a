-- ===== src/NodeFlow/Decide.antt =====
-- `decide` of src/ai/node-flow/aggregate.ts. The side effect that runs a node is a `Firing`; what it
-- tells the flow afterwards is `after_firing`. The registry is the map that the aggregate shares.
use teob_ts.Common.{
  ℕ, String, Option, none, some, Bool, true, false, ◌&&◌, List, [], ◌∷◌, ◌++◌, map, all, filter,
  foldl, str_eq, if◌then◌else◌,
}
use Prim.Native.String.{◌++◌ as str_append}
use teob_ts.Common.Maps.{Map, get, set}
use teob_ts.Effect.{Effect, persist, reply, and_run, and_reply}
use teob_ts.NodeFlow.{
  NodeStatus, pending, completed, NodeFlowStatus, not_started, flow_running, flow_completed,
  flow_failed, Output, object, null, NodeFlowDef, CompiledFlow, NodeFlowState, NodeFlowEvent,
  flow_started, node_started, node_succeeded, node_failed, flow_completed_with, flow_failed_for,
  message_received, child_flow_done, apply_events, status_of, spread,
}
use teob_ts.NodeFlow.Compile.{Compiled, compiled, compile}

pub data NodeFlowCommand (N J : Type 0) : Type 0 where
  start_flow : NodeFlowDef N J → Map J → NodeFlowCommand N J
  node_completed : String → Output J → NodeFlowCommand N J
  node_failed_with : String → String → NodeFlowCommand N J
  child_flow_completed : String → Output J → NodeFlowCommand N J
  user_message : String → Output J → NodeFlowCommand N J
  user_choice_response : String → ℕ → NodeFlowCommand N J
  get_state : NodeFlowCommand N J

pub data NodeFlowReply (N J : Type 0) : Type 0 where
  acknowledged : String → NodeFlowReply N J
  state_snapshot : NodeFlowState N J → NodeFlowReply N J
  error : String → NodeFlowReply N J

-- `exec(def, buildCtx(state))` for a node: what the executor is given.
pub record Firing (N J : Type 0) : Type 0 where
  pub node_id : String
  pub node : N
  pub context : Map J

-- What the executor ends with: a signal, or an exception.
pub data Executed (J : Type 0) : Type 0 where
  signal_completed : Output J → Executed J
  signal_blocking : Executed J
  signal_other : Output J → Executed J
  threw : String → Executed J

-- The command that the side effect tells the flow, where it tells one.
unfoldable pub after_firing :
    {N J : Type 0} → Firing N J → Executed J → Option (NodeFlowCommand N J)
after_firing f (signal_completed output) = some (node_completed f.node_id output)
after_firing f signal_blocking = none
after_firing f (signal_other signal) = some (node_completed f.node_id signal)
after_firing f (threw message) = some (node_failed_with f.node_id message)

abbrev pub FlowEffect : Type 0 → Type 0 → Type 0
FlowEffect N J = Effect (NodeFlowEvent J) (NodeFlowReply N J) (Firing N J) ⊥

-- What `decide` returns, with the registry and the state, whose cache it fills, as it leaves them.
pub data Decided (N J : Type 0) : Type 0 where
  decided : FlowEffect N J → NodeFlowState N J → Map (NodeFlowDef N J) → Decided N J
  -- `compile` throws
  compile_error : Decided N J

unfoldable pub is_pending : NodeStatus → Bool
is_pending pending = true
is_pending _ = false

unfoldable pub is_completed : NodeStatus → Bool
is_completed completed = true
is_completed _ = false

unfoldable pub may_start : NodeFlowStatus → Bool
may_start not_started = true
may_start flow_completed = true
may_start flow_failed = true
may_start _ = false

module _ {N J : Type 0} where
  unfoldable pub is_done : NodeFlowState N J → String → Bool
  unfolding is_completed status_of
  is_done s id = is_completed (status_of s id)

  unfoldable pub nodes_ready_to_run : NodeFlowState N J → CompiledFlow N J → List String
  unfolding is_pending is_done
  nodes_ready_to_run s c =
      map (λ p. p.0)
        (filter (λ p. is_pending (status_of s p.0) && all (is_done s) p.1) c.dependencies)

  -- The events and the side effects of one node, once it is looked up.
  unfoldable pub fire_found :
      NodeFlowState N J → String → Option N → List (NodeFlowEvent J) × List (Firing N J)
  fire_found s id none = (node_failed id "node not found" ∷ [], [])
  fire_found s id (some node) =
      (node_started id ∷ [], record { node_id = id; node = node; context = s.context } ∷ [])

  unfoldable pub fire_node :
      NodeFlowState N J → CompiledFlow N J → String → List (NodeFlowEvent J) × List (Firing N J)
  unfolding fire_found
  fire_node s c id = fire_found s id (get c.def.nodes id)

  unfoldable pub fire_nodes :
      NodeFlowState N J
      → CompiledFlow N J
      → List String
      → List (NodeFlowEvent J) × List (Firing N J)
  unfolding fire_node
  fire_nodes s c [] = ([], [])
  fire_nodes s c (id ∷ ids) =
      let first = fire_node s c id in
      let rest = fire_nodes s c ids in (first.0 ++ rest.0, first.1 ++ rest.1)

  -- `for (const se of sideEffects) eff = andRun(eff, se)`
  unfoldable pub persist_and_run : List (NodeFlowEvent J) → List (Firing N J) → FlowEffect N J
  persist_and_run events firings = foldl and_run (persist events) firings

  unfoldable pub projected :
      NodeFlowState N J → NodeFlowDef N J → CompiledFlow N J → Map J → NodeFlowState N J
  projected s def c context = record s {
    flow_def_id = some def.id;
    status = flow_running;
    node_statuses = map (λ p. (p.0, pending)) c.def.nodes;
    node_outputs = [];
    context = context;
    active_node_count = 0;
    waiting_nodes = [];
    compiled = some c;
  }

  unfoldable pub decide_start :
      NodeFlowState N J
      → Map (NodeFlowDef N J)
      → NodeFlowDef N J
      → Map J
      → Compiled N J
      → Decided N J
  unfolding fire_nodes persist_and_run projected spread and_reply
  decide_start s registry def given (compiled c) =
      let context = spread (spread [] def.initial_context) given in
      let fired = fire_nodes (projected s def c context) c c.root_nodes in
      decided
        (and_reply (persist_and_run (flow_started def.id context ∷ fired.0) fired.1)
          (acknowledged def.id))
        s (set registry def.id def)
  decide_start s registry def given _ = compile_error

  -- `flow_completed`, if there are terminal nodes and all are completed.
  unfoldable pub flow_completed_if : NodeFlowState N J → List String → List (NodeFlowEvent J)
  unfolding is_done
  flow_completed_if s [] = []
  flow_completed_if s (t ∷ ts) =
      if is_done s t && all (is_done s) ts then flow_completed_with s.context ∷ [] else []

  unfoldable pub completion : NodeFlowState N J → CompiledFlow N J → List (NodeFlowEvent J)
  unfolding flow_completed_if
  completion s c = flow_completed_if s c.terminal_nodes

  -- The events and the side effects of a node's completion.
  unfoldable pub completed_events :
      NodeFlowState N J
      → CompiledFlow N J
      → String
      → Output J
      → List (NodeFlowEvent J) × List (Firing N J)
  unfolding fire_nodes nodes_ready_to_run completion apply_events
  completed_events s c id result =
      let succeeded : List (NodeFlowEvent J) = node_succeeded id result ∷ [] in
      let after = apply_events s succeeded in
      let fired = fire_nodes after c (nodes_ready_to_run after c) in
      let events = succeeded ++ fired.0 in (events ++ completion (apply_events s events) c, fired.1)

  unfoldable pub get_compiled : NodeFlowState N J → Map (NodeFlowDef N J) → Option (Compiled N J)
  unfolding compile
  get_compiled s registry = elim s.compiled [
    | some c ↦ some (compiled c)
    | none ↦ elim s.flow_def_id [
      | none ↦ none
      -- `!state.flowDefId` holds of the empty id too.
      | some id ↦
          if str_eq id ""
          then none
          else elim (get registry id) [ none ↦ none | some def ↦ some (compile def) ]
    ]
  ]

-- `skips` tells whether a node's `errorPolicy` is `skip`; `of_choice` is the value of a choice.
module _ {N J : Type 0} (skips : N → Bool) (of_choice : ℕ → J) where
  abbrev skips_at : Option N → Bool
  skips_at none = false
  skips_at (some node) = skips node

  unfoldable pub decide_failed : CompiledFlow N J → String → String → List (NodeFlowEvent J)
  decide_failed c id message =
      if skips_at (get c.def.nodes id)
      then node_succeeded id null ∷ []
      else node_failed id message
        ∷ flow_failed_for (str_append "node " (str_append id (str_append " failed: " message)))
        ∷ []

  unfoldable pub with_compiled :
      NodeFlowState N J
      → Map (NodeFlowDef N J)
      → (CompiledFlow N J → List (NodeFlowEvent J) × List (Firing N J))
      → Option (Compiled N J)
      → Decided N J
  unfolding persist_and_run
  with_compiled s registry go none = decided (reply (error "no flow running")) s registry
  with_compiled s registry go (some (compiled c)) =
      decided (persist_and_run (go c).0 (go c).1) (record s { compiled = some c }) registry
  with_compiled s registry go (some _) = compile_error

  unfoldable pub decide :
      NodeFlowState N J → Map (NodeFlowDef N J) → NodeFlowCommand N J → Decided N J
  unfolding decide_start completed_events decide_failed with_compiled get_compiled may_start
  decide s registry (start_flow def given) =
      if may_start s.status
      then decide_start s registry def given (compile def)
      else decided (reply (error "flow already running")) s registry
  decide s registry (node_completed id result) =
      with_compiled s registry (λ c. completed_events s c id result) (get_compiled s registry)
  decide s registry (node_failed_with id message) =
      with_compiled s registry (λ c. (decide_failed c id message, [])) (get_compiled s registry)
  decide s registry (child_flow_completed child result) =
      decided (persist (child_flow_done child result ∷ [])) s registry
  decide s registry (user_message id message) =
      decided (persist (message_received id message ∷ node_succeeded id message ∷ [])) s registry
  decide s registry (user_choice_response id choice) =
      decided (persist (node_succeeded id (object (("choice", of_choice choice) ∷ [])) ∷ [])) s
        registry
  decide s registry get_state = decided (reply (state_snapshot s)) s registry
