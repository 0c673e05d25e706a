-- ===== src/NodeFlow.antt =====
-- Node flows: src/ai/node-flow/aggregate.ts, its state and how events change it; def.ts has the
-- compilation. `N` is the type of node definitions and `J` of the values that are no plain objects.
pub mod Compile
pub mod Decide
pub mod Started
pub mod Ready
pub mod Search
pub mod Quiet
pub mod Depth
pub mod Restart
mod Tests
use teob_ts.Common.{
  if◌then◌else◌, ℕ, suc, ◌-◌, String, Option, none, some, Bool, true, false, List, [], ◌∷◌, ◌++◌,
  filter, foldl, any, not, str_eq,
}
use teob_ts.Common.Maps.{Map, get, set}

pub data NodeStatus : Type 0 where
  pending : NodeStatus
  running : NodeStatus
  completed : NodeStatus
  failed : NodeStatus

pub data NodeFlowStatus : Type 0 where
  not_started : NodeFlowStatus
  flow_running : NodeFlowStatus
  flow_completed : NodeFlowStatus
  flow_failed : NodeFlowStatus
  waiting_for_input : NodeFlowStatus

-- The output of a node: an object, whose entries the context takes over, or another value.
pub data Output (J : Type 0) : Type 0 where
  object : Map J → Output J
  other : J → Output J
  null : Output J

-- A set of texts, in the order in which they came.
unfoldable pub add : String → List String → List String
add x xs = if any (str_eq x) xs then xs else xs ++ x ∷ []

pub record NodeFlowDef (N J : Type 0) : Type 0 where
  pub id : String
  pub nodes : Map N
  pub edges : List (String × String)
  pub initial_context : Map J

pub record CompiledFlow (N J : Type 0) : Type 0 where
  pub def : NodeFlowDef N J
  pub root_nodes : List String
  pub terminal_nodes : List String
  pub dependencies : Map (List String)
  pub dependents : Map (List String)

pub record NodeFlowState (N J : Type 0) : Type 0 where
  pub flow_def_id : Option String
  pub status : NodeFlowStatus
  pub node_statuses : Map NodeStatus
  pub node_outputs : Map (Output J)
  pub context : Map J
  pub active_node_count : ℕ
  pub waiting_nodes : List String
  pub compiled : Option (CompiledFlow N J)

pub data NodeFlowEvent (J : Type 0) : Type 0 where
  flow_started : String → Map J → NodeFlowEvent J
  node_started : String → NodeFlowEvent J
  node_succeeded : String → Output J → NodeFlowEvent J
  node_failed : String → String → NodeFlowEvent J
  flow_completed_with : Map J → NodeFlowEvent J
  flow_failed_for : String → NodeFlowEvent J
  waiting_for_input_of : String → NodeFlowEvent J
  child_flow_started : String → String → NodeFlowEvent J
  child_flow_done : String → Output J → NodeFlowEvent J
  message_received : String → Output J → NodeFlowEvent J
  message_sent : String → NodeFlowEvent J

-- `{ ...context, ...entries }`
unfoldable pub spread : {J : Type 0} → Map J → Map J → Map J
spread = foldl (λ m entry. set m entry.0 entry.1)

unfoldable pub merge_output : {J : Type 0} → Map J → Output J → Map J
unfolding spread
merge_output context (object entries) = spread context entries
merge_output context (other value) = context
merge_output context null = context

abbrev pub or_pending : Option NodeStatus → NodeStatus
or_pending none = pending
or_pending (some status) = status

module _ {N J : Type 0} where
  abbrev pub initial : NodeFlowState N J
  initial = record {
    flow_def_id = none;
    status = not_started;
    node_statuses = [];
    node_outputs = [];
    context = [];
    active_node_count = 0;
    waiting_nodes = [];
    compiled = none;
  }

  unfoldable pub apply_event : NodeFlowState N J → NodeFlowEvent J → NodeFlowState N J
  unfolding merge_output add
  apply_event s (flow_started id context) = record s {
    flow_def_id = some id;
    status = flow_running;
    node_outputs = [];
    context = context;
    active_node_count = 0;
    waiting_nodes = [];
  }
  apply_event s (node_started id) = record s {
    node_statuses = set s.node_statuses id running;
    active_node_count = suc s.active_node_count;
  }
  apply_event s (node_succeeded id output) = record s {
    node_statuses = set s.node_statuses id completed;
    node_outputs = set s.node_outputs id output;
    context = merge_output s.context output;
    active_node_count = s.active_node_count - 1;
  }
  apply_event s (node_failed id error) = record s {
    node_statuses = set s.node_statuses id failed;
    active_node_count = s.active_node_count - 1;
  }
  apply_event s (flow_completed_with context) = record s {
    status = flow_completed;
    context = context;
  }
  apply_event s (flow_failed_for reason) = record s { status = flow_failed }
  apply_event s (waiting_for_input_of id) = record s {
    status = waiting_for_input;
    waiting_nodes = add id s.waiting_nodes;
  }
  apply_event s (child_flow_started child parent) = s
  apply_event s (child_flow_done child output) = s
  apply_event s (message_received id message) = record s {
    waiting_nodes = filter (λ x. not (str_eq x id)) s.waiting_nodes;
  }
  apply_event s (message_sent id) = s

  unfoldable pub apply_events : NodeFlowState N J → List (NodeFlowEvent J) → NodeFlowState N J
  unfolding apply_event
  apply_events = foldl apply_event

  -- `state.nodeStatuses.get(id) ?? "pending"`
  unfoldable pub status_of : NodeFlowState N J → String → NodeStatus
  status_of s id = or_pending (get s.node_statuses id)
