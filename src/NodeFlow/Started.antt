-- ===== src/NodeFlow/Started.antt =====
-- When a node of a flow is started: by at most one command of a run.
use mathlib.Core.Path.{subst}
use mathlib.Core.Bool.{true≢false}
use teob_ts.Common.{
  ℕ, String, Option, none, some, Bool, true, false, List, [], ◌∷◌, ◌++◌, ◌≡◌, refl, sym, ap, ◌∙◌,
  All, if_elim, any, ◌+◌, ◌≤◌, arith, Bool-cases, inl, inr,
}
use teob_ts.Common.Maps.{Map}
use teob_ts.Effect.{persist, reply, extract_events}
use teob_ts.NodeFlow.{
  NodeFlowDef, CompiledFlow, NodeFlowState, NodeFlowEvent, node_succeeded, node_failed,
  flow_failed_for, null, apply_events, status_of,
}
use teob_ts.NodeFlow.Compile.{
  Compiled, compiled, unknown_from, unknown_to, cycle_detected, no_root_nodes, depth_exceeded,
}
use teob_ts.NodeFlow.Decide.{
  NodeFlowCommand, start_flow, node_completed, node_failed_with, child_flow_completed, user_message,
  user_choice_response, get_state, Firing, Decided, decided, compile_error, decide, is_pending,
  completed_events, decide_failed, with_compiled, get_compiled,
}
use teob_ts.NodeFlow.Quiet.{
  IsQuiet, apply_events-pending, apply_events-started, completed_events-IsQuiet,
  extract-persist_and_run, starts,
}

-- A command that does not start the flow.
abbrev pub starts_flow : {N J : Type 0} → NodeFlowCommand N J → Bool
starts_flow (start_flow _ _) = true
starts_flow _ = false

abbrev pub events_of : {N J : Type 0} → Decided N J → List (NodeFlowEvent J)
events_of (decided effect s registry) = extract_events effect
events_of compile_error = []

-- What a decision leaves of the state before its events are applied.
abbrev pub state_of : {N J : Type 0} → NodeFlowState N J → Decided N J → NodeFlowState N J
state_of s (decided effect s' registry) = s'
state_of s compile_error = s

abbrev pub registry_of :
    {N J : Type 0} → Map (NodeFlowDef N J) → Decided N J → Map (NodeFlowDef N J)
registry_of registry (decided effect s registry') = registry'
registry_of registry compile_error = registry

abbrev pub count_if : Bool → ℕ
count_if true = 1
count_if false = 0

IsQuiet-any :
    {J : Type 0} (id : String) (es : List (NodeFlowEvent J))
    → IsQuiet id es
    → any (starts id) es ≡ false
IsQuiet-any id [] h = refl
IsQuiet-any id (e ∷ es) h = rw h.0 (IsQuiet-any id es h.1)

module _ {N J : Type 0} (skips : N → Bool) (of_choice : ℕ → J) where
  -- The events of the commands, each of which sees the state that the earlier ones left.
  unfoldable pub run_commands :
      NodeFlowState N J
      → Map (NodeFlowDef N J)
      → List (NodeFlowCommand N J)
      → List (NodeFlowEvent J)
  unfolding decide apply_events extract_events
  run_commands s registry [] = []
  run_commands s registry (command ∷ commands) =
      let d = decide skips of_choice s registry command in
      events_of d
      ++ run_commands (apply_events (state_of s d) (events_of d)) (registry_of registry d) commands

  Quiet : String → NodeFlowState N J → Decided N J → Type 0
  Quiet id s d = IsQuiet id (events_of d) × (status_of (state_of s d) id ≡ status_of s id)

  with_compiled-Quiet :
      (s : NodeFlowState N J) (registry : Map (NodeFlowDef N J))
      (go : CompiledFlow N J → List (NodeFlowEvent J) × List (Firing N J))
      (o : Option (Compiled N J)) (id : String)
      → ((c : CompiledFlow N J) → IsQuiet id (go c).0)
      → Quiet id s (with_compiled skips of_choice s registry go o)
  unfolding with_compiled Quiet extract_events status_of reply
  with_compiled-Quiet s registry go none id h = (tt, refl)
  with_compiled-Quiet s registry go (some (compiled c)) id h =
      (subst (IsQuiet id) (sym (extract-persist_and_run (go c).0 (go c).1)) (h c), refl)
  with_compiled-Quiet s registry go (some (unknown_from _)) id h = (tt, refl)
  with_compiled-Quiet s registry go (some (unknown_to _)) id h = (tt, refl)
  with_compiled-Quiet s registry go (some cycle_detected) id h = (tt, refl)
  with_compiled-Quiet s registry go (some no_root_nodes) id h = (tt, refl)
  with_compiled-Quiet s registry go (some depth_exceeded) id h = (tt, refl)

  decide_failed-IsQuiet :
      (c : CompiledFlow N J) (i message id : String)
      → IsQuiet id (decide_failed skips of_choice c i message)
  unfolding decide_failed
  decide_failed-IsQuiet c i message id =
      if_elim (IsQuiet {J = J} id) _ (node_succeeded i null ∷ [])
        (node_failed i message ∷ flow_failed_for _ ∷ []) (refl, tt) (refl, (refl, tt))

  decide-Quiet :
      (s : NodeFlowState N J) (registry : Map (NodeFlowDef N J)) (command : NodeFlowCommand N J)
      (id : String)
      → starts_flow command ≡ false
      → is_pending (status_of s id) ≡ false
      → Quiet id s (decide skips of_choice s registry command)
  unfolding decide extract_events Quiet persist reply
  decide-Quiet s registry (start_flow def given) id other h = absurd (true≢false other)
  decide-Quiet s registry (node_completed i result) id other h =
      with_compiled-Quiet s registry (λ c. completed_events s c i result) (get_compiled s registry)
        id (λ c. completed_events-IsQuiet s c i id result h)
  decide-Quiet s registry (node_failed_with i message) id other h =
      with_compiled-Quiet s registry (λ c. (decide_failed skips of_choice c i message, []))
        (get_compiled s registry) id (λ c. decide_failed-IsQuiet c i message id)
  decide-Quiet s registry (child_flow_completed _ _) id other h = ((refl, tt), refl)
  decide-Quiet s registry (user_message _ _) id other h = ((refl, (refl, tt)), refl)
  decide-Quiet s registry (user_choice_response _ _) id other h = ((refl, tt), refl)
  decide-Quiet s registry get_state id other h = (tt, refl)

  abbrev next_state :
      NodeFlowState N J → Map (NodeFlowDef N J) → NodeFlowCommand N J → NodeFlowState N J
  next_state s registry command =
      let d = decide skips of_choice s registry command in apply_events (state_of s d) (events_of d)

  abbrev next_registry :
      NodeFlowState N J → Map (NodeFlowDef N J) → NodeFlowCommand N J → Map (NodeFlowDef N J)
  next_registry s registry command =
      registry_of registry (decide skips of_choice s registry command)

  -- How many of the commands start the node, each seeing the state that the earlier ones left.
  unfoldable pub starting_commands :
      NodeFlowState N J → Map (NodeFlowDef N J) → String → List (NodeFlowCommand N J) → ℕ
  unfolding decide apply_events extract_events
  starting_commands s registry id [] = 0
  starting_commands s registry id (command ∷ commands) =
      let d = decide skips of_choice s registry command in
      count_if (any (starts id) (events_of d))
      + starting_commands (apply_events (state_of s d) (events_of d)) (registry_of registry d) id
          commands

  no_starting_commands :
      (s : NodeFlowState N J) (registry : Map (NodeFlowDef N J))
      (commands : List (NodeFlowCommand N J)) (id : String)
      → All (λ command. starts_flow command ≡ false) commands
      → is_pending (status_of s id) ≡ false
      → starting_commands s registry id commands ≡ 0
  unfolding starting_commands Quiet
  no_starting_commands s registry [] id others h = refl
  no_starting_commands s registry (command ∷ commands) id others h =
      let d = decide skips of_choice s registry command in
      let (quiet, same) = decide-Quiet s registry command id others.0 h in
      let rest =
        no_starting_commands (apply_events (state_of s d) (events_of d)) (registry_of registry d)
          commands id others.1
          (apply_events-pending (state_of s d) (events_of d) id (ap is_pending same ∙ h)) in
      omega (arith, ap count_if (IsQuiet-any id (events_of d) quiet), rest)

  first_or_later :
      (s : NodeFlowState N J) (registry : Map (NodeFlowDef N J)) (command : NodeFlowCommand N J)
      (commands : List (NodeFlowCommand N J)) (id : String)
      → All (λ c. starts_flow c ≡ false) commands
      → starting_commands
          (next_state s registry command)
          (next_registry s registry command)
          id
          commands
        ≤ 1
      → starting_commands s registry id (command ∷ commands) ≤ 1
  unfolding starting_commands
  first_or_later s registry command commands id others h =
      let d = decide skips of_choice s registry command in
      elim (Bool-cases (any (starts id) (events_of d))) [
        | inl started ↦
            let none_later =
              no_starting_commands (next_state s registry command)
                (next_registry s registry command) commands id others
                (apply_events-started (state_of s d) (events_of d) id started) in
            omega (arith, ap count_if started, none_later)
        | inr quiet ↦ omega (arith, ap count_if quiet, h)
      ]

  later :
      (s : NodeFlowState N J) (registry : Map (NodeFlowDef N J))
      (commands : List (NodeFlowCommand N J)) (id : String)
      → All (λ command. starts_flow command ≡ false) commands
      → starting_commands s registry id commands ≤ 1
  unfolding starting_commands
  later s registry [] id others = omega arith
  later s registry (command ∷ commands) id others =
      first_or_later s registry command commands id others.1 (
        later (next_state s registry command) (next_registry s registry command) commands id
          others.1)

  -- Whatever state a flow is in, and whatever the first command is: of a sequence of commands of which
  -- only the first may start the flow, at most one starts a given node, however often the completion
  -- or the failure of nodes is told.
  pub starting_commands-le-one :
      (s : NodeFlowState N J) (registry : Map (NodeFlowDef N J)) (command : NodeFlowCommand N J)
      (commands : List (NodeFlowCommand N J)) (id : String)
      → All (λ c. starts_flow c ≡ false) commands
      → starting_commands s registry id (command ∷ commands) ≤ 1
  unfolding starting_commands
  starting_commands-le-one s registry command commands id others =
      first_or_later s registry command commands id others (later _ _ commands id others)
