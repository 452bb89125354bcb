-- ===== src/Examples/Tasks.antt =====
-- The task graph at concrete inputs.
use aihi.Prelude.{
  ℕ, String, ◌≡◌, ◌≢◌, refl, true, Option, none, some, List, [], ◌∷◌, Result, ok, err,
  recursion_error, agent_validation_error, contains, arith,
}
use aihi.Json.{pos, end}
use aihi.Text.{strip}
use aihi.Dict
use aihi.Agents.Types.{
  AgentState, AgentBudget, TaskSpec, TaskNode, TaskResult, terminal, text_of, new_spec, new_result,
  is_subset_of,
}
use aihi.Agents.Graph.{
  Fresh, TaskGraph, create_root, get, spawn, spawn_spec, transition, transitions, result_of,
  any_active, emit,
}
use aihi.Agents.Graph.Validity.{IsValid}
use aihi.Agents.Graph.Transitions.{transition-IsValid}
use aihi.Agents.Graph.Adoption.{spawn-IsValid}
use aihi.Agents.Graph.Authority.{child, HasLess, spawn-HasLess}
use aihi.Agents.Graph.Roots.{create_root-IsValid}
use aihi.Agents.Sweep.{sweep, interrupt, interrupt_descendants, cancel, cancel_descendants}
use aihi.Agents.Validate.{validate_graph, check_nodes, check_node, check_child, visit}
use aihi.Agents.Validate.Checked.{IsChecked, validate_graph-IsChecked}
use aihi.Agents.Sweep.Kept.{cancel-IsValid}
use aihi.Agents.Sweep.Fuel.{cancel_ends}
use aihi.Agents.Sweep.Ended.{IsEnded, cancel-IsEnded}

tasks : Unit {0}
unfolding create_root spawn spawn_spec transition transitions result_of any_active emit get text_of
    new_spec new_result is_subset_of terminal strip Dict.lookup Dict.insert sweep interrupt
    interrupt_descendants cancel cancel_descendants
tasks = tt

abbrev budget : AgentBudget
budget = record {
  max_tokens = pos 8192;
  max_cost_usd = none;
  timeout_seconds = pos 600;
  max_tool_calls = pos 100;
}

abbrev fresh : String → String → Fresh
fresh task run = record { task_id = task; run_id = run; now = "now" }

abbrev blank : TaskGraph
blank = record { session_id = none; has_sink = true; nodes = []; roots = []; sent = [] }

abbrev graph_or : TaskGraph → Result (TaskNode × TaskGraph) → TaskGraph
graph_or d (ok (n, g)) = g
graph_or d (err x) = d

abbrev spec : String → String → String → Option String → List String → ℕ → TaskSpec
spec task run parent_run parent capabilities depth = record {
  parent_run_id = parent_run;
  objective = "Look";
  budget = budget;
  task_id = task;
  child_run_id = run;
  parent_task_id = parent;
  constraints = [];
  capabilities = capabilities;
  depth = depth;
  max_depth = 2;
  max_children = 1;
  metadata = end;
  created_at = "now";
}

abbrev node : TaskSpec → AgentState → List String → TaskNode
node spec state children = record {
  spec = spec;
  state = state;
  child_task_ids = children;
  result = none;
  reason = none;
  updated_at = "now";
}

abbrev top_spec : TaskSpec
top_spec = spec "t0" "r0" "r" none ("fs.read" ∷ "process.exec" ∷ []) 0

abbrev below_spec : TaskSpec
below_spec = spec "t1" "r1" "r0" (some "t0") ("fs.read" ∷ []) 1

abbrev rooted : TaskGraph
rooted = record blank {
  nodes = ("t0", node top_spec AgentState.pending []) ∷ [];
  roots = "t0" ∷ [];
}

root_made :
    create_root
      (fresh "t0" "r0")
      blank
      "r"
      " Look "
      budget
      ("fs.read" ∷ "process.exec " ∷ [])
      []
      (pos 2)
      (pos 1)
      end
    ≡ ok (node top_spec AgentState.pending [], rooted)
unfolding tasks
root_made = refl

rooted-IsValid : IsValid rooted.nodes
rooted-IsValid =
    create_root-IsValid (fresh "t0" "r0") blank rooted "r" " Look " budget
      ("fs.read" ∷ "process.exec " ∷ []) [] (pos 2) (pos 1) end
      (node top_spec AgentState.pending []) root_made refl

abbrev started_node : TaskNode
started_node = node top_spec AgentState.running []

abbrev started : TaskGraph
started = record rooted { nodes = ("t0", started_node) ∷ [] }

root_starts : transition "now" rooted "t0" AgentState.running none none ≡ ok (started_node, started)
unfolding tasks
root_starts = refl

transition-IsValid_example : IsValid started.nodes
transition-IsValid_example =
    transition-IsValid "now" rooted started "t0" AgentState.running none none started_node
      root_starts rooted-IsValid

started-IsValid : IsValid started.nodes
started-IsValid =
    transition-IsValid "now" rooted started "t0" AgentState.running none none started_node
      root_starts rooted-IsValid

abbrev parent_node : TaskNode
parent_node = node top_spec AgentState.running ("t1" ∷ [])

abbrev below : AgentState → TaskNode
below state = node below_spec state []

abbrev grown : AgentState → TaskGraph
grown state = record started { nodes = ("t0", parent_node) ∷ ("t1", below state) ∷ [] }

child_spawned :
    spawn (fresh "t1" "r1") started "t0" "Look" none (some ("fs.read" ∷ [])) [] end
    ≡ ok (below AgentState.pending, grown AgentState.pending)
unfolding tasks
child_spawned = refl

spawn-IsValid_example : IsValid (grown AgentState.pending).nodes
unfolding Dict.lookup
spawn-IsValid_example =
    spawn-IsValid (fresh "t1" "r1") started (grown AgentState.pending) "t0" "Look" none
      (some ("fs.read" ∷ [])) [] end (below AgentState.pending) child_spawned started-IsValid refl

grown-IsValid : IsValid (grown AgentState.pending).nodes
unfolding Dict.lookup
grown-IsValid =
    spawn-IsValid (fresh "t1" "r1") started (grown AgentState.pending) "t0" "Look" none
      (some ("fs.read" ∷ [])) [] end (below AgentState.pending) child_spawned started-IsValid refl

spawn-HasLess_example : HasLess parent_node (below AgentState.pending)
unfolding Dict.lookup
spawn-HasLess_example =
    spawn-HasLess (fresh "t1" "r1") started (grown AgentState.pending) "t0" "Look" none
      (some ("fs.read" ∷ [])) [] end (below AgentState.pending) child_spawned started-IsValid refl
      "t0" parent_node refl (child "t1" refl refl)

cancel-IsValid_example : IsValid (cancel 3 "now" "stop" "t0" (grown AgentState.pending)).1.nodes
cancel-IsValid_example = cancel-IsValid 3 "now" "stop" "t0" (grown AgentState.pending) grown-IsValid

cancel_ends_example :
    (cancel 3 "now" "stop" "t0" (grown AgentState.pending)).0 ≢ err recursion_error
unfolding Dict.lookup
cancel_ends_example =
    cancel_ends 3 "now" "stop" "t0" (grown AgentState.pending) grown-IsValid
      (parent_node, refl, omega arith)

abbrev result : TaskSpec → TaskResult
result s = record {
  task_id = s.task_id;
  state = AgentState.cancelled;
  summary = "stop";
  output_artifact_ids = [];
  error = none;
  metrics = end;
}

abbrev cancelled : TaskNode → TaskNode
cancelled n = record n {
  state = AgentState.cancelled;
  result = some (result n.spec);
  reason = some "stop";
}

cancels : (cancel 3 "now" "stop" "t0" (grown AgentState.pending)).0 ≡ ok (cancelled parent_node)
unfolding tasks
cancels = refl

cancel-IsEnded_example :
    let after = (cancel 3 "now" "stop" "t0" (grown AgentState.pending)).1 in
    IsEnded "t0" after × ((c : String) → contains c ("t1" ∷ []) ≡ true → IsEnded c after)
unfolding Dict.lookup
cancel-IsEnded_example =
    cancel-IsEnded "now" "stop" 3 "t0" (grown AgentState.pending) parent_node
      (cancelled parent_node) refl cancels

-- A parent goes on while its cancelled child stays as it is.
abbrev half_done : TaskGraph
half_done = record started {
  nodes = ("t0", parent_node) ∷ ("t1", cancelled (below AgentState.running)) ∷ [];
}

abbrev waiting_parent : TaskNode
waiting_parent = node top_spec AgentState.waiting ("t1" ∷ [])

abbrev waits : TaskGraph
waits = record started {
  nodes = ("t0", waiting_parent) ∷ ("t1", cancelled (below AgentState.running)) ∷ [];
}

parent_waits :
    transition "now" half_done "t0" AgentState.waiting none none ≡ ok (waiting_parent, waits)
unfolding tasks
parent_waits = refl

-- A task below a failed one is not reached: it still runs when the root has been cancelled.
abbrev failed_below : TaskNode
failed_below = record (node below_spec AgentState.failed ("t2" ∷ [])) {
  result = some (record (result below_spec) { state = AgentState.failed });
}

abbrev leaf : TaskNode
leaf = node (spec "t2" "r2" "r1" (some "t1") [] 2) AgentState.running []

abbrev three : TaskGraph
three = record started { nodes = ("t0", parent_node) ∷ ("t1", failed_below) ∷ ("t2", leaf) ∷ [] }

leaf_survives : Dict.lookup (cancel 3 "now" "stop" "t0" three).1.nodes "t2" ≡ some leaf
unfolding tasks
leaf_survives = refl

root_cancelled : (cancel 3 "now" "stop" "t0" three).0 ≡ ok (cancelled parent_node)
unfolding tasks
root_cancelled = refl

validates : Unit {0}
unfolding tasks validate_graph check_nodes check_node check_child visit
validates = tt

grown_passes : validate_graph 3 (grown AgentState.pending) ≡ ok tt
unfolding validates
grown_passes = refl

-- A child that is its own parent is refused.
abbrev looped : TaskGraph
looped = record started { nodes = ("t0", node top_spec AgentState.running ("t0" ∷ [])) ∷ [] }

looped_fails : validate_graph 3 looped ≡ err agent_validation_error
unfolding validates
looped_fails = refl

validate_graph-IsChecked_example : IsChecked (grown AgentState.pending) "t0" parent_node
unfolding Dict.lookup
validate_graph-IsChecked_example =
    validate_graph-IsChecked 3 (grown AgentState.pending) "t0" parent_node grown_passes refl
