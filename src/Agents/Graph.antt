-- ===== src/Agents/Graph.antt =====
-- `TaskGraph` of packages/aihi/agent/src/aihi/agent/agents/graph.py. `sent` is what the event sink
-- was handed, in order; a sink that raises is left out. A copy of a node is the node. The lock makes
-- each call one step. Generated ids and times are arguments.
pub mod Validity
pub mod Transitions
pub mod Spawning
pub mod Adoption
pub mod Authority
pub mod Roots
use aihi.Prelude.{
  ℕ, zero, suc, ◌+◌, String, Bool, true, false, not, ◌&&◌, ◌||◌, Option, none, some, List, [], ◌∷◌,
  ◌++◌, Result, ok, err, agent_validation_error, agent_state_error, agent_permission_denied,
  agent_budget_exceeded, agent_depth_exceeded, ◌>>=◌, ◌>>◌, raise_if, or_raise, map_result, ◌==◌,
  ltb, leb, nat_eq, any, filter, length, subset, is_some, if◌then◌else◌,
}
use aihi.Json.{ℤ, pos, Fields, end}
use aihi.Dict
use aihi.Dict.{Dict}
use aihi.Agents.Types.{
  AgentState, rank, terminal, AgentBudget, is_subset_of, TaskSpec, SpecArguments, new_spec,
  TaskResult, new_result, TaskNode,
}

-- What `_emit` hands to the sink: the dicts of the source by what they are made from.
pub record TaskEvent : Type 0 where
  pub type : String
  pub session_id : String
  pub run_id : String
  pub task : TaskSpec
  pub state : AgentState
  pub reason : Option String
  pub result : Option TaskResult

pub record TaskGraph : Type 0 where
  pub session_id : Option String
  pub has_sink : Bool
  pub nodes : Dict TaskNode
  pub roots : List String
  pub sent : List TaskEvent

abbrev pub same_state : AgentState → AgentState → Bool
same_state s t = nat_eq (rank s) (rank t)

-- `_TRANSITIONS`
unfoldable pub transitions : AgentState → List AgentState
transitions AgentState.pending =
    AgentState.running ∷ AgentState.cancelled ∷ AgentState.failed ∷ AgentState.interrupted ∷ []
transitions AgentState.running =
    AgentState.waiting ∷ AgentState.completed ∷ AgentState.failed ∷ AgentState.cancelled
    ∷ AgentState.interrupted ∷ []
transitions AgentState.waiting =
    AgentState.running ∷ AgentState.completed ∷ AgentState.failed ∷ AgentState.cancelled
    ∷ AgentState.interrupted ∷ []
transitions AgentState.interrupted =
    AgentState.running ∷ AgentState.cancelled ∷ AgentState.failed ∷ []
transitions _ = []

abbrev pub can_move : AgentState → AgentState → Bool
can_move s t = any (same_state t) (transitions s)

abbrev if_told : Option String → Option String
if_told none = none
if_told (some s) = if s == "" then none else some s

abbrev hand_over : Bool → Option String → String → TaskNode → Option String → List TaskEvent
hand_over true (some sid) type node reason =
    record {
      type = type;
      session_id = sid;
      run_id = node.spec.child_run_id;
      task = node.spec;
      state = node.state;
      reason = if_told reason;
      result = node.result;
    }
    ∷ []
hand_over _ _ type node reason = []

-- `_emit`
unfoldable pub emit : TaskGraph → String → TaskNode → Option String → TaskGraph
emit g type node reason = record g {
  sent = g.sent ++ hand_over g.has_sink g.session_id type node reason;
}

-- `self._nodes[task_id] = node`
abbrev pub put : TaskGraph → String → TaskNode → TaskGraph
put g task_id node = record g { nodes = Dict.insert g.nodes task_id node }

abbrev pub new_node : TaskSpec → String → TaskNode
new_node spec now = record {
  spec = spec;
  state = AgentState.pending;
  child_task_ids = [];
  result = none;
  reason = none;
  updated_at = now;
}

abbrev pub is_empty : List String → Bool
is_empty [] = true
is_empty (x ∷ xs) = false

-- The ids and times that a call generates.
pub record Fresh : Type 0 where
  pub task_id : String
  pub run_id : String
  pub now : String

unfoldable pub create_root :
    Fresh
    → TaskGraph
    → String
    → String
    → AgentBudget
    → List String
    → List String
    → ℤ
    → ℤ
    → Fields
    → Result (TaskNode × TaskGraph)
unfolding emit
create_root f g parent_run_id objective budget capabilities constraints max_depth max_children
      metadata =
    do
      spec ← new_spec (record {
        parent_run_id = parent_run_id;
        objective = objective;
        budget = budget;
        task_id = f.task_id;
        child_run_id = f.run_id;
        parent_task_id = none;
        constraints = constraints;
        capabilities = capabilities;
        depth = 0;
        max_depth = max_depth;
        max_children = max_children;
        metadata = metadata;
        created_at = f.now;
      })
      raise_if (not (is_empty g.roots)) agent_validation_error
      let node = new_node spec f.now
      ok (
        node,
        record (put (emit g "subagent.spawned" node none) spec.task_id node) {
          roots = g.roots ++ spec.task_id ∷ [];
        },
      )

unfoldable pub has_task : TaskGraph → String → Bool
has_task g task_id = is_some (Dict.lookup g.nodes task_id)

unfoldable pub get : TaskGraph → String → Result TaskNode
get g task_id = or_raise (Dict.lookup g.nodes task_id) agent_validation_error

unfoldable pub children : TaskGraph → String → Result (List TaskNode)
unfolding get
children g task_id = do node ← get g task_id; map_result (get g) node.child_task_ids

unfoldable pub active_tasks : TaskGraph → List TaskNode
active_tasks g = filter (λ n. not (terminal n.state)) (Dict.values g.nodes)

abbrev pub default_budget : Option AgentBudget → AgentBudget → AgentBudget
default_budget none b = b
default_budget (some b) parent = b

abbrev pub default_capabilities : Option (List String) → List String → List String
default_capabilities none cs = cs
default_capabilities (some cs) parent = cs

abbrev pub may_spawn : AgentState → Bool
may_spawn s = same_state s AgentState.running || same_state s AgentState.waiting

-- The checks of `spawn` and the task that it makes.
unfoldable pub spawn_spec :
    Fresh
    → TaskNode
    → String
    → String
    → Option AgentBudget
    → Option (List String)
    → List String
    → Fields
    → Result TaskSpec
spawn_spec f parent parent_task_id objective budget capabilities constraints metadata = do
  raise_if (not (may_spawn parent.state)) agent_state_error
  raise_if (leb parent.spec.max_children (length parent.child_task_ids)) agent_permission_denied
  let child_budget = default_budget budget parent.spec.budget
  let child_capabilities = default_capabilities capabilities parent.spec.capabilities
  raise_if (not (subset child_capabilities parent.spec.capabilities)) agent_permission_denied
  raise_if (not (is_subset_of child_budget parent.spec.budget)) agent_budget_exceeded
  raise_if (ltb parent.spec.max_depth (suc parent.spec.depth)) agent_depth_exceeded
  new_spec (record {
    parent_run_id = parent.spec.child_run_id;
    objective = objective;
    budget = child_budget;
    task_id = f.task_id;
    child_run_id = f.run_id;
    parent_task_id = some parent_task_id;
    constraints = constraints;
    capabilities = child_capabilities;
    depth = suc parent.spec.depth;
    max_depth = pos parent.spec.max_depth;
    max_children = pos parent.spec.max_children;
    metadata = metadata;
    created_at = f.now;
  })

abbrev pub with_child : TaskNode → String → String → TaskNode
with_child parent task_id now = record parent {
  child_task_ids = parent.child_task_ids ++ task_id ∷ [];
  updated_at = now;
}

unfoldable pub spawn :
    Fresh
    → TaskGraph
    → String
    → String
    → Option AgentBudget
    → Option (List String)
    → List String
    → Fields
    → Result (TaskNode × TaskGraph)
unfolding get spawn_spec emit
spawn f g parent_task_id objective budget capabilities constraints metadata = do
  parent ← get g parent_task_id
  spec ← spawn_spec f parent parent_task_id objective budget capabilities constraints metadata
  let node = new_node spec f.now
  let told = emit g "subagent.spawned" node none
  ok (node, put (put told spec.task_id node) parent_task_id (with_child parent spec.task_id f.now))

-- `any(not self.get(child_id).state.terminal for child_id in ids)`
unfoldable pub any_active : TaskGraph → List String → Result Bool
unfolding get
any_active g [] = ok false
any_active g (c ∷ cs) = do
  child ← get g c
  let rest = any_active g cs
  if terminal child.state then rest else ok true

-- The result of a transition that is given one.
abbrev pub checked_result : String → AgentState → TaskResult → Result (Option TaskResult)
checked_result task_id state r = do
  raise_if (not (r.task_id == task_id)) agent_validation_error
  raise_if (not (same_state r.state state)) agent_validation_error
  raise_if (not (terminal state)) agent_validation_error
  ok (some r)

abbrev or_blank : Option String → String
or_blank none = ""
or_blank (some s) = s

-- The result of a transition that is given none.
abbrev pub made_result : String → AgentState → Option String → Result (Option TaskResult)
made_result task_id state reason = do
  r ← new_result (record {
    task_id = task_id;
    state = state;
    summary = or_blank reason;
    output_artifact_ids = [];
    error = if same_state state AgentState.failed then reason else none;
    metrics = end;
  })
  ok (some r)

abbrev pub default_result : String → AgentState → Option String → Result (Option TaskResult)
default_result task_id state reason =
    if terminal state then made_result task_id state reason else ok none

unfoldable pub result_of :
    String → AgentState → Option String → Option TaskResult → Result (Option TaskResult)
result_of task_id state reason none = default_result task_id state reason
result_of task_id state reason (some r) = checked_result task_id state r

abbrev event_type : AgentState → String
event_type AgentState.running = "subagent.started"
event_type AgentState.pending = "subagent.pending"
event_type AgentState.waiting = "subagent.waiting"
event_type AgentState.completed = "subagent.completed"
event_type AgentState.failed = "subagent.failed"
event_type AgentState.cancelled = "subagent.cancelled"
event_type AgentState.interrupted = "subagent.interrupted"

-- `COMPLETED` needs children that are all terminal; another state needs nothing.
abbrev pub blocked : TaskGraph → AgentState → TaskNode → Result Bool
blocked g AgentState.completed node = any_active g node.child_task_ids
blocked g _ node = ok false

abbrev pub moved : TaskNode → AgentState → Option TaskResult → Option String → String → TaskNode
moved node state result reason now = record node {
  state = state;
  result = result;
  reason = reason;
  updated_at = now;
}

unfoldable pub transition :
    String
    → TaskGraph
    → String
    → AgentState
    → Option String
    → Option TaskResult
    → Result (TaskNode × TaskGraph)
unfolding get transitions result_of any_active emit
transition now g task_id state reason given = do
  node ← get g task_id
  raise_if (not (can_move node.state state)) agent_state_error
  result ← result_of task_id state reason given
  is_blocked ← blocked g state node
  raise_if is_blocked agent_state_error
  let updated = moved node state result reason now
  ok (updated, put (emit g (event_type state) updated reason) task_id updated)

unfoldable pub complete :
    String → TaskGraph → String → String → List String → Fields → Result (TaskNode × TaskGraph)
unfolding transition
complete now g task_id summary output_artifact_ids metrics = do
  result ← new_result (record {
    task_id = task_id;
    state = AgentState.completed;
    summary = summary;
    output_artifact_ids = output_artifact_ids;
    error = none;
    metrics = metrics;
  })
  transition now g task_id AgentState.completed none (some result)

unfoldable pub fail : String → TaskGraph → String → String → Result (TaskNode × TaskGraph)
unfolding transition
fail now g task_id error = do
  result ← new_result (record {
    task_id = task_id;
    state = AgentState.failed;
    summary = error;
    output_artifact_ids = [];
    error = some error;
    metrics = end;
  })
  transition now g task_id AgentState.failed (some error) (some result)

unfoldable pub resume : String → TaskGraph → String → Result (TaskNode × TaskGraph)
unfolding transition
resume now g task_id = transition now g task_id AgentState.running (some "resumed") none
