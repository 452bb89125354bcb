-- ===== src/Agents/Types.antt =====
-- The task types of packages/aihi/agent/src/aihi/agent/agents/types.py. A cost and a time limit,
-- floats in the source, are whole numbers of a unit that is small enough for both. A set of
-- capabilities is a list that is read by membership only. The constructors take what the callers in
-- agents/graph.py hand them, so the tests of an argument's Python type have nothing to refuse.
use aihi.Prelude.{
  ℕ, String, Bool, true, false, not, ◌&&◌, Option, none, some, List, Result, ok, err,
  agent_validation_error, ◌>>=◌, ◌>>◌, raise_if, map_result, ◌==◌, ltb, leb,
}
use aihi.Json.{ℤ, pos, negsuc, Fields}
use aihi.Text.{strip, size}

-- `_text`
unfoldable pub text_of : ℕ → String → Result String
unfolding strip
text_of max_length value = do
  raise_if (strip value == "") agent_validation_error
  raise_if (ltb max_length (size (strip value))) agent_validation_error
  ok (strip value)

pub data AgentState : Type 0 where
  pending running waiting completed failed cancelled interrupted : AgentState

-- the place of a state in the enumeration
abbrev pub rank : AgentState → ℕ
rank AgentState.pending = 0
rank AgentState.running = 1
rank AgentState.waiting = 2
rank AgentState.completed = 3
rank AgentState.failed = 4
rank AgentState.cancelled = 5
rank AgentState.interrupted = 6

unfoldable pub terminal : AgentState → Bool
terminal AgentState.completed = true
terminal AgentState.failed = true
terminal AgentState.cancelled = true
terminal _ = false

abbrev pub leb_int : ℤ → ℤ → Bool
leb_int (pos m) (pos n) = leb m n
leb_int (pos m) (negsuc n) = false
leb_int (negsuc m) (pos n) = true
leb_int (negsuc m) (negsuc n) = leb n m

abbrev pub is_positive : ℤ → Bool
is_positive n = not (leb_int n (pos 0))

pub record AgentBudget : Type 0 where
  pub max_tokens : ℤ
  pub max_cost_usd : Option ℤ
  pub timeout_seconds : ℤ
  pub max_tool_calls : ℤ

abbrev cost_valid : Option ℤ → Bool
cost_valid none = true
cost_valid (some cost) = leb_int (pos 0) cost

-- `AgentBudget.__post_init__`
unfoldable pub check_budget : AgentBudget → Result AgentBudget
check_budget b = do
  raise_if (not (is_positive b.max_tokens)) agent_validation_error
  raise_if (not (cost_valid b.max_cost_usd)) agent_validation_error
  raise_if (not (is_positive b.timeout_seconds)) agent_validation_error
  raise_if (not (is_positive b.max_tool_calls)) agent_validation_error
  ok b

abbrev pub cost_within : Option ℤ → Option ℤ → Bool
cost_within child none = true
cost_within none (some limit) = false
cost_within (some cost) (some limit) = leb_int cost limit

unfoldable pub is_subset_of : AgentBudget → AgentBudget → Bool
is_subset_of b parent =
    leb_int b.max_tokens parent.max_tokens
    && cost_within b.max_cost_usd parent.max_cost_usd
    && leb_int b.timeout_seconds parent.timeout_seconds
    && leb_int b.max_tool_calls parent.max_tool_calls

pub record TaskSpec : Type 0 where
  pub parent_run_id : String
  pub objective : String
  pub budget : AgentBudget
  pub task_id : String
  pub child_run_id : String
  pub parent_task_id : Option String
  pub constraints : List String
  pub capabilities : List String
  pub depth : ℕ
  pub max_depth : ℕ
  pub max_children : ℕ
  pub metadata : Fields
  pub created_at : String

abbrev pub natural : ℤ → Result ℕ
natural (pos n) = ok n
natural (negsuc n) = err agent_validation_error

abbrev pub parent_text : Option String → Result (Option String)
parent_text none = ok none
parent_text (some s) = do t ← text_of 256 s; ok (some t)

-- The arguments of `TaskSpec`, with the generated ids and the time among them.
pub record SpecArguments : Type 0 where
  pub parent_run_id : String
  pub objective : String
  pub budget : AgentBudget
  pub task_id : String
  pub child_run_id : String
  pub parent_task_id : Option String
  pub constraints : List String
  pub capabilities : List String
  pub depth : ℕ
  pub max_depth : ℤ
  pub max_children : ℤ
  pub metadata : Fields
  pub created_at : String

-- `TaskSpec.__post_init__`
unfoldable pub new_spec : SpecArguments → Result TaskSpec
unfolding text_of
new_spec a = do
  parent_run_id ← text_of 256 a.parent_run_id
  objective ← text_of 4096 a.objective
  task_id ← text_of 256 a.task_id
  child_run_id ← text_of 256 a.child_run_id
  raise_if (a.created_at == "") agent_validation_error
  parent_task_id ← parent_text a.parent_task_id
  constraints ← map_result (text_of 4096) a.constraints
  capabilities ← map_result (text_of 256) a.capabilities
  max_depth ← natural a.max_depth
  raise_if (ltb max_depth a.depth) agent_validation_error
  max_children ← natural a.max_children
  ok (record {
    parent_run_id = parent_run_id;
    objective = objective;
    budget = a.budget;
    task_id = task_id;
    child_run_id = child_run_id;
    parent_task_id = parent_task_id;
    constraints = constraints;
    capabilities = capabilities;
    depth = a.depth;
    max_depth = max_depth;
    max_children = max_children;
    metadata = a.metadata;
    created_at = a.created_at;
  })

pub record TaskResult : Type 0 where
  pub task_id : String
  pub state : AgentState
  pub summary : String
  pub output_artifact_ids : List String
  pub error : Option String
  pub metrics : Fields

abbrev pub too_long : Option String → Bool
too_long none = false
too_long (some s) = ltb 4096 (size s)

-- `TaskResult.__post_init__`
unfoldable pub new_result : TaskResult → Result TaskResult
unfolding text_of
new_result r = do
  task_id ← text_of 256 r.task_id
  raise_if (ltb 4096 (size r.summary)) agent_validation_error
  output_artifact_ids ← map_result (text_of 256) r.output_artifact_ids
  raise_if (too_long r.error) agent_validation_error
  ok (record r { task_id = task_id; output_artifact_ids = output_artifact_ids })

pub record TaskNode : Type 0 where
  pub spec : TaskSpec
  pub state : AgentState
  pub child_task_ids : List String
  pub result : Option TaskResult
  pub reason : Option String
  pub updated_at : String
