-- ===== src/Agents/Validate.antt =====
-- `_validate_graph` of agents/graph.py. The walk that looks for cycles runs on fuel; fuel that is out
-- stands for Python's `RecursionError`.
pub mod Checked
use aihi.Prelude.{
  ℕ, zero, suc, ◌≤◌, String, ◌≡◌, refl, sym, ap, ◌∙◌, subst, Bool, true, false, not, ◌&&◌, ◌||◌,
  Option, none, some, List, [], ◌∷◌, map, filter, Result, ok, err, agent_validation_error,
  recursion_error, ◌>>=◌, ◌>>◌, raise_if, or_raise, is_some, ◌==◌, ltb, nat_eq, contains, distinct,
  subset, length, if◌then◌else◌, arith, >>=-eq-ok, ok-injective, eq_iff, Bool-cases, inl, inr,
}
use aihi.Dict
use aihi.Dict.{Dict}
use aihi.Event.{same_text, same_text-eq}
use aihi.Agents.Types.{terminal, is_subset_of, TaskNode, TaskResult}
use aihi.Agents.Graph.{TaskGraph, same_state}

-- The checks of one link.
unfoldable pub check_child : TaskGraph → String → TaskNode → String → Result (Unit {0})
check_child g task_id node child_id = do
  child ← or_raise (Dict.lookup g.nodes child_id) agent_validation_error
  raise_if (not (same_text child.spec.parent_task_id (some task_id))) agent_validation_error
  raise_if (not (child.spec.parent_run_id == node.spec.child_run_id)) agent_validation_error
  raise_if (not (nat_eq child.spec.depth (suc node.spec.depth))) agent_validation_error
  raise_if (not (nat_eq child.spec.max_depth node.spec.max_depth)) agent_validation_error
  raise_if (ltb node.spec.max_children child.spec.max_children) agent_validation_error
  raise_if (not (subset child.spec.capabilities node.spec.capabilities)) agent_validation_error
  raise_if (not (is_subset_of child.spec.budget node.spec.budget)) agent_validation_error

abbrev pub check_children : TaskGraph → String → TaskNode → List String → Result (Unit {0})
check_children g task_id node [] = ok tt
check_children g task_id node (c ∷ cs) = do
  check_child g task_id node c
  check_children g task_id node cs

-- The checks of the parent that a node names.
abbrev pub check_parent : TaskGraph → String → TaskNode → Option String → Result (Unit {0})
check_parent g task_id node none = do
  raise_if (not (contains task_id g.roots)) agent_validation_error
  raise_if (not (nat_eq node.spec.depth 0)) agent_validation_error
check_parent g task_id node (some parent) =
    raise_if (not (is_some (Dict.lookup g.nodes parent))) agent_validation_error

abbrev pub check_result : String → TaskNode → Option TaskResult → Result (Unit {0})
check_result task_id node none = raise_if (terminal node.state) agent_validation_error
check_result task_id node (some r) = do
  raise_if (not (r.task_id == task_id)) agent_validation_error
  raise_if (not (same_state r.state node.state)) agent_validation_error
  raise_if (not (terminal node.state)) agent_validation_error

unfoldable pub check_node : TaskGraph → String → TaskNode → Result (Unit {0})
unfolding check_child
check_node g task_id node = do
  raise_if (not (node.spec.task_id == task_id)) agent_validation_error
  raise_if (not (distinct node.child_task_ids)) agent_validation_error
  check_children g task_id node node.child_task_ids
  raise_if (ltb node.spec.max_children (length node.child_task_ids)) agent_validation_error
  check_parent g task_id node node.spec.parent_task_id
  check_result task_id node node.result

unfoldable pub check_nodes : TaskGraph → Dict TaskNode → Result (Unit {0})
unfolding check_node
check_nodes g [] = ok tt
check_nodes g ((k, n) ∷ rest) = do check_node g k n; check_nodes g rest

-- The walk: what it has seen, and what it stands in.
pub record Walk : Type 0 where
  pub seen : List String
  pub active : List String

abbrev visit_each : (String → Walk → Result Walk) → List String → Walk → Result Walk
visit_each visit [] w = ok w
visit_each visit (c ∷ cs) w = do v ← visit c w; visit_each visit cs v

abbrev children_of : Option TaskNode → List String
children_of none = []
children_of (some n) = n.child_task_ids

unfoldable pub visit : ℕ → TaskGraph → String → Walk → Result Walk
visit zero g task_id w = err recursion_error
visit (suc n) g task_id w = do
  raise_if (contains task_id w.active) agent_validation_error
  let deeper =
      visit_each (visit n g) (children_of (Dict.lookup g.nodes task_id))
        (record w { active = task_id ∷ w.active })
  if contains task_id w.seen then ok w else (do
    v ← deeper
    ok (record { seen = task_id ∷ v.seen; active = filter (λ i. not (i == task_id)) v.active }))

abbrev keys : Dict TaskNode → List String
keys [] = []
keys ((k, n) ∷ d) = k ∷ keys d

abbrev pub check_walk : TaskGraph → Walk → Result (Unit {0})
check_walk g w = raise_if (not (subset (keys g.nodes) w.seen)) agent_validation_error

abbrev pub check_roots : ℕ → TaskGraph → List String → Result (Unit {0})
check_roots fuel g (root ∷ []) = do
  raise_if (not (is_some (Dict.lookup g.nodes root))) agent_validation_error
  check_nodes g g.nodes
  w ← visit fuel g root (record { seen = []; active = [] })
  check_walk g w
check_roots fuel g _ = err agent_validation_error

unfoldable pub validate_graph : ℕ → TaskGraph → Result (Unit {0})
unfolding check_nodes visit
validate_graph fuel g = check_roots fuel g g.roots
