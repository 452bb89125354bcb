-- ===== src/Agents/Validate/Checked.antt =====
-- What a graph is known to be once `_validate_graph` has passed it.
use mathlib.Core.Bool.{true≢false}
use aihi.Prelude.{
  ℕ, suc, ◌≤◌, String, ◌≡◌, sym, subst, Bool, true, false, not, Option, none, some, List, [], ◌∷◌,
  ok, agent_validation_error, raise_if, or_raise, is_some, ◌==◌, ltb, nat_eq, contains, distinct,
  subset, length, arith, >>=-eq-ok, ok-ne-err, eq_iff, Bool-cases, inl, inr,
}
use aihi.Dict
use aihi.Dict.{Dict}
use aihi.Event.{same_text, same_text-eq}
use aihi.Agents.Types.{terminal, TaskNode, TaskResult}
use aihi.Agents.Graph.{TaskGraph}
use aihi.Agents.Graph.Validity.{Inherits, some-injective}
use aihi.Agents.Validate.{
  check_child, check_children, check_parent, check_result, check_node, check_nodes, check_roots,
  validate_graph,
}

-- The child under an id: it names its parent and has no more authority.
pub record IsLinked (g : TaskGraph) (k : String) (n : TaskNode) (c : String) : Type 0 where
  pub child : TaskNode
  pub present : Dict.lookup g.nodes c ≡ some child
  pub parent : child.spec.parent_task_id ≡ some k
  pub inherits : Inherits n.spec child.spec

pub record IsChecked (g : TaskGraph) (k : String) (n : TaskNode) : Type 0 where
  pub keyed : n.spec.task_id ≡ k
  pub apart : distinct n.child_task_ids ≡ true
  pub room : length n.child_task_ids ≤ n.spec.max_children
  pub settled : terminal n.state ≡ is_some n.result
  pub linked : (c : String) → contains c n.child_task_ids ≡ true → IsLinked g k n c

passed : (b : Bool) (u : Unit {0}) → raise_if b agent_validation_error ≡ ok u → b ≡ false
passed b u h = ground arith

there : {A : Type 0} (o : Option A) (a : A) → or_raise o agent_validation_error ≡ ok a → o ≡ some a
there o a h = ground arith

check_child-IsLinked :
    (g : TaskGraph) (k c : String) (n : TaskNode) → check_child g k n c ≡ ok tt → IsLinked g k n c
unfolding check_child
check_child-IsLinked g k c n h =
    let (m, p, h1) = >>=-eq-ok (or_raise (Dict.lookup g.nodes c) agent_validation_error) _ h in
    let (u1, q1, h2) =
      >>=-eq-ok (raise_if (not (same_text m.spec.parent_task_id (some k))) agent_validation_error) _
        h1 in
    let (u2, q2, h3) =
      >>=-eq-ok
        (raise_if (not (m.spec.parent_run_id == n.spec.child_run_id)) agent_validation_error) _
        h2 in
    let (u3, q3, h4) =
      >>=-eq-ok (raise_if (not (nat_eq m.spec.depth (suc n.spec.depth))) agent_validation_error) _
        h3 in
    let (u4, q4, h5) =
      >>=-eq-ok (raise_if (not (nat_eq m.spec.max_depth n.spec.max_depth)) agent_validation_error) _
        h4 in
    let (u5, q5, h6) =
      >>=-eq-ok (raise_if (ltb n.spec.max_children m.spec.max_children) agent_validation_error) _
        h5 in
    let (u6, q6, h7) =
      >>=-eq-ok
        (raise_if (not (subset m.spec.capabilities n.spec.capabilities)) agent_validation_error) _
        h6 in
    record {
      child = m;
      present = there (Dict.lookup g.nodes c) m p;
      parent = same_text-eq m.spec.parent_task_id (some k) (ground (arith, q1));
      inherits = record {
        depth = ground (arith, q3);
        max_depth = ground (arith, q4);
        max_children = ground (arith, q5);
        capabilities = ground (arith, q6);
        budget = ground (arith, h7);
      };
    }

check_children-IsLinked :
    (g : TaskGraph) (k c : String) (n : TaskNode) (cs : List String)
    → check_children g k n cs ≡ ok tt
    → contains c cs ≡ true
    → IsLinked g k n c
check_children-IsLinked g k c n [] h i = absurd (true≢false (sym i))
check_children-IsLinked g k c n (d ∷ cs) h i =
    let (u, p, q) = >>=-eq-ok (check_child g k n d) _ h in
    elim (Bool-cases (d == c)) [
      | inl e ↦
          check_child-IsLinked g k c n
            (subst (λ x. check_child g k n x ≡ ok tt) ((eq_iff d c).0 e) p)
      | inr e ↦ check_children-IsLinked g k c n cs q (rw e at i)
    ]

check_result-settled :
    (k : String) (n : TaskNode) (r : Option TaskResult)
    → check_result k n r ≡ ok tt
    → terminal n.state ≡ is_some r
check_result-settled k n none h = ground arith
check_result-settled k n (some r) h = ground arith

check_node-IsChecked :
    (g : TaskGraph) (k : String) (n : TaskNode) → check_node g k n ≡ ok tt → IsChecked g k n
unfolding check_node
check_node-IsChecked g k n h =
    let (u1, q1, h1) =
      >>=-eq-ok (raise_if (not (n.spec.task_id == k)) agent_validation_error) _ h in
    let (u2, q2, h2) =
      >>=-eq-ok (raise_if (not (distinct n.child_task_ids)) agent_validation_error) _ h1 in
    let (u3, q3, h3) = >>=-eq-ok (check_children g k n n.child_task_ids) _ h2 in
    let (u4, q4, h4) =
      >>=-eq-ok
        (raise_if (ltb n.spec.max_children (length n.child_task_ids)) agent_validation_error) _
        h3 in
    let (u5, q5, h5) = >>=-eq-ok (check_parent g k n n.spec.parent_task_id) _ h4 in
    record {
      keyed = (eq_iff n.spec.task_id k).0 (ground (arith, q1));
      apart = ground (arith, q2);
      room = ground (arith, q4);
      settled = check_result-settled k n n.result h5;
      linked = λ c i. check_children-IsLinked g k c n n.child_task_ids q3 i;
    }

check_nodes-IsChecked :
    (g : TaskGraph) (d : Dict TaskNode) (k : String) (n : TaskNode)
    → check_nodes g d ≡ ok tt
    → Dict.lookup d k ≡ some n
    → IsChecked g k n
unfolding check_nodes Dict.lookup
check_nodes-IsChecked g [] k n h p = absurd (Dict.absent k p)
check_nodes-IsChecked g ((j, m) ∷ d) k n h p =
    let (u, a, b) = >>=-eq-ok (check_node g j m) _ h in
    elim (Bool-cases (j == k)) [
      | inl e ↦
          let same : m ≡ n = some-injective (rw e at p) in
          subst (IsChecked g k) same (
            check_node-IsChecked g k m (subst (λ x. check_node g x m ≡ ok tt) ((eq_iff j k).0 e) a))
      | inr e ↦ check_nodes-IsChecked g d k n b (rw e at p)
    ]

roots-IsChecked :
    (fuel : ℕ) (g : TaskGraph) (roots : List String) (k : String) (n : TaskNode)
    → check_roots fuel g roots ≡ ok tt
    → Dict.lookup g.nodes k ≡ some n
    → IsChecked g k n
roots-IsChecked fuel g [] k n h p = absurd (ok-ne-err (sym h))
roots-IsChecked fuel g (r ∷ s ∷ rs) k n h p = absurd (ok-ne-err (sym h))
roots-IsChecked fuel g (root ∷ []) k n h p =
    let (u, a, h1) =
      >>=-eq-ok (raise_if (not (is_some (Dict.lookup g.nodes root))) agent_validation_error) _ h in
    let (w, b, h2) = >>=-eq-ok (check_nodes g g.nodes) _ h1 in
    check_nodes-IsChecked g g.nodes k n b p

-- A graph that validation passes is one whose every task stands under its own id, has no child
-- twice and no more than it may have, has a result exactly if it has ended, and whose every child
-- is there, names it as parent and has no more authority.
pub validate_graph-IsChecked :
    (fuel : ℕ) (g : TaskGraph) (k : String) (n : TaskNode)
    → validate_graph fuel g ≡ ok tt
    → Dict.lookup g.nodes k ≡ some n
    → IsChecked g k n
unfolding validate_graph
validate_graph-IsChecked fuel g k n h p = roots-IsChecked fuel g g.roots k n h p
