-- ===== src/Agents/Sweep/Ended.antt =====
-- What has ended when `cancel` returns.
use aihi.Prelude.{
  ℕ, zero, suc, String, ◌≡◌, refl, sym, ap, ◌∙◌, subst, Bool, true, false, not, none, some, Result,
  ok, err, recursion_error, contains, ok-ne-err, ok-injective, eq_refl,
}
use aihi.Dict
use aihi.Dict.{lookup-insert}
use aihi.Agents.Types.{AgentState, terminal, TaskNode}
use aihi.Agents.Act.{Act, kept, or_kept, follow, each, done, ◌>>=◌, ◌>>◌}
use aihi.Agents.Act.Steps.{follow-ok, each-does}
use aihi.Agents.Graph.{TaskGraph, get, transition}
use aihi.Agents.Graph.Transitions.{transition-Moved, transition-ended, found}
use aihi.Agents.Sweep.{when, move, sweep_child, sweep, cancel_descendants, cancel, unless_ended}
use aihi.Agents.Sweep.Kept.{IsStable, move-Keeps, sweep-Keeps, sweep_child-Keeps, ending-Keeps}
use aihi.Agents.Sweep.Fuel.{get_found}

-- The task is there and has ended.
abbrev pub IsEnded : String → TaskGraph → Type 0
IsEnded k g = (n : TaskNode) × (Dict.lookup g.nodes k ≡ some n) × (terminal n.state ≡ true)

pub IsEnded-IsStable : (j : String) → IsStable (IsEnded j)
IsEnded-IsStable j now g g' k state reason x h (n, p, e) =
    (n, transition-ended now g g' k state (some reason) none x h j n p e, e)

moved_ends :
    (r : Result (TaskNode × TaskGraph)) (g : TaskGraph) (k : String) (n : TaskNode)
    → ((g' : TaskGraph) → r ≡ ok (n, g') → IsEnded k g')
    → (or_kept r g).0 ≡ ok n
    → IsEnded k (or_kept r g).1
moved_ends (ok (a, g')) g k n f h = f g' (ap (λ x. ok (x, g')) (ok-injective h))
moved_ends (err x) g k n f h = absurd (ok-ne-err {x = x} (sym h))

module _ (now reason : String) where
  abbrev end_task : String → Act TaskGraph TaskNode
  end_task = move now AgentState.cancelled reason

  abbrev active : AgentState → Bool
  active s = not (terminal s)

  end_task-ends :
      (k : String) (g : TaskGraph) (n : TaskNode)
      → (end_task k g).0 ≡ ok n
      → IsEnded k (end_task k g).1
  unfolding terminal
  end_task-ends k g n h =
      moved_ends (transition now g k AgentState.cancelled (some reason) none) g k n
        (λ g' p.
          let m = transition-Moved now g g' k AgentState.cancelled (some reason) none n p in
          (
            n,
            rw (m.written, lookup-insert g.nodes k k n, eq_refl k),
            ap (λ (x : TaskNode). terminal x.state) m.made,
          ))
        h

  visited_ends :
      (below : String → Act TaskGraph (Unit {0})) (c : String) (g : TaskGraph) (child : TaskNode)
      (ended : Bool)
      → Dict.lookup g.nodes c ≡ some child
      → terminal child.state ≡ ended
      → let m = when (not ended) (do below c; moved ← end_task c; done) in
        (m g).0 ≡ ok tt → IsEnded c (m g).1
  visited_ends below c g child true p e h = (child, p, e)
  visited_ends below c g child false p e h =
      let after = (below c g).1 in
      let (u, p1, q1) = follow-ok (below c g) (λ _. end_task c >>= λ _. done) tt h in
      let h1 = sym (ap (λ (r : Result (Unit {0}) × TaskGraph). r.0) q1) ∙ h in
      let (n, p2, q2) = follow-ok (end_task c after) (λ _. done) tt h1 in
      subst (IsEnded c) (ap (λ (r : Result (Unit {0}) × TaskGraph). r.1) (sym (q1 ∙ q2)))
        (end_task-ends c after n p2)

  child_ends :
      (below : String → Act TaskGraph (Unit {0})) (c : String) (g : TaskGraph)
      → (sweep_child active end_task below c g).0 ≡ ok tt
      → IsEnded c (sweep_child active end_task below c g).1
  child_ends below c g h =
      let (child, p, q) = follow-ok (kept (get g c) g) _ tt h in
      subst (IsEnded c) (ap (λ (r : Result (Unit {0}) × TaskGraph). r.1) (sym q)) (
        visited_ends below c g child (terminal child.state) (found g c child p) refl
          (sym (ap (λ (r : Result (Unit {0}) × TaskGraph). r.0) q) ∙ h))

  swept_children_end :
      (n : ℕ) (k : String) (g : TaskGraph) (node : TaskNode)
      → Dict.lookup g.nodes k ≡ some node
      → (cancel_descendants n now reason k g).0 ≡ ok tt
      → (c : String) → contains c node.child_task_ids ≡ true
      → IsEnded c (cancel_descendants n now reason k g).1
  unfolding cancel_descendants sweep
  swept_children_end zero k g node p h c i = absurd (ok-ne-err {x = recursion_error} (sym h))
  swept_children_end (suc n) k g node p h c i =
      let below = sweep n active end_task in
      let q =
        ap
          (λ r.
            follow (kept r g)
              (λ (x : TaskNode). each (sweep_child active end_task below) x.child_task_ids))
          (get_found g k node p) in
      subst (IsEnded c) (ap (λ (r : Result (Unit {0}) × TaskGraph). r.1) (sym q)) (
        each-does IsEnded (sweep_child active end_task below) node.child_task_ids
          (λ x y.
            sweep_child-Keeps (IsEnded x) (IsEnded-IsStable x) active end_task
              (move-Keeps (IsEnded x) (IsEnded-IsStable x) now AgentState.cancelled reason) below
              (sweep-Keeps (IsEnded x) (IsEnded-IsStable x) active end_task
                (move-Keeps (IsEnded x) (IsEnded-IsStable x) now AgentState.cancelled reason) n)
              y)
          (child_ends below) g (sym (ap (λ (r : Result (Unit {0}) × TaskGraph). r.0) q) ∙ h) c i)

  last_ends :
      (k : String) (g : TaskGraph) (node : TaskNode) (ended : Bool) (x : TaskNode)
      → Dict.lookup g.nodes k ≡ some node
      → terminal node.state ≡ ended
      → let m = unless_ended ended node (end_task k) in (m g).0 ≡ ok x → IsEnded k (m g).1
  last_ends k g node true x p e h = (node, p, e)
  last_ends k g node false x p e h = end_task-ends k g x h

  -- When `cancel` returns, the task has ended, and so has each of its children.
  pub cancel-IsEnded :
      (n : ℕ) (task_id : String) (g : TaskGraph) (node x : TaskNode)
      → Dict.lookup g.nodes task_id ≡ some node
      → (cancel n now reason task_id g).0 ≡ ok x
      → let after = (cancel n now reason task_id g).1 in
        IsEnded task_id after
        × ((c : String) → contains c node.child_task_ids ≡ true → IsEnded c after)
  unfolding cancel
  cancel-IsEnded n task_id g node x p h =
      let swept = cancel_descendants n now reason task_id g in
      let (u, p1, q1) = follow-ok swept _ x h in
      let h1 = sym (ap (λ (r : Result TaskNode × TaskGraph). r.0) q1) ∙ h in
      let (m, p2, q2) = follow-ok (kept (get swept.1 task_id) swept.1) _ x h1 in
      let h2 = sym (ap (λ (r : Result TaskNode × TaskGraph). r.0) q2) ∙ h1 in
      let back = ap (λ (r : Result TaskNode × TaskGraph). r.1) (sym (q1 ∙ q2)) in
      (
        subst (IsEnded task_id) back
            (last_ends task_id swept.1 m (terminal m.state) x (found swept.1 task_id m p2) refl h2),
        λ c i. subst (IsEnded c) back (
            ending-Keeps (IsEnded c) (IsEnded-IsStable c) (terminal m.state) m (end_task task_id)
              (move-Keeps (IsEnded c) (IsEnded-IsStable c) now AgentState.cancelled reason task_id)
              swept.1 (swept_children_end n task_id g node p p1 c i)),
      )
