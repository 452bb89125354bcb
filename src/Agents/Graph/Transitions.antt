-- ===== src/Agents/Graph/Transitions.antt =====
-- What a transition of a task does, and that the graph stays well-formed.
use mathlib.Core.Bool.{true≢false}
use aihi.Prelude.{
  String, ◌≡◌, refl, sym, ap, ◌∙◌, subst, Bool, true, false, not, Option, none, some, List, [], ◌∷◌,
  Result, ok, err, agent_state_error, ◌>>=◌, raise_if, arith, inl, inr, Bool-cases, contains,
  is_some, ◌==◌, eq_iff, >>=-eq-ok, ok-injective, ok-ne-err,
}
use aihi.Dict
use aihi.Dict.{Dict, lookup-insert}
use aihi.Agents.Types.{AgentState, terminal, TaskNode, TaskResult}
use aihi.Agents.Graph.{
  TaskGraph, get, transitions, can_move, result_of, blocked, any_active, moved, emit, transition,
}
use aihi.Agents.Graph.Validity.{IsValid, replace-IsValid, some-injective}

-- The node that a transition found, and what it made of it.
pub record Moved (g g' : TaskGraph) (now task_id : String) (state : AgentState)
    (reason : Option String) (n' : TaskNode) : Type 0 where
  pub node : TaskNode
  pub result : Option TaskResult
  pub present : Dict.lookup g.nodes task_id ≡ some node
  pub allowed : can_move node.state state ≡ true
  pub fits : terminal state ≡ is_some result
  pub unblocked : blocked g state node ≡ ok false
  pub made : n' ≡ moved node state result reason now
  pub written : g'.nodes ≡ Dict.insert g.nodes task_id n'

some_result :
    (m : Result TaskResult) (r : Option TaskResult)
    → (m >>= λ x. ok (some x)) ≡ ok r
    → is_some r ≡ true
some_result (ok x) r h = ap is_some (sym (ok-injective h))
some_result (err x) r h = absurd (ok-ne-err {x = x} (sym h))

result_of-fits :
    (task_id : String) (state : AgentState) (reason : Option String) (given r : Option TaskResult)
    → result_of task_id state reason given ≡ ok r
    → terminal state ≡ is_some r
unfolding result_of
result_of-fits task_id state reason none r h = elim (Bool-cases (terminal state)) [
  | inl e ↦ e ∙ sym (some_result _ r (rw e at h))
  | inr e ↦ ground arith
]
result_of-fits task_id state reason (some given) r h = ground arith

pub found :
    (g : TaskGraph) (task_id : String) (n : TaskNode)
    → get g task_id ≡ ok n
    → Dict.lookup g.nodes task_id ≡ some n
unfolding get
found g task_id n h = ground arith

open_state : (b : Bool) (u : Unit {0}) → raise_if b agent_state_error ≡ ok u → b ≡ false
open_state b u h = ground arith

pub transition-Moved :
    (now : String) (g g' : TaskGraph) (task_id : String) (state : AgentState)
    (reason : Option String) (given : Option TaskResult) (n' : TaskNode)
    → transition now g task_id state reason given ≡ ok (n', g')
    → Moved g g' now task_id state reason n'
unfolding transition emit
transition-Moved now g g' task_id state reason given n' h =
    let (n, p, h1) = >>=-eq-ok (get g task_id) _ h in
    let (u, q, h2) = >>=-eq-ok (raise_if (not (can_move n.state state)) agent_state_error) _ h1 in
    let (r, s, h3) = >>=-eq-ok (result_of task_id state reason given) _ h2 in
    let (b, t, h4) = >>=-eq-ok (blocked g state n) _ h3 in
    let (w, o, h5) = >>=-eq-ok (raise_if b agent_state_error) _ h4 in
    let pair = ok-injective h5 in
    record {
      node = n;
      result = r;
      present = found g task_id n p;
      allowed = ground (arith, q);
      fits = result_of-fits task_id state reason given r s;
      unblocked = t ∙ ap ok (open_state b w o);
      made = sym (ap (λ (x : TaskNode × TaskGraph). x.0) pair);
      written =
          sym (ap (λ (x : TaskNode × TaskGraph). x.1.nodes) pair)
          ∙ ap (λ x. Dict.insert g.nodes task_id x) (ap (λ (x : TaskNode × TaskGraph). x.0) pair);
    }

-- An ended task makes no move.
pub can_move-active : (s t : AgentState) → can_move s t ≡ true → terminal s ≡ false
unfolding transitions terminal
can_move-active AgentState.pending t h = refl
can_move-active AgentState.running t h = refl
can_move-active AgentState.waiting t h = refl
can_move-active AgentState.interrupted t h = refl
can_move-active AgentState.completed t h = absurd (true≢false (sym h))
can_move-active AgentState.failed t h = absurd (true≢false (sym h))
can_move-active AgentState.cancelled t h = absurd (true≢false (sym h))

any_active-ended :
    (g : TaskGraph) (cs : List String) (c : String) (m : TaskNode)
    → any_active g cs ≡ ok false
    → contains c cs ≡ true
    → Dict.lookup g.nodes c ≡ some m
    → terminal m.state ≡ true
unfolding any_active
any_active-ended g [] c m h i p = absurd (true≢false (sym i))
any_active-ended g (d ∷ cs) c m h i p =
    let (n, q, h1) = >>=-eq-ok (get g d) _ h in
    elim (Bool-cases (terminal n.state)) [
      | inr e ↦ absurd (true≢false (ok-injective (rw e at h1)))
      | inl e ↦ elim (Bool-cases (d == c)) [
        | inl f ↦
            let same : n ≡ m = some-injective (
              sym (subst (λ i. Dict.lookup g.nodes i ≡ some n) ((eq_iff d c).0 f) (found g d n q))
              ∙ p) in
            sym (ap (λ (x : TaskNode). terminal x.state) same) ∙ e
        | inr f ↦ any_active-ended g cs c m (rw e at h1) (rw f at i) p
      ]
    ]

blocked-ended :
    (g : TaskGraph) (state : AgentState) (n : TaskNode)
    → blocked g state n ≡ ok false
    → state ≡ AgentState.completed
    → (c : String) (m : TaskNode) → contains c n.child_task_ids ≡ true
    → Dict.lookup g.nodes c ≡ some m
    → terminal m.state ≡ true
blocked-ended g state n b h c m i p =
    any_active-ended g n.child_task_ids c m (subst (λ s. blocked g s n ≡ ok false) h b) i p

module _ (now : String) (g g' : TaskGraph) (task_id : String) (state : AgentState)
    (reason : Option String) (given : Option TaskResult) (n' : TaskNode)
    (h : transition now g task_id state reason given ≡ ok (n', g')) where
  -- A transition that is accepted keeps the graph well-formed: a task that ends has a result, and
  -- one that completes has no child that is still active.
  pub transition-IsValid : IsValid g.nodes → IsValid g'.nodes
  transition-IsValid v =
      let m = transition-Moved now g g' task_id state reason given n' h in
      subst IsValid (sym m.written) (
        subst (λ x. IsValid (Dict.insert g.nodes task_id x)) (sym m.made)
          (replace-IsValid g.nodes v task_id m.node (moved m.node state m.result reason now)
            m.present refl refl (can_move-active m.node.state state m.allowed) m.fits
            (blocked-ended g state m.node m.unblocked)))

  -- A task that has ended stays as it is: no accepted transition, of this task or of another,
  -- changes its node, and so not its state or its result.
  pub transition-ended :
      (k : String) (n : TaskNode)
      → Dict.lookup g.nodes k ≡ some n
      → terminal n.state ≡ true
      → Dict.lookup g'.nodes k ≡ some n
  transition-ended k n p ended =
      let m = transition-Moved now g g' task_id state reason given n' h in
      let active = can_move-active m.node.state state m.allowed in
      elim (Bool-cases (task_id == k)) [
        | inl e ↦
            let same : m.node ≡ n = some-injective (
              sym (
                subst (λ i. Dict.lookup g.nodes i ≡ some m.node) ((eq_iff task_id k).0 e) m.present)
              ∙ p) in
            absurd
              (true≢false (sym ended ∙ sym (ap (λ (x : TaskNode). terminal x.state) same) ∙ active))
        | inr e ↦ rw (m.written, lookup-insert g.nodes task_id k n', e) p
      ]
