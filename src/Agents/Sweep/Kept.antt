-- ===== src/Agents/Sweep/Kept.antt =====
-- What a sweep keeps: every property of the graph that a transition keeps.
use aihi.Prelude.{
  ℕ, zero, suc, String, ◌≡◌, refl, Bool, true, false, not, none, some, Result, ok, err,
}
use aihi.Agents.Types.{AgentState, terminal, TaskNode}
use aihi.Agents.Act.{Act, or_kept, reading}
use aihi.Agents.Act.Steps.{Keeps, >>=-Keeps, each-Keeps}
use aihi.Agents.Graph.{TaskGraph, get, transition}
use aihi.Agents.Graph.Validity.{IsValid}
use aihi.Agents.Graph.Transitions.{transition-IsValid}
use aihi.Agents.Sweep.{
  when, move, sweep_child, sweep, interruptible, interrupt_descendants, interrupt,
  cancel_descendants, cancel, unless_ended,
}

-- A property that every transition keeps.
abbrev pub IsStable : (TaskGraph → Type 0) → Type 0
IsStable P =
    (now : String) (g g' : TaskGraph) (k : String) (state : AgentState) (reason : String)
    (n : TaskNode)
    → transition now g k state (some reason) none ≡ ok (n, g')
    → P g
    → P g'

module _ (P : TaskGraph → Type 0) (stable : IsStable P) where
  atomic-Keeps :
      {A : Type 0} (r : Result (A × TaskGraph)) (g : TaskGraph)
      → P g
      → ((a : A) (g' : TaskGraph) → r ≡ ok (a, g') → P g')
      → P (or_kept r g).1
  atomic-Keeps (ok (a, g')) g p k = k a g' refl
  atomic-Keeps (err x) g p k = p

  pub move-Keeps :
      (now : String) (state : AgentState) (reason k : String) → Keeps P (move now state reason k)
  move-Keeps now state reason k g p =
      atomic-Keeps (transition now g k state (some reason) none) g p
        (λ n g' h. stable now g g' k state reason n h p)

  pub when-Keeps : (b : Bool) (m : Act TaskGraph (Unit {0})) → Keeps P m → Keeps P (when b m)
  when-Keeps true m k = k
  when-Keeps false m k = λ g p. p

  module _ (test : AgentState → Bool) (mv : String → Act TaskGraph TaskNode)
      (mv_keeps : (k : String) → Keeps P (mv k)) where
    pub sweep_child-Keeps :
        (below : String → Act TaskGraph (Unit {0}))
        → ((k : String) → Keeps P (below k))
        → (k : String) → Keeps P (sweep_child test mv below k)
    sweep_child-Keeps below keeps k =
        >>=-Keeps P (reading (λ g. get g k)) _ (λ g p. p)
          (λ child. when-Keeps (test child.state) _ (
            >>=-Keeps P (below k) _ (keeps k)
              (λ _. >>=-Keeps P (mv k) _ (mv_keeps k) (λ _ g p. p))))

    pub sweep-Keeps : (n : ℕ) (k : String) → Keeps P (sweep n test mv k)
    unfolding sweep
    sweep-Keeps zero k = λ g p. p
    sweep-Keeps (suc n) k =
        >>=-Keeps P (reading (λ g. get g k)) _ (λ g p. p)
          (λ node.
            each-Keeps P _ node.child_task_ids
              (sweep_child-Keeps (sweep n test mv) (sweep-Keeps n)))

  pub interrupt-Keeps : (n : ℕ) (now reason k : String) → Keeps P (interrupt n now reason k)
  unfolding interrupt interrupt_descendants
  interrupt-Keeps n now reason k =
      let keeps = move-Keeps now AgentState.interrupted reason in
      >>=-Keeps P (interrupt_descendants n now reason k) _
        (sweep-Keeps interruptible (move now AgentState.interrupted reason) keeps n k)
        (λ _. keeps k)

  pub ending-Keeps :
      (b : Bool) (n : TaskNode) (m : Act TaskGraph TaskNode)
      → Keeps P m
      → Keeps P (unless_ended b n m)
  ending-Keeps true n m k = λ g p. p
  ending-Keeps false n m k = k

  pub cancel-Keeps : (n : ℕ) (now reason k : String) → Keeps P (cancel n now reason k)
  unfolding cancel cancel_descendants
  cancel-Keeps n now reason k =
      let keeps = move-Keeps now AgentState.cancelled reason in
      >>=-Keeps P (cancel_descendants n now reason k) _
        (sweep-Keeps (λ s. not (terminal s)) (move now AgentState.cancelled reason) keeps n k)
        (λ _.
          >>=-Keeps P (reading (λ g. get g k)) _ (λ g p. p)
            (λ node.
              ending-Keeps (terminal node.state) node (move now AgentState.cancelled reason k)
                (keeps k)))

pub IsValid-IsStable : IsStable (λ g. IsValid g.nodes)
IsValid-IsStable now g g' k state reason n h =
    transition-IsValid now g g' k state (some reason) none n h

-- Interrupting a task keeps the graph well-formed, also where it stops half-way.
pub interrupt-IsValid :
    (n : ℕ) (now reason task_id : String) (g : TaskGraph)
    → IsValid g.nodes
    → IsValid (interrupt n now reason task_id g).1.nodes
interrupt-IsValid n now reason task_id g =
    interrupt-Keeps (λ g. IsValid g.nodes) IsValid-IsStable n now reason task_id g

-- Cancelling a task keeps the graph well-formed, also where it stops half-way.
pub cancel-IsValid :
    (n : ℕ) (now reason task_id : String) (g : TaskGraph)
    → IsValid g.nodes
    → IsValid (cancel n now reason task_id g).1.nodes
cancel-IsValid n now reason task_id g =
    cancel-Keeps (λ g. IsValid g.nodes) IsValid-IsStable n now reason task_id g
