-- ===== src/Agents/Sweep.antt =====
-- `interrupt` and `cancel` of agents/graph.py, which move a task and what is below it. A sweep changes
-- the graph task by task, so what it did before it raised stays done. The recursion of the source
-- is on the depth of the tree; fuel that is out stands for Python's `RecursionError`.
pub mod Kept
pub mod Finite
pub mod Fuel
pub mod Ended
use aihi.Prelude.{
  ℕ, zero, suc, String, Bool, true, false, not, ◌||◌, Option, none, some, Result, ok, err,
  recursion_error,
}
use aihi.Agents.Types.{AgentState, terminal, TaskNode, TaskResult}
use aihi.Agents.Act.{Act, ◌>>=◌, ◌>>◌, atomic, reading, each, done}
use aihi.Agents.Graph.{TaskGraph, get, transition, same_state}

abbrev pub when : {S : Type 0} → Bool → Act S (Unit {0}) → Act S (Unit {0})
when true m = m
when false m = done

abbrev pub raising : {S A : Type 0} → Act S A
raising s = (err recursion_error, s)

abbrev pub move : String → AgentState → String → String → Act TaskGraph TaskNode
move now state reason task_id = atomic (λ g. transition now g task_id state (some reason) none)

-- One round of the loops: a child whose state passes the test is swept and moved.
abbrev pub sweep_child :
    (AgentState → Bool)
    → (String → Act TaskGraph TaskNode)
    → (String → Act TaskGraph (Unit {0}))
    → String
    → Act TaskGraph (Unit {0})
sweep_child test move_task sweep_below child_id = do
  child ← reading (λ g. get g child_id)
  when (test child.state) (do sweep_below child_id; moved ← move_task child_id; done)

unfoldable pub sweep :
    ℕ → (AgentState → Bool) → (String → Act TaskGraph TaskNode) → String → Act TaskGraph (Unit {0})
sweep zero test move_task task_id = raising
sweep (suc n) test move_task task_id = do
  node ← reading (λ g. get g task_id)
  each (sweep_child test move_task (sweep n test move_task)) node.child_task_ids

abbrev pub interruptible : AgentState → Bool
interruptible s =
    same_state s AgentState.pending
    || same_state s AgentState.running
    || same_state s AgentState.waiting

unfoldable pub interrupt_descendants : ℕ → String → String → String → Act TaskGraph (Unit {0})
unfolding sweep
interrupt_descendants n now reason task_id =
    sweep n interruptible (move now AgentState.interrupted reason) task_id

unfoldable pub interrupt : ℕ → String → String → String → Act TaskGraph TaskNode
unfolding interrupt_descendants
interrupt n now reason task_id = do
  interrupt_descendants n now reason task_id
  move now AgentState.interrupted reason task_id

unfoldable pub cancel_descendants : ℕ → String → String → String → Act TaskGraph (Unit {0})
unfolding sweep
cancel_descendants n now reason task_id =
    sweep n (λ s. not (terminal s)) (move now AgentState.cancelled reason) task_id

-- A task that has ended is returned as it is.
abbrev pub unless_ended : Bool → TaskNode → Act TaskGraph TaskNode → Act TaskGraph TaskNode
unless_ended true node m = λ g. (ok node, g)
unless_ended false node m = m

unfoldable pub cancel : ℕ → String → String → String → Act TaskGraph TaskNode
unfolding cancel_descendants
cancel n now reason task_id = do
  cancel_descendants n now reason task_id
  node ← reading (λ g. get g task_id)
  unless_ended (terminal node.state) node (move now AgentState.cancelled reason task_id)
