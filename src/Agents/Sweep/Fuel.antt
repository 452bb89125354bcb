-- ===== src/Agents/Sweep/Fuel.antt =====
-- The recursion of a sweep ends: the depth limit of the tasks bounds it.
use aihi.Prelude.{
  ℕ, zero, suc, ◌+◌, String, ◌≡◌, ◌≢◌, ◌<◌, sym, ap, ◌∙◌, subst, Bool, true, false, not, none, some,
  List, Result, ok, err, recursion_error, arith, inl, inr, Bool-cases, ◌==◌, eq_iff, contains,
  ok-ne-err, err-injective,
}
use aihi.Dict
use aihi.Dict.{lookup-insert}
use aihi.Agents.Types.{AgentState, terminal, TaskNode}
use aihi.Agents.Act.{Act, or_kept, follow, reading}
use aihi.Agents.Act.Steps.{Spares, >>=-Spares, each-Spares}
use aihi.Agents.Graph.{TaskGraph, get, transition}
use aihi.Agents.Graph.Validity.{IsValid, some-injective}
use aihi.Agents.Graph.Transitions.{transition-Moved}
use aihi.Agents.Sweep.{
  when, move, sweep_child, sweep, interruptible, interrupt_descendants, interrupt,
  cancel_descendants, cancel, unless_ended,
}
use aihi.Agents.Sweep.Kept.{IsStable, move-Keeps, sweep-Keeps, sweep_child-Keeps, IsValid-IsStable}
use aihi.Agents.Sweep.Finite.{IsFinite, get-IsFinite, transition-IsFinite}

-- The task is there, and the fuel is more than what the depth limit leaves below it.
abbrev pub HasFuel : ℕ → String → TaskGraph → Type 0
HasFuel n k g =
    (m : TaskNode) × (Dict.lookup g.nodes k ≡ some m) × (m.spec.max_depth < n + m.spec.depth)

HasFuel-IsStable : (n : ℕ) (j : String) → IsStable (HasFuel n j)
HasFuel-IsStable n j now g g' k state reason x h (m, p, q) =
    let t = transition-Moved now g g' k state (some reason) none x h in
    elim (Bool-cases (k == j)) [
      | inl e ↦
          let same : t.node ≡ m = some-injective (
            sym (subst (λ i. Dict.lookup g.nodes i ≡ some t.node) ((eq_iff k j).0 e) t.present)
            ∙ p) in
          (
            x,
            rw (t.written, lookup-insert g.nodes k j x, e),
            subst (λ (y : TaskNode). y.spec.max_depth < n + y.spec.depth) (sym t.made)
                (subst (λ (y : TaskNode). y.spec.max_depth < n + y.spec.depth) (sym same) q),
          )
      | inr e ↦ (m, rw (t.written, lookup-insert g.nodes k j x, e) p, q)
    ]

-- What holds while the children of one task are swept.
abbrev AllHaveFuel : ℕ → List String → TaskGraph → Type 0
AllHaveFuel n cs g = IsValid g.nodes × ((c : String) → contains c cs ≡ true → HasFuel n c g)

AllHaveFuel-IsStable : (n : ℕ) (cs : List String) → IsStable (AllHaveFuel n cs)
AllHaveFuel-IsStable n cs now g g' k state reason x h (v, fuel) = (
  IsValid-IsStable now g g' k state reason x h v,
  λ c i. HasFuel-IsStable n c now g g' k state reason x h (fuel c i),
)

children-HasFuel :
    (n : ℕ) (k : String) (g : TaskGraph) (m : TaskNode)
    → IsValid g.nodes
    → Dict.lookup g.nodes k ≡ some m
    → m.spec.max_depth < suc n + m.spec.depth
    → AllHaveFuel n m.child_task_ids g
children-HasFuel n k g m v p q = (
  v,
  λ c i.
      let link = v.linked k m c p i in
      let depth = link.inherits.depth in
      let limit = link.inherits.max_depth in
      (link.node, link.present, omega (arith, q, depth, limit)),
)

pub get_found :
    (g : TaskGraph) (k : String) (m : TaskNode) → Dict.lookup g.nodes k ≡ some m → get g k ≡ ok m
unfolding get
get_found g k m p = rw p

or_kept-Spares :
    {A : Type 0} (r : Result (A × TaskGraph)) (g : TaskGraph)
    → IsFinite r
    → (or_kept r g).0 ≢ err recursion_error
or_kept-Spares (ok (a, g')) g h = ok-ne-err
or_kept-Spares (err x) g h = λ p. h (ap err (err-injective p))

module _ (P : TaskGraph → Type 0) where
  move-Spares :
      (now : String) (state : AgentState) (reason k : String)
      → Spares P recursion_error (move now state reason k)
  move-Spares now state reason k g p =
      or_kept-Spares (transition now g k state (some reason) none) g
        (transition-IsFinite now g k state (some reason))

  get-Spares : (k : String) → Spares P recursion_error (reading (λ g. get g k))
  get-Spares k g p = get-IsFinite g k

  when-Spares :
      (b : Bool) (m : Act TaskGraph (Unit {0}))
      → Spares P recursion_error m
      → Spares P recursion_error (when b m)
  when-Spares true m h = h
  when-Spares false m h = λ g p. ok-ne-err

module _ (test : AgentState → Bool) (now : String) (state : AgentState) (reason : String) where
  abbrev mv : String → Act TaskGraph TaskNode
  mv = move now state reason

  child-Spares :
      (P : TaskGraph → Type 0) (stable : IsStable P) (n : ℕ) (c : String)
      → Spares P recursion_error (sweep n test mv c)
      → Spares P recursion_error (sweep_child test mv (sweep n test mv) c)
  child-Spares P stable n c h =
      let keeps = move-Keeps P stable now state reason in
      >>=-Spares P recursion_error (reading (λ g. get g c)) _ (λ g p. p) (get-Spares P c)
        (λ child. when-Spares P (test child.state) _ (
          >>=-Spares P recursion_error (sweep n test mv c) _
            (sweep-Keeps P stable test mv keeps n c) h
            (λ _.
              >>=-Spares P recursion_error (mv c) _ (keeps c) (move-Spares P now state reason c)
                (λ _ g p. ok-ne-err))))

  sweep-Spares :
      (n : ℕ) (k : String) (g : TaskGraph)
      → IsValid g.nodes
      → HasFuel n k g
      → (sweep n test mv k g).0 ≢ err recursion_error
  unfolding sweep
  sweep-Spares zero k g v (m, p, q) = λ _. omega (arith, q, (v.bounded k m p).0)
  sweep-Spares (suc n) k g v (m, p, q) =
      let P = AllHaveFuel n m.child_task_ids in
      let stable = AllHaveFuel-IsStable n m.child_task_ids in
      let keeps = move-Keeps P stable now state reason in
      let loop =
        each-Spares P recursion_error (sweep_child test mv (sweep n test mv)) m.child_task_ids
          (sweep_child-Keeps P stable test mv keeps (sweep n test mv)
            (sweep-Keeps P stable test mv keeps n))
          (λ c i. child-Spares P stable n c (λ g' r. sweep-Spares n c g' r.0 (r.1 c i))) in
      rw (get_found g k m p) (loop g (children-HasFuel n k g m v p q))

abbrev pub Ready : ℕ → String → TaskGraph → Type 0
Ready n k g = IsValid g.nodes × HasFuel n k g

Ready-IsStable : (n : ℕ) (k : String) → IsStable (Ready n k)
Ready-IsStable n k now g g' j state reason x h (v, fuel) = (
  IsValid-IsStable now g g' j state reason x h v,
  HasFuel-IsStable n k now g g' j state reason x h fuel,
)

-- A sweep, and what comes after it.
sweep_then :
    (test : AgentState → Bool) (n : ℕ) (now : String) (state : AgentState) (reason k : String)
    (f : Unit {0} → Act TaskGraph TaskNode) (g : TaskGraph)
    → Ready n k g
    → ((u : Unit {0}) → Spares (Ready n k) recursion_error (f u))
    → (follow (sweep n test (move now state reason) k g) f).0 ≢ err recursion_error
sweep_then test n now state reason k f g ready h =
    >>=-Spares (Ready n k) recursion_error (sweep n test (move now state reason) k) f
      (sweep-Keeps (Ready n k) (Ready-IsStable n k) test (move now state reason)
        (move-Keeps (Ready n k) (Ready-IsStable n k) now state reason) n k)
      (λ g r. sweep-Spares test now state reason n k g r.0 r.1) h g ready

ending-Spares :
    (P : TaskGraph → Type 0) (b : Bool) (n : TaskNode) (m : Act TaskGraph TaskNode)
    → Spares P recursion_error m
    → Spares P recursion_error (unless_ended b n m)
ending-Spares P true n m h = λ g p. ok-ne-err
ending-Spares P false n m h = h

module _ (n : ℕ) (now reason task_id : String) (g : TaskGraph) (v : IsValid g.nodes)
    (fuel : HasFuel n task_id g) where
  -- Interrupting a task of a well-formed graph ends: with more fuel than the depth limit leaves
  -- below the task, the recursion does not run out of it.
  pub interrupt_ends : (interrupt n now reason task_id g).0 ≢ err recursion_error
  unfolding interrupt interrupt_descendants
  interrupt_ends =
      sweep_then interruptible n now AgentState.interrupted reason task_id
        (λ _. move now AgentState.interrupted reason task_id) g (v, fuel)
        (λ _. move-Spares (Ready n task_id) now AgentState.interrupted reason task_id)

  -- Cancelling a task of a well-formed graph ends: with more fuel than the depth limit leaves
  -- below the task, the recursion does not run out of it.
  pub cancel_ends : (cancel n now reason task_id g).0 ≢ err recursion_error
  unfolding cancel cancel_descendants
  cancel_ends =
      sweep_then (λ s. not (terminal s)) n now AgentState.cancelled reason task_id _ g (v, fuel)
        (λ _.
          >>=-Spares (Ready n task_id) recursion_error (reading (λ g. get g task_id)) _ (λ g p. p)
            (get-Spares (Ready n task_id) task_id)
            (λ node.
              ending-Spares (Ready n task_id) (terminal node.state) node
                (move now AgentState.cancelled reason task_id)
                (move-Spares (Ready n task_id) now AgentState.cancelled reason task_id)))
