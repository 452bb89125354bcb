-- ===== src/Agents/Graph/Authority.antt =====
-- Capabilities, budget and depth along the tree: what `spawn` hands to a new task against what the
-- tasks above it have.
use mathlib.Core.Bool.{true≢false}
use aihi.Prelude.{
  String, ◌≡◌, ◌≤◌, ◌<◌, refl, sym, ◌∙◌, subst, true, Option, none, some, List, [], ◌∷◌, arith,
  contains, subset, eq_iff, ok,
}
use aihi.Json.{ℤ, pos, negsuc, Fields}
use aihi.Dict
use aihi.Dict.{Dict}
use aihi.Agents.Types.{AgentBudget, TaskNode, leb_int, cost_within, is_subset_of}
use aihi.Agents.Graph.{Fresh, TaskGraph, spawn}
use aihi.Agents.Graph.Validity.{IsValid, some-injective}
use aihi.Agents.Graph.Adoption.{none-ne-some, spawn-IsValid}

contains-subset :
    (c : String) (xs ys : List String)
    → contains c xs ≡ true
    → subset xs ys ≡ true
    → contains c ys ≡ true
contains-subset c [] ys h g = absurd (true≢false (sym h))
contains-subset c (x ∷ xs) ys h g = ground (arith, contains-subset c xs ys, eq_iff x c)

leb_int_trans : (a b c : ℤ) → leb_int a b ≡ true → leb_int b c ≡ true → leb_int a c ≡ true
leb_int_trans (pos a) (pos b) (pos c) h g = ground arith
leb_int_trans (pos a) (pos b) (negsuc c) h g = absurd (true≢false (sym g))
leb_int_trans (pos a) (negsuc b) c h g = absurd (true≢false (sym h))
leb_int_trans (negsuc a) (pos b) (pos c) h g = refl
leb_int_trans (negsuc a) (pos b) (negsuc c) h g = absurd (true≢false (sym g))
leb_int_trans (negsuc a) (negsuc b) (pos c) h g = refl
leb_int_trans (negsuc a) (negsuc b) (negsuc c) h g = ground arith

-- Each limit of the one is within that of the other; a cost that is limited above is limited below.
pub record IsWithin (b top : AgentBudget) : Type 0 where
  pub tokens : leb_int b.max_tokens top.max_tokens ≡ true
  pub cost :
      (limit : ℤ)
      → top.max_cost_usd ≡ some limit
      → (cost : ℤ) × (b.max_cost_usd ≡ some cost) × (leb_int cost limit ≡ true)
  pub timeout : leb_int b.timeout_seconds top.timeout_seconds ≡ true
  pub tool_calls : leb_int b.max_tool_calls top.max_tool_calls ≡ true

cost_within_lem :
    (a b : Option ℤ) (limit : ℤ)
    → cost_within a b ≡ true
    → b ≡ some limit
    → (cost : ℤ) × (a ≡ some cost) × (leb_int cost limit ≡ true)
cost_within_lem (some a) (some b) limit h p =
    (a, refl, subst (λ l. leb_int a l ≡ true) (some-injective p) h)
cost_within_lem none (some b) limit h p = absurd (true≢false (sym h))
cost_within_lem a none limit h p = absurd (none-ne-some p)

is_subset_of-IsWithin : (a b : AgentBudget) → is_subset_of a b ≡ true → IsWithin a b
unfolding is_subset_of
is_subset_of-IsWithin a b h = record {
  tokens = ground arith;
  cost = λ limit. cost_within_lem a.max_cost_usd b.max_cost_usd limit (ground arith);
  timeout = ground arith;
  tool_calls = ground arith;
}

IsWithin-trans : (a b c : AgentBudget) → IsWithin a b → IsWithin b c → IsWithin a c
IsWithin-trans a b c p q = record {
  tokens = leb_int_trans a.max_tokens b.max_tokens c.max_tokens p.tokens q.tokens;
  cost = λ limit h.
      let (y, h2, l2) = q.cost limit h in
      let (x, h1, l1) = p.cost y h2 in (x, h1, leb_int_trans x y limit l1 l2);
  timeout = leb_int_trans a.timeout_seconds b.timeout_seconds c.timeout_seconds p.timeout q.timeout;
  tool_calls =
      leb_int_trans a.max_tool_calls b.max_tool_calls c.max_tool_calls p.tool_calls q.tool_calls;
}

-- A task that stands below another, some steps down.
pub data Below (nodes : Dict TaskNode) (top : TaskNode) : TaskNode → Type 0 where
  child :
      {n : TaskNode} (c : String)
      → contains c top.child_task_ids ≡ true
      → Dict.lookup nodes c ≡ some n
      → Below nodes top n
  further :
      {m n : TaskNode} (c : String)
      → Below nodes top m
      → contains c m.child_task_ids ≡ true
      → Dict.lookup nodes c ≡ some n
      → Below nodes top n

pub record HasLess (top n : TaskNode) : Type 0 where
  pub capabilities :
      (c : String) → contains c n.spec.capabilities ≡ true → contains c top.spec.capabilities ≡ true
  pub budget : IsWithin n.spec.budget top.spec.budget
  pub deeper : top.spec.depth < n.spec.depth
  pub limited : n.spec.depth ≤ top.spec.max_depth
  pub same_limit : n.spec.max_depth ≡ top.spec.max_depth

module _ (nodes : Dict TaskNode) (v : IsValid nodes) where
  child-HasLess :
      (k c : String) (top n : TaskNode)
      → Dict.lookup nodes k ≡ some top
      → contains c top.child_task_ids ≡ true
      → Dict.lookup nodes c ≡ some n
      → HasLess top n
  child-HasLess k c top n p h q =
      let link = v.linked k top c p h in
      let same = some-injective (sym link.present ∙ q) in
      let inherits = link.inherits in
      let depth = inherits.depth in
      let limit = inherits.max_depth in
      subst (HasLess top) same (record {
        capabilities = λ a h.
            contains-subset a link.node.spec.capabilities top.spec.capabilities h
              inherits.capabilities;
        budget = is_subset_of-IsWithin link.node.spec.budget top.spec.budget inherits.budget;
        deeper = omega (arith, depth);
        limited = omega (arith, limit, (v.bounded c link.node link.present).0);
        same_limit = limit;
      })

  HasLess-trans : (a b c : TaskNode) → HasLess a b → HasLess b c → HasLess a c
  HasLess-trans a b c p q = record {
    capabilities = λ x h. p.capabilities x (q.capabilities x h);
    budget = IsWithin-trans c.spec.budget b.spec.budget a.spec.budget q.budget p.budget;
    deeper = omega (arith, p.deeper, q.deeper);
    limited = omega (arith, q.limited, p.same_limit);
    same_limit = q.same_limit ∙ p.same_limit;
  }

  key-Below :
      (k : String) (top n : TaskNode)
      → Dict.lookup nodes k ≡ some top
      → Below nodes top n
      → (j : String) × (Dict.lookup nodes j ≡ some n)
  key-Below k top n p (child c h q) = (c, q)
  key-Below k top n p (further c b h q) = (c, q)

  -- The inheritance along each link of a well-formed graph is passed on.
  Below-HasLess :
      (k : String) (top n : TaskNode)
      → Dict.lookup nodes k ≡ some top
      → Below nodes top n
      → HasLess top n
  Below-HasLess k top n p (child c h q) = child-HasLess k c top n p h q
  Below-HasLess k top n p (further {m = m} c b h q) =
      let (j, r) = key-Below k top m p b in
      HasLess-trans top m n (Below-HasLess k top m p b) (child-HasLess j c m n r h q)

-- What `spawn` hands to a new task is no more than any task above it may use, however far above: in
-- the graph that it leaves, if the graph before was well-formed and the id of the task was not
-- taken, the capabilities of the new task are among those of every task that it stands below, each
-- limit of its budget is within theirs, and it stands deeper but within their depth limit.
pub spawn-HasLess :
    (f : Fresh) (g g' : TaskGraph) (parent_task_id objective : String) (budget : Option AgentBudget)
    (capabilities : Option (List String)) (constraints : List String) (metadata : Fields)
    (n : TaskNode)
    → spawn f g parent_task_id objective budget capabilities constraints metadata ≡ ok (n, g')
    → IsValid g.nodes
    → Dict.lookup g.nodes n.spec.task_id ≡ none
    → (k : String) (top : TaskNode) → Dict.lookup g'.nodes k ≡ some top
    → Below g'.nodes top n
    → HasLess top n
spawn-HasLess f g g' parent_task_id objective budget capabilities constraints metadata n h v unknown
      k top present below =
    Below-HasLess g'.nodes
      (spawn-IsValid f g g' parent_task_id objective budget capabilities constraints metadata n h v
        unknown)
      k top n present below
