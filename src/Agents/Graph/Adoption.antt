-- ===== src/Agents/Graph/Adoption.antt =====
-- `spawn` writes the child and then its parent: the graph stays well-formed.
use mathlib.Core.Bool.{true≢false}
use aihi.Prelude.{
  String, ◌≡◌, ◌≤◌, refl, sym, ap, ◌∙◌, subst, true, false, Option, none, some, List, [], ◌∷◌, ok,
  arith, inl, inr, Bool-cases, contains, all, is_some, ◌==◌, eq_iff, eq_refl, >>=-eq-ok,
  ok-injective, length, length-append, any-append,
}
use aihi.Json.{Fields}
use aihi.Dict
use aihi.Dict.{Dict, lookup-insert}
use aihi.Agents.Types.{AgentState, terminal, AgentBudget, TaskSpec, TaskNode}
use aihi.Agents.Graph.{
  Fresh, TaskGraph, get, emit, spawn, spawn_spec, with_child, new_node, may_spawn,
}
use aihi.Agents.Graph.Validity.{IsChild, IsValid, is_clean, lookup-put, kept_child}
use aihi.Agents.Graph.Spawning.{Spawned, spawn_spec-Spawned}
use aihi.Agents.Graph.Transitions.{found}

pub none-ne-some : {A : Type 0} {a : A} → none ≡ some a → ⊥
none-ne-some p = cc

-- A task that is not there yet, without children.
module _ (nodes : Dict TaskNode) (v : IsValid nodes) (spec : TaskSpec) (now : String)
    (unknown : Dict.lookup nodes spec.task_id ≡ none) (within : spec.depth ≤ spec.max_depth)
    (clean : all is_clean spec.capabilities ≡ true) where
  abbrev pub grown : Dict TaskNode
  grown = Dict.insert nodes spec.task_id (new_node spec now)

  pub grown-lookup :
      (k : String) (n : TaskNode) → Dict.lookup nodes k ≡ some n → Dict.lookup grown k ≡ some n
  grown-lookup k n h = elim (Bool-cases (spec.task_id == k)) [
    | inl e ↦ absurd (
        none-ne-some
          (sym (subst (λ i. Dict.lookup nodes i ≡ none) ((eq_iff spec.task_id k).0 e) unknown) ∙ h))
    | inr e ↦ rw (lookup-insert nodes spec.task_id k (new_node spec now), e) h
  ]

  grown_child : (p : TaskNode) (c : String) → IsChild nodes p c → IsChild grown p c
  grown_child p c old = record {
    node = old.node;
    present = grown-lookup c old.node old.present;
    inherits = old.inherits;
    ended = old.ended;
  }

  pub grown-IsValid : IsValid grown
  unfolding terminal
  grown-IsValid =
      let cases =
        λ (j : String) (m : TaskNode). lookup-put nodes spec.task_id j (new_node spec now) m in
      record {
        keyed = λ j m h. elim (cases j m h) [
          | inl (e, q) ↦ ap (λ (x : TaskNode). x.spec.task_id) (sym q) ∙ e
          | inr (e, old) ↦ v.keyed j m old
        ];
        bounded = λ j m h. elim (cases j m h) [
          | inl (e, q) ↦
              subst
                (λ (x : TaskNode).
                  (x.spec.depth ≤ x.spec.max_depth)
                  × (length x.child_task_ids ≤ x.spec.max_children))
                q (within, omega arith)
          | inr (e, old) ↦ v.bounded j m old
        ];
        clean = λ j m h. elim (cases j m h) [
          | inl (e, q) ↦ subst (λ (x : TaskNode). all is_clean x.spec.capabilities ≡ true) q clean
          | inr (e, old) ↦ v.clean j m old
        ];
        settled = λ j m h. elim (cases j m h) [
          | inl (e, q) ↦ subst (λ (x : TaskNode). terminal x.state ≡ is_some x.result) q refl
          | inr (e, old) ↦ v.settled j m old
        ];
        linked = λ j m c h g. elim (cases j m h) [
          | inl (e, q) ↦
              absurd
                (true≢false (sym g ∙ sym (ap (λ (x : TaskNode). contains c x.child_task_ids) q)))
          | inr (e, old) ↦ grown_child m c (v.linked j m c old g)
        ];
      }

spawning-active : (s : AgentState) → may_spawn s ≡ true → terminal s ≡ false
unfolding terminal
spawning-active AgentState.running h = refl
spawning-active AgentState.waiting h = refl
spawning-active AgentState.pending h = refl
spawning-active AgentState.interrupted h = refl
spawning-active AgentState.completed h = absurd (true≢false (sym h))
spawning-active AgentState.failed h = absurd (true≢false (sym h))
spawning-active AgentState.cancelled h = absurd (true≢false (sym h))

spawning-not_complete : (s : AgentState) → may_spawn s ≡ true → s ≡ AgentState.completed → ⊥
spawning-not_complete s h p = true≢false (sym h ∙ ap may_spawn p)

-- A parent that takes up a task that is there.
module _ (nodes : Dict TaskNode) (v : IsValid nodes) (k : String) (p : TaskNode)
    (present : Dict.lookup nodes k ≡ some p) (child : TaskNode) (now : String)
    (child_present : Dict.lookup nodes child.spec.task_id ≡ some child)
    (s : Spawned p child.spec) where
  abbrev parent : TaskNode
  parent = with_child p child.spec.task_id now

  abbrev adopted : Dict TaskNode
  adopted = Dict.insert nodes k parent

  kept : (n : TaskNode) (c : String) → IsChild nodes n c → IsChild adopted n c
  kept = kept_child nodes k p parent present refl (spawning-active p.state s.parent_active)

  taken : (c : String) → contains c parent.child_task_ids ≡ true → IsChild nodes p c
  taken c h = elim (Bool-cases (contains c p.child_task_ids)) [
    | inl e ↦ v.linked k p c present e
    | inr e ↦
        let same : child.spec.task_id ≡ c = (eq_iff child.spec.task_id c).0 (
          ground (arith, e, any-append (λ x. x == c) p.child_task_ids (child.spec.task_id ∷ []))) in
        subst (IsChild nodes p) same (record {
          node = child;
          present = child_present;
          inherits = s.inherits;
          ended = λ g. absurd (spawning-not_complete p.state s.parent_active g);
        })
  ]

  pub adopted-IsValid : IsValid adopted
  adopted-IsValid = record {
    keyed = λ j m h. elim (lookup-put nodes k j parent m h) [
      | inl (e, q) ↦ ap (λ (x : TaskNode). x.spec.task_id) (sym q) ∙ v.keyed k p present ∙ e
      | inr (e, old) ↦ v.keyed j m old
    ];
    bounded = λ j m h. elim (lookup-put nodes k j parent m h) [
      | inl (e, q) ↦
          subst
            (λ (x : TaskNode).
              (x.spec.depth ≤ x.spec.max_depth) × (length x.child_task_ids ≤ x.spec.max_children))
            q
            (
              (v.bounded k p present).0,
              omega (arith, s.room, length-append p.child_task_ids (child.spec.task_id ∷ [])),
            )
      | inr (e, old) ↦ v.bounded j m old
    ];
    clean = λ j m h. elim (lookup-put nodes k j parent m h) [
      | inl (e, q) ↦
          subst (λ (x : TaskNode). all is_clean x.spec.capabilities ≡ true) q (v.clean k p present)
      | inr (e, old) ↦ v.clean j m old
    ];
    settled = λ j m h. elim (lookup-put nodes k j parent m h) [
      | inl (e, q) ↦
          subst (λ (x : TaskNode). terminal x.state ≡ is_some x.result) q (v.settled k p present)
      | inr (e, old) ↦ v.settled j m old
    ];
    linked = λ j m c h g. elim (lookup-put nodes k j parent m h) [
      | inl (e, q) ↦
          let c_in = ap (λ (x : TaskNode). contains c x.child_task_ids) q ∙ g in
          let old = kept p c (taken c c_in) in
          subst (λ x. IsChild adopted x c) q
            (record {
              node = old.node;
              present = old.present;
              inherits = old.inherits;
              ended = old.ended;
            })
      | inr (e, old) ↦ kept m c (v.linked j m c old g)
    ];
  }

module _ (f : Fresh) (g g' : TaskGraph) (parent_task_id objective : String)
    (budget : Option AgentBudget) (capabilities : Option (List String)) (constraints : List String)
    (metadata : Fields) (n : TaskNode)
    (h : spawn f g parent_task_id objective budget capabilities constraints metadata ≡ ok (n, g'))
    (v : IsValid g.nodes) where
  -- Spawning under an id that is not taken keeps the graph well-formed: the child has a part of the
  -- capabilities and of the budget of its parent, stands one step below it within the depth limit,
  -- and the parent has room for it.
  pub spawn-IsValid : Dict.lookup g.nodes n.spec.task_id ≡ none → IsValid g'.nodes
  unfolding spawn emit
  spawn-IsValid unknown =
      let (p, found_p, h1) = >>=-eq-ok (get g parent_task_id) _ h in
      let present = found g parent_task_id p found_p in
      let (spec, q, h2) =
        >>=-eq-ok (spawn_spec f p parent_task_id objective budget capabilities constraints metadata)
          _ h1 in
      let pair = ok-injective h2 in
      let s =
        spawn_spec-Spawned f p parent_task_id objective budget capabilities constraints metadata
          spec q (v.clean parent_task_id p present) in
      let free =
        ap (λ (x : TaskNode × TaskGraph). Dict.lookup g.nodes x.0.spec.task_id) pair ∙ unknown in
      let child = new_node spec f.now in
      subst (λ (x : TaskNode × TaskGraph). IsValid x.1.nodes) pair
        (adopted-IsValid (Dict.insert g.nodes spec.task_id child)
          (grown-IsValid g.nodes v spec f.now free s.within s.clean) parent_task_id p
          (grown-lookup g.nodes v spec f.now free s.within s.clean parent_task_id p present) child
          f.now (rw (lookup-insert g.nodes spec.task_id spec.task_id child, eq_refl spec.task_id))
          s)
