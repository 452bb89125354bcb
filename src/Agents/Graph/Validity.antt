-- ===== src/Agents/Graph/Validity.antt =====
-- A well-formed task graph: what `_validate_graph` asks of each node and of each link to a child.
use mathlib.Core.Bool.{true≢false}
use aihi.Prelude.{
  suc, String, ◌≡◌, ◌≤◌, sym, ap, ◌∙◌, subst, Bool, true, false, some, inl, inr, Bool-cases,
  contains, subset, all, is_some, ◌==◌, eq_iff, length, ◌⊎◌,
}
use aihi.Text.{strip}
use aihi.Dict
use aihi.Dict.{Dict, lookup-insert}
use aihi.Agents.Types.{AgentState, terminal, TaskSpec, TaskNode, is_subset_of}

-- A child task has no more authority than its parent, and stands one step below it.
pub record Inherits (parent child : TaskSpec) : Type 0 where
  pub depth : child.depth ≡ suc parent.depth
  pub max_depth : child.max_depth ≡ parent.max_depth
  pub max_children : child.max_children ≤ parent.max_children
  pub capabilities : subset child.capabilities parent.capabilities ≡ true
  pub budget : is_subset_of child.budget parent.budget ≡ true

-- The child that stands under an id: it inherits, and it has ended if its parent is complete.
pub record IsChild (nodes : Dict TaskNode) (parent : TaskNode) (child_id : String) : Type 0 where
  pub node : TaskNode
  pub present : Dict.lookup nodes child_id ≡ some node
  pub inherits : Inherits parent.spec node.spec
  pub ended : parent.state ≡ AgentState.completed → terminal node.state ≡ true

-- A capability without spaces at its ends.
abbrev pub is_clean : String → Bool
is_clean c = strip c == c

pub record IsValid (nodes : Dict TaskNode) : Type 0 where
  pub keyed : (k : String) (n : TaskNode) → Dict.lookup nodes k ≡ some n → n.spec.task_id ≡ k
  pub bounded :
      (k : String) (n : TaskNode)
      → Dict.lookup nodes k ≡ some n
      → (n.spec.depth ≤ n.spec.max_depth) × (length n.child_task_ids ≤ n.spec.max_children)
  pub clean :
      (k : String) (n : TaskNode)
      → Dict.lookup nodes k ≡ some n
      → all is_clean n.spec.capabilities ≡ true
  pub settled :
      (k : String) (n : TaskNode)
      → Dict.lookup nodes k ≡ some n
      → terminal n.state ≡ is_some n.result
  pub linked :
      (k : String) (n : TaskNode) (c : String)
      → Dict.lookup nodes k ≡ some n
      → contains c n.child_task_ids ≡ true
      → IsChild nodes n c

pub some-injective : {A : Type 0} {a b : A} → some a ≡ some b → a ≡ b
some-injective p = cc

-- A lookup after a write is of the new node or of an old one.
pub lookup-put :
    (nodes : Dict TaskNode) (k j : String) (n m : TaskNode)
    → Dict.lookup (Dict.insert nodes k n) j ≡ some m
    → ((k ≡ j) × (n ≡ m)) ⊎ (((k == j) ≡ false) × (Dict.lookup nodes j ≡ some m))
lookup-put nodes k j n m h = elim (Bool-cases (k == j)) [
  | inl e ↦ inl ((eq_iff k j).0 e, some-injective (rw (lookup-insert nodes k j n, e) at h))
  | inr e ↦ inr (e, rw (lookup-insert nodes k j n, e) at h)
]

module _ (nodes : Dict TaskNode) (k : String) (n n' : TaskNode)
    (present : Dict.lookup nodes k ≡ some n) (same_spec : n'.spec ≡ n.spec)
    (active : terminal n.state ≡ false) where
  -- A child of an old node is one still.
  pub kept_child :
      (p : TaskNode) (c : String) → IsChild nodes p c → IsChild (Dict.insert nodes k n') p c
  kept_child p c old = elim (Bool-cases (k == c)) [
    | inl e ↦
        let same : old.node ≡ n = some-injective (
          sym old.present ∙ subst (λ i. Dict.lookup nodes i ≡ some n) ((eq_iff k c).0 e) present) in
        record {
          node = n';
          present = rw (lookup-insert nodes k c n', e);
          inherits = rw same_spec (subst (λ m. Inherits p.spec m.spec) same old.inherits);
          ended = λ h. absurd (
              true≢false
                (sym (old.ended h) ∙ ap (λ (m : TaskNode). terminal m.state) same ∙ active));
        }
    | inr e ↦ record {
      node = old.node;
      present = rw (lookup-insert nodes k c n', e) old.present;
      inherits = old.inherits;
      ended = old.ended;
    }
  ]

-- A node that is replaced by one with the same task and children.
module _ (nodes : Dict TaskNode) (v : IsValid nodes) (k : String) (n n' : TaskNode)
    (present : Dict.lookup nodes k ≡ some n) (same_spec : n'.spec ≡ n.spec)
    (same_children : n'.child_task_ids ≡ n.child_task_ids) (active : terminal n.state ≡ false)
    (settled : terminal n'.state ≡ is_some n'.result)
    (children_ended : n'.state ≡ AgentState.completed
      → (c : String) (m : TaskNode) → contains c n.child_task_ids ≡ true
      → Dict.lookup nodes c ≡ some m
      → terminal m.state ≡ true) where
  abbrev new_nodes : Dict TaskNode
  new_nodes = Dict.insert nodes k n'

  -- A child of the replaced node is one of the new node.
  new_child : (c : String) → contains c n.child_task_ids ≡ true → IsChild new_nodes n' c
  new_child c h =
      let old = v.linked k n c present h in
      elim (Bool-cases (k == c)) [
        | inl e ↦
            let same : old.node ≡ n = some-injective (
              sym old.present
              ∙ subst (λ i. Dict.lookup nodes i ≡ some n) ((eq_iff k c).0 e) present) in
            record {
              node = n';
              present = rw (lookup-insert nodes k c n', e);
              inherits = rw same_spec (subst (λ m. Inherits n.spec m.spec) same old.inherits);
              ended = λ g. absurd (
                  true≢false (
                    sym (children_ended g c old.node h old.present)
                    ∙ ap (λ (m : TaskNode). terminal m.state) same
                    ∙ active));
            }
        | inr e ↦ record {
          node = old.node;
          present = rw (lookup-insert nodes k c n', e) old.present;
          inherits = rw same_spec old.inherits;
          ended = λ g. children_ended g c old.node h old.present;
        }
      ]

  pub replace-IsValid : IsValid new_nodes
  replace-IsValid = record {
    keyed = λ j m h. elim (lookup-put nodes k j n' m h) [
      | inl (e, q) ↦
          ap (λ (x : TaskNode). x.spec.task_id) (sym q)
          ∙ ap (λ (x : TaskSpec). x.task_id) same_spec
          ∙ v.keyed k n present
          ∙ e
      | inr (e, old) ↦ v.keyed j m old
    ];
    bounded = λ j m h. elim (lookup-put nodes k j n' m h) [
      | inl (e, q) ↦
          subst
            (λ (x : TaskNode).
              (x.spec.depth ≤ x.spec.max_depth) × (length x.child_task_ids ≤ x.spec.max_children))
            q (rw (same_spec, same_children) (v.bounded k n present))
      | inr (e, old) ↦ v.bounded j m old
    ];
    clean = λ j m h. elim (lookup-put nodes k j n' m h) [
      | inl (e, q) ↦
          subst (λ (x : TaskNode). all is_clean x.spec.capabilities ≡ true) q
            (rw same_spec (v.clean k n present))
      | inr (e, old) ↦ v.clean j m old
    ];
    settled = λ j m h. elim (lookup-put nodes k j n' m h) [
      | inl (e, q) ↦ subst (λ (x : TaskNode). terminal x.state ≡ is_some x.result) q settled
      | inr (e, old) ↦ v.settled j m old
    ];
    linked = λ j m c h g. elim (lookup-put nodes k j n' m h) [
      | inl (e, q) ↦
          subst (λ (x : TaskNode). IsChild new_nodes x c) q
            (new_child c (
              sym (ap (contains c) same_children)
              ∙ ap (λ (x : TaskNode). contains c x.child_task_ids) q
              ∙ g))
      | inr (e, old) ↦ kept_child nodes k n n' present same_spec active m c (v.linked j m c old g)
    ];
  }
