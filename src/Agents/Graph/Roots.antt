-- ===== src/Agents/Graph/Roots.antt =====
-- A new graph with its root is well-formed.
use aihi.Prelude.{
  String, ◌≡◌, refl, sym, subst, true, not, List, [], ◌∷◌, ok, agent_validation_error, raise_if,
  all, eq_refl, >>=-eq-ok, ok-injective, map_result,
}
use aihi.Json.{ℤ, Fields}
use aihi.Text.{strip}
use aihi.Text.Strip.{strip_twice}
use aihi.Dict
use aihi.Dict.{Dict}
use aihi.Agents.Types.{AgentBudget, TaskNode, new_spec, text_of}
use aihi.Agents.Graph.{Fresh, TaskGraph, create_root, emit, new_node, is_empty}
use aihi.Agents.Graph.Validity.{IsValid, is_clean}
use aihi.Agents.Graph.Spawning.{new_spec-Made, text_of-strip}
use aihi.Agents.Graph.Adoption.{grown-IsValid}

empty-IsValid : IsValid []
empty-IsValid = record {
  keyed = λ k n h. absurd (Dict.absent k h);
  bounded = λ k n h. absurd (Dict.absent k h);
  clean = λ k n h. absurd (Dict.absent k h);
  settled = λ k n h. absurd (Dict.absent k h);
  linked = λ k n c h g. absurd (Dict.absent k h);
}

texts-clean : (cs ds : List String) → map_result (text_of 256) cs ≡ ok ds → all is_clean ds ≡ true
texts-clean [] ds h = subst (λ xs. all is_clean xs ≡ true) (ok-injective h) refl
texts-clean (c ∷ cs) ds h =
    let (t, p, h1) = >>=-eq-ok (text_of 256 c) _ h in
    let (ts, q, h2) = >>=-eq-ok (map_result (text_of 256) cs) _ h1 in
    let own : strip t ≡ t = subst (λ x. strip x ≡ x) (text_of-strip 256 c t p) (strip_twice c) in
    subst (λ xs. all is_clean xs ≡ true) (ok-injective h2)
      (rw (own, eq_refl t, texts-clean cs ts q))

-- A graph that had no tasks is well-formed once its root has been made.
pub create_root-IsValid :
    (f : Fresh) (g g' : TaskGraph) (parent_run_id objective : String) (budget : AgentBudget)
    (capabilities constraints : List String) (max_depth max_children : ℤ) (metadata : Fields)
    (n : TaskNode)
    → create_root f g parent_run_id objective budget capabilities constraints max_depth max_children
        metadata
      ≡ ok (n, g')
    → g.nodes ≡ []
    → IsValid g'.nodes
unfolding create_root emit
create_root-IsValid f g g' parent_run_id objective budget capabilities constraints max_depth
      max_children metadata n h empty =
    let (spec, p, h1) = >>=-eq-ok (new_spec _) _ h in
    let (u, q, h2) = >>=-eq-ok (raise_if (not (is_empty g.roots)) agent_validation_error) _ h1 in
    let made = new_spec-Made _ spec p in
    subst (λ (x : TaskNode × TaskGraph). IsValid x.1.nodes) (ok-injective h2)
      (subst (λ nodes. IsValid (Dict.insert nodes spec.task_id (new_node spec f.now))) (sym empty)
        (grown-IsValid [] empty-IsValid spec f.now (Dict.lookup-empty spec.task_id) made.within
          (texts-clean capabilities spec.capabilities made.capabilities)))
