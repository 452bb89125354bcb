-- ===== src/Agents/Graph/Spawning.antt =====
-- A task that is spawned inherits from its parent, and the graph stays well-formed.
use mathlib.Core.Bool.{true≢false}
use aihi.Prelude.{
  ℕ, suc, String, ◌≡◌, ◌≤◌, ◌<◌, refl, sym, ap, ◌∙◌, subst, true, not, Option, List, [], ◌∷◌, ok,
  agent_state_error, agent_permission_denied, agent_budget_exceeded, agent_depth_exceeded,
  agent_validation_error, raise_if, arith, inl, inr, Bool-cases, contains, subset, all, ◌==◌,
  eq_iff, eq_refl, >>=-eq-ok, ok-injective, map_result, length, ltb, leb,
}
use aihi.Json.{Fields}
use aihi.Text.{strip}
use aihi.Agents.Types.{
  AgentBudget, is_subset_of, TaskSpec, SpecArguments, new_spec, text_of, parent_text, natural,
  TaskNode,
}
use aihi.Agents.Graph.{Fresh, spawn_spec, may_spawn, default_budget, default_capabilities}
use aihi.Agents.Graph.Validity.{Inherits, is_clean}

-- What the fields of a new task are.
pub record Made (a : SpecArguments) (s : TaskSpec) : Type 0 where
  pub budget : s.budget ≡ a.budget
  pub depth : s.depth ≡ a.depth
  pub max_depth : natural a.max_depth ≡ ok s.max_depth
  pub max_children : natural a.max_children ≡ ok s.max_children
  pub capabilities : map_result (text_of 256) a.capabilities ≡ ok s.capabilities
  pub within : s.depth ≤ s.max_depth

pub new_spec-Made : (a : SpecArguments) (s : TaskSpec) → new_spec a ≡ ok s → Made a s
unfolding new_spec
new_spec-Made a s h =
    let (r1, p1, h1) = >>=-eq-ok (text_of 256 a.parent_run_id) _ h in
    let (r2, p2, h2) = >>=-eq-ok (text_of 4096 a.objective) _ h1 in
    let (r3, p3, h3) = >>=-eq-ok (text_of 256 a.task_id) _ h2 in
    let (r4, p4, h4) = >>=-eq-ok (text_of 256 a.child_run_id) _ h3 in
    let (r5, p5, h5) = >>=-eq-ok (raise_if (a.created_at == "") agent_validation_error) _ h4 in
    let (r6, p6, h6) = >>=-eq-ok (parent_text a.parent_task_id) _ h5 in
    let (r7, p7, h7) = >>=-eq-ok (map_result (text_of 4096) a.constraints) _ h6 in
    let (caps, pc, h8) = >>=-eq-ok (map_result (text_of 256) a.capabilities) _ h7 in
    let (depth, pd, h9) = >>=-eq-ok (natural a.max_depth) _ h8 in
    let (u, pu, h10) = >>=-eq-ok (raise_if (ltb depth a.depth) agent_validation_error) _ h9 in
    let (wide, pw, h11) = >>=-eq-ok (natural a.max_children) _ h10 in
    let made = ok-injective h11 in
    record {
      budget = ap (λ (x : TaskSpec). x.budget) (sym made);
      depth = ap (λ (x : TaskSpec). x.depth) (sym made);
      max_depth = pd ∙ ap (λ (x : TaskSpec). ok x.max_depth) made;
      max_children = pw ∙ ap (λ (x : TaskSpec). ok x.max_children) made;
      capabilities = pc ∙ ap (λ (x : TaskSpec). ok x.capabilities) made;
      within = subst (λ (x : TaskSpec). x.depth ≤ x.max_depth) made (ground (arith, pu));
    }

pub text_of-strip : (n : ℕ) (s t : String) → text_of n s ≡ ok t → strip s ≡ t
unfolding text_of
text_of-strip n s t h = ground arith

clean_member :
    (c : String) (ps : List String) → contains c ps ≡ true → all is_clean ps ≡ true → strip c ≡ c
clean_member c [] h g = absurd (true≢false (sym h))
clean_member c (p ∷ ps) h g = ground (arith, clean_member c ps, eq_iff p c, eq_iff (strip p) p)

-- Capabilities that are all the parent's lose nothing by `strip`.
subset-clean :
    (cs ds ps : List String)
    → map_result (text_of 256) cs ≡ ok ds
    → subset cs ps ≡ true
    → all is_clean ps ≡ true
    → (subset ds ps ≡ true) × (all is_clean ds ≡ true)
subset-clean [] ds ps h g clean =
    subst (λ xs. (subset xs ps ≡ true) × (all is_clean xs ≡ true)) (ok-injective h) (refl, refl)
subset-clean (c ∷ cs) ds ps h g clean =
    let (t, p, h1) = >>=-eq-ok (text_of 256 c) _ h in
    let (ts, q, h2) = >>=-eq-ok (map_result (text_of 256) cs) _ h1 in
    elim (Bool-cases (contains c ps)) [
      | inr e ↦ absurd (true≢false (ground arith))
      | inl e ↦
          let (sub, all_clean) = subset-clean cs ts ps q (rw e at g) clean in
          let own = clean_member c ps e clean in
          let same : c ≡ t = sym own ∙ text_of-strip 256 c t p in
          subst (λ xs. (subset xs ps ≡ true) × (all is_clean xs ≡ true)) (ok-injective h2)
            (subst (λ x. (subset (x ∷ ts) ps ≡ true) × (all is_clean (x ∷ ts) ≡ true)) same
              (rw (e, sub), rw (own, eq_refl c, all_clean)))
    ]

-- What `spawn` has checked of the parent and made of the child.
pub record Spawned (parent : TaskNode) (spec : TaskSpec) : Type 0 where
  pub parent_active : may_spawn parent.state ≡ true
  pub room : length parent.child_task_ids < parent.spec.max_children
  pub inherits : Inherits parent.spec spec
  pub clean : all is_clean spec.capabilities ≡ true
  pub within : spec.depth ≤ spec.max_depth

module _ (f : Fresh) (parent : TaskNode) (parent_task_id objective : String)
    (budget : Option AgentBudget) (capabilities : Option (List String)) (constraints : List String)
    (metadata : Fields) where
  pub spawn_spec-Spawned :
      (spec : TaskSpec)
      → spawn_spec f parent parent_task_id objective budget capabilities constraints metadata
        ≡ ok spec
      → all is_clean parent.spec.capabilities ≡ true
      → Spawned parent spec
  unfolding spawn_spec
  spawn_spec-Spawned spec h clean =
      let own_budget = default_budget budget parent.spec.budget in
      let own = default_capabilities capabilities parent.spec.capabilities in
      let (u1, p1, h1) =
        >>=-eq-ok (raise_if (not (may_spawn parent.state)) agent_state_error) _ h in
      let (u2, p2, h2) =
        >>=-eq-ok
          (raise_if (leb parent.spec.max_children (length parent.child_task_ids))
            agent_permission_denied)
          _ h1 in
      let (u3, p3, h3) =
        >>=-eq-ok (raise_if (not (subset own parent.spec.capabilities)) agent_permission_denied) _
          h2 in
      let (u4, p4, h4) =
        >>=-eq-ok
          (raise_if (not (is_subset_of own_budget parent.spec.budget)) agent_budget_exceeded) _
          h3 in
      let (u5, p5, h5) =
        >>=-eq-ok
          (raise_if (ltb parent.spec.max_depth (suc parent.spec.depth)) agent_depth_exceeded) _
          h4 in
      let made = new_spec-Made _ spec h5 in
      let (sub, all_clean) =
        subset-clean own spec.capabilities parent.spec.capabilities made.capabilities
          (ground (arith, p3)) clean in
      record {
        parent_active = ground (arith, p1);
        room = ground (arith, p2);
        inherits = record {
          depth = made.depth;
          max_depth = sym (ok-injective made.max_depth);
          max_children = omega (arith, ok-injective made.max_children);
          capabilities = sub;
          budget = rw made.budget (ground (arith, p4));
        };
        clean = all_clean;
        within = made.within;
      }
