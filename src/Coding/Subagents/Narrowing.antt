-- ===== src/Coding/Subagents/Narrowing.antt =====
-- The authority of a child run against that of its parent.
use aihi.Prelude.{
  Result, Bool, >>=-eq-ok, ℕ, String, ◌≡◌, true, false, List, some, contains, arith, ok, ap, refl,
  ok-injective, subst, sym, Bool-cases, inl, inr, ◌∙◌,
}
use aihi.Json.{Fields}
use aihi.Policy.Engine.{ToolSpec, PermissionContext, Decision, DecisionEffect}
use aihi.Coding.Permissions.{
  AccessMode, CodeAgentPermissionContext, is_read_only, is_full_access, is_plan, evaluate_modes,
  evaluate_coding, decide,
}
use aihi.Coding.Paths.{sensitive_path}
use aihi.Coding.Permissions.Authority.{is_privileged}
use aihi.Coding.Permissions.Decisions.{Permits, evaluate_coding-modes}
use aihi.Coding.Subagents.{
  lesser_access, access_for_capabilities, narrow_coding_child_context, child_context,
}

-- The rules read the access mode by two tests only, and in plan mode they need no floor.
module _ (spec : ToolSpec) (c : PermissionContext) (now : ℕ)
    (child parent : CodeAgentPermissionContext)
    (mode : is_plan child.run_mode ≡ is_plan parent.run_mode)
    (floor : is_plan parent.run_mode ≡ false
      → is_read_only parent.access_mode ≡ true
      → is_read_only child.access_mode ≡ true)
    (ceiling : is_full_access child.access_mode ≡ true
      → is_full_access parent.access_mode ≡ true) where
  below-allows :
      (evaluate_modes spec child c now).effect ≡ DecisionEffect.allow
      → (evaluate_modes spec parent c now).effect ≡ DecisionEffect.allow
  unfolding evaluate_modes
  below-allows h = ground arith

lesser_access_floor :
    (a b : AccessMode) → is_read_only a ≡ true → is_read_only (lesser_access a b) ≡ true
unfolding lesser_access is_read_only
lesser_access_floor AccessMode.read_only b h = ground arith
lesser_access_floor AccessMode.workspace_write b h = cc
lesser_access_floor AccessMode.full_access b h = cc

lesser_access_ceiling :
    (a b : AccessMode) → is_full_access (lesser_access a b) ≡ true → is_full_access a ≡ true
unfolding lesser_access is_full_access
lesser_access_ceiling AccessMode.read_only b h = ground arith
lesser_access_ceiling AccessMode.workspace_write b h = ground arith
lesser_access_ceiling AccessMode.full_access b h = refl

lesser_access_read_only :
    (a : AccessMode) → is_read_only (lesser_access a AccessMode.read_only) ≡ true
unfolding lesser_access is_read_only
lesser_access_read_only AccessMode.read_only = refl
lesser_access_read_only AccessMode.workspace_write = refl
lesser_access_read_only AccessMode.full_access = refl

module _ (parent : CodeAgentPermissionContext) (capabilities : List String) where
  narrow_floor :
      is_plan parent.run_mode ≡ false
      → is_read_only parent.access_mode ≡ true
      → is_read_only (narrow_coding_child_context parent capabilities).access_mode ≡ true
  unfolding narrow_coding_child_context
  narrow_floor p h =
      rw p (lesser_access_floor parent.access_mode (access_for_capabilities capabilities) h)

  narrow_ceiling :
      is_full_access (narrow_coding_child_context parent capabilities).access_mode ≡ true
      → is_full_access parent.access_mode ≡ true
  unfolding narrow_coding_child_context
  narrow_ceiling h = elim (Bool-cases (is_plan parent.run_mode)) [
    | inl p ↦ absurd (read_only-not_full (rw p at h))
    | inr p ↦
        lesser_access_ceiling parent.access_mode (access_for_capabilities capabilities) (rw p at h)
  ]
    where
      read_only-not_full : is_full_access AccessMode.read_only ≡ true → ⊥
      read_only-not_full q = unfold is_full_access in cc

  narrow_read_only :
      contains "process.exec" capabilities ≡ false
      → contains "filesystem.write" capabilities ≡ false
      → is_read_only (narrow_coding_child_context parent capabilities).access_mode ≡ true
  unfolding narrow_coding_child_context access_for_capabilities
  narrow_read_only no_exec no_write = elim (Bool-cases (is_plan parent.run_mode)) [
    | inl p ↦ rw p (unfold is_read_only in refl)
    | inr p ↦ rw (p, no_exec, no_write) (lesser_access_read_only parent.access_mode)
  ]

-- Narrowing keeps the workspace and the run mode.
narrow_kept :
    (parent : CodeAgentPermissionContext) (capabilities : List String)
    → ((narrow_coding_child_context parent capabilities).workspace ≡ parent.workspace)
      × ((narrow_coding_child_context parent capabilities).run_mode ≡ parent.run_mode)
unfolding narrow_coding_child_context
narrow_kept parent capabilities = (refl, refl)

child_context-narrow :
    (parent child : CodeAgentPermissionContext) (capabilities : List String) (profile : Fields)
    → child_context capabilities (some parent) ≡ ok (child, profile)
    → narrow_coding_child_context parent capabilities ≡ child
unfolding child_context
child_context-narrow parent child capabilities profile made = ap (λ r. r.0) (ok-injective made)

-- A child run never has authority that its parent lacks: what the policy allows in the context of
-- the child, on any input and with any approvals and leases, it allows in that of the parent.
pub child_context-allows :
    (resolved : String → String → Result String) (spec : ToolSpec) (input : Fields)
    (c : PermissionContext) (now : ℕ) (parent child : CodeAgentPermissionContext)
    (capabilities : List String) (profile : Fields)
    → child_context capabilities (some parent) ≡ ok (child, profile)
    → Permits (evaluate_coding resolved spec input (some child) c now)
    → Permits (evaluate_coding resolved spec input (some parent) c now)
child_context-allows resolved spec input c now parent child capabilities profile made h =
    let narrowed = child_context-narrow parent child capabilities profile made in
    let (w, m) = narrow_kept parent capabilities in
    let (checked, allowed) = (evaluate_coding-modes resolved spec input child c now).0 h in
    (evaluate_coding-modes resolved spec input parent c now).1 (
      subst (λ x. sensitive_path resolved input x ≡ ok false)
          (ap (λ x. x.workspace) (sym narrowed) ∙ w) checked,
      below-allows spec c now (narrow_coding_child_context parent capabilities) parent
          (ap is_plan m) (narrow_floor parent capabilities) (narrow_ceiling parent capabilities)
          (subst (λ x. (evaluate_modes spec x c now).effect ≡ DecisionEffect.allow) (sym narrowed)
            allowed),
    )

-- A child run whose task has neither the right to run processes nor that to write files is denied
-- every tool that mutates or executes, whatever approvals and leases it holds, if the policy returns
-- a decision.
pub child_context-denied :
    (resolved : String → String → Result String) (spec : ToolSpec) (input : Fields)
    (c : PermissionContext) (now : ℕ) (parent child : CodeAgentPermissionContext)
    (capabilities : List String) (profile : Fields) (d : Decision)
    → child_context capabilities (some parent) ≡ ok (child, profile)
    → contains "process.exec" capabilities ≡ false
    → contains "filesystem.write" capabilities ≡ false
    → is_privileged spec ≡ true
    → evaluate_coding resolved spec input (some child) c now ≡ ok d
    → d.effect ≡ DecisionEffect.deny
unfolding evaluate_coding
child_context-denied resolved spec input c now parent child capabilities profile d made no_exec
      no_write priv h =
    let narrowed = child_context-narrow parent child capabilities profile made in
    let below =
      subst (λ x. is_read_only x.access_mode ≡ true) narrowed
        (narrow_read_only parent capabilities no_exec no_write) in
    let (sensitive, p, q) =
      >>=-eq-ok (sensitive_path resolved input child.workspace)
        (λ b. ok (decide spec child c now b)) h in
    subst (λ (x : Decision). x.effect ≡ DecisionEffect.deny) (ok-injective q)
      (denied sensitive below)
  where
    denied :
        (sensitive : Bool)
        → is_read_only child.access_mode ≡ true
        → (decide spec child c now sensitive).effect ≡ DecisionEffect.deny
    denied true below = refl
    denied false below = unfold evaluate_modes in ground arith
