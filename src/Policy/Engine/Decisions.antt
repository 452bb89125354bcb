-- ===== src/Policy/Engine/Decisions.antt =====
-- What `DefaultPolicyEngine.evaluate` decides, and the authority behind each permission.
use aihi.Prelude.{ℕ, ◌≡◌, ◌≢◌, Bool, true, false, ◌||◌, ◌↔◌, ◌⊎◌, arith, inl, inr, Bool-cases}
use aihi.Policy.Engine.{
  ToolSpec, PermissionContext, DecisionEffect, is_nil, is_approved, requires_execution, evaluate,
}
use aihi.Policy.Engine.Authority.{
  ApprovedBy, LeasedBy, is_approved-ApprovedBy, has_capabilities-LeasedBy, ApprovedBy-is_approved,
  LeasedBy-has_capabilities,
}

abbrev pub is_privileged : ToolSpec → Bool
is_privileged spec = spec.mutates || requires_execution spec

-- A tool that mutates or executes is allowed only on authority that is alive and of the run: an
-- approval of the tool's name or of every tool, or one lease of all the capabilities it requires.
pub privileged_needs_authority :
    (spec : ToolSpec) (c : PermissionContext) (now : ℕ)
    → is_privileged spec ≡ true
    → (evaluate spec c now).effect ≡ DecisionEffect.allow
    → ApprovedBy c spec.name now ⊎ LeasedBy c spec.required_capabilities now
unfolding evaluate
privileged_needs_authority spec c now priv h = elim (Bool-cases (is_approved c spec.name now)) [
  | inl e ↦ inl (is_approved-ApprovedBy c spec.name now e)
  | inr e ↦
      inr (has_capabilities-LeasedBy c spec.required_capabilities now (ground arith) (ground arith))
]

-- Without required leases, a tool that mutates or executes is allowed exactly when a live approval
-- of its name, or of every tool, is held for the run.
pub allowed_iff_approved :
    (spec : ToolSpec) (c : PermissionContext) (now : ℕ)
    → is_privileged spec ≡ true
    → c.require_capability_lease ≡ false
    → ((evaluate spec c now).effect ≡ DecisionEffect.allow) ↔ ApprovedBy c spec.name now
unfolding evaluate
allowed_iff_approved spec c now priv free = (
  λ h. is_approved-ApprovedBy c spec.name now (ground arith),
  λ by. ground (arith, ApprovedBy-is_approved c spec.name now by),
)

-- Where leases are required, a tool that requires capabilities, be it read-only or not, is allowed
-- exactly when one live lease of all of them is held for the run.
pub allowed_iff_leased :
    (spec : ToolSpec) (c : PermissionContext) (now : ℕ)
    → c.require_capability_lease ≡ true
    → is_nil spec.required_capabilities ≡ false
    → ((evaluate spec c now).effect ≡ DecisionEffect.allow)
      ↔ LeasedBy c spec.required_capabilities now
unfolding evaluate
allowed_iff_leased spec c now req some_required = (
  λ h. has_capabilities-LeasedBy c spec.required_capabilities now (ground arith) some_required,
  λ by. ground (arith, LeasedBy-has_capabilities c spec.required_capabilities now by),
)

-- The engine never denies: what it does not allow it asks for.
pub evaluate-ne-deny :
    (spec : ToolSpec) (c : PermissionContext) (now : ℕ)
    → (evaluate spec c now).effect ≢ DecisionEffect.deny
unfolding evaluate
evaluate-ne-deny spec c now h = ground arith
