-- ===== src/Policy/Engine.antt =====
-- policy/engine.py: `PermissionContext` and `DefaultPolicyEngine`, at the instant `now`. The
-- reasons are left out; each rule has its id. `app_context` and the input are not read.
pub mod Authority
pub mod Decisions
use aihi.Prelude.{
  ℕ, String, Bool, true, false, not, ◌&&◌, ◌||◌, Option, none, some, List, [], ◌∷◌, ◌==◌, any,
  contains, if◌then◌else◌,
}
use aihi.Event.{same_text}
use aihi.Policy.Leases
use aihi.Policy.Leases.{CapabilityLease}
use aihi.Policy.Approvals
use aihi.Policy.Approvals.{Approval}

-- the fields of `ToolSpec` (tools/spec.py) that decisions and scheduling read
pub record ToolSpec : Type 0 where
  pub name : String
  pub concurrency_safe : Bool
  pub mutates : Bool
  pub required_capabilities : List String

pub record PermissionContext : Type 0 where
  pub leases : List CapabilityLease
  pub approvals : List Approval
  pub require_capability_lease : Bool
  pub run_id : Option String

pub data DecisionEffect : Type 0 where
  allow deny ask : DecisionEffect

pub record Decision : Type 0 where
  pub effect : DecisionEffect
  pub reason : String
  pub rule_id : String

abbrev pub is_nil : List String → Bool
is_nil [] = true
is_nil (x ∷ xs) = false

unfoldable pub has_capabilities : PermissionContext → List String → ℕ → Bool
has_capabilities c required now = is_nil required || elim c.run_id [
  | none ↦ false
  | some run ↦ any (λ l. (l.run_id == run) && Leases.grants l required now) c.leases
]

unfoldable pub is_approved : PermissionContext → String → ℕ → Bool
is_approved c scope now = elim c.run_id [
  | none ↦ false
  | some run ↦ any (λ a. same_text a.run_id (some run) && Approvals.covers a scope now) c.approvals
]

unfoldable pub requires_execution : ToolSpec → Bool
requires_execution spec = contains "process.exec" spec.required_capabilities

unfoldable pub evaluate : ToolSpec → PermissionContext → ℕ → Decision
evaluate spec c now =
    let executes = requires_execution spec in
    let capable = has_capabilities c spec.required_capabilities now in
    if c.require_capability_lease && not capable
    then record {
      effect = DecisionEffect.ask;
      reason = "The tool requires an active capability lease.";
      rule_id = "capability.lease_required";
    }
    else if (spec.mutates || executes) && is_approved c spec.name now
    then record {
      effect = DecisionEffect.allow;
      reason = "An active approval grant allows this privileged tool.";
      rule_id = "approval.granted";
    }
    else if c.require_capability_lease
        && (spec.mutates || executes)
        && not (is_nil spec.required_capabilities)
        && capable
    then record {
      effect = DecisionEffect.allow;
      reason = "An active capability lease allows this privileged tool.";
      rule_id = "capability.lease_granted";
    }
    else if executes
    then record {
      effect = DecisionEffect.ask;
      reason = "Process execution requires explicit approval.";
      rule_id = "default.execution_requires_approval";
    }
    else if spec.mutates
    then record {
      effect = DecisionEffect.ask;
      reason = "This tool can mutate external state and requires approval.";
      rule_id = "default.mutation_requires_approval";
    }
    else record {
      effect = DecisionEffect.allow;
      reason = "Read-only tool allowed by the default policy.";
      rule_id = "default.read_only";
    }
