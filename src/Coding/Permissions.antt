-- ===== src/Coding/Permissions.antt =====
-- permissions.py: the access and run modes and `CodeAgentPolicy`, and `SandboxDescriptor` of
-- packages/aihi/agent/src/aihi/agent/sandbox/base.py. The workspace of a
-- context is already resolved, and `resolved` gives the absolute form of a path.
pub mod Authority
pub mod Decisions
use Prim.Native.Char.{Char, code}
use aihi.Prelude.{
  Result, ok, ◌>>=◌, ℕ, String, Bool, true, false, not, ◌&&◌, ◌||◌, Option, none, some, List, [],
  ◌∷◌, ◌++◌, map, ◌==◌, any, contains, subset, nat_eq, if◌then◌else◌,
}
use aihi.Json.{Json, Fields, null, bool, str, obj, end, field, get, list_of, arr}
use aihi.Policy.Approvals.{json_text}
use aihi.Policy.Engine.{
  ToolSpec, PermissionContext, Decision, DecisionEffect, is_nil, has_capabilities, is_approved,
}
use aihi.Coding.Paths.{sensitive_path}

pub data AccessMode : Type 0 where
  read_only workspace_write full_access : AccessMode

pub data RunMode : Type 0 where
  execute plan : RunMode

pub record SandboxDescriptor : Type 0 where
  pub name : String
  pub unsafe : Bool
  pub filesystem_isolated : Bool
  pub network_isolated : Bool
  pub filesystem_write_isolated : Bool
  pub process_isolated : Bool
  pub mechanism : String
  pub image : Option String
  pub network_mode : Option String
  pub mount_scope : Option String

unfoldable pub descriptor_to_dict : SandboxDescriptor → Fields
descriptor_to_dict d = field "name" (str d.name) (
    field "unsafe" (bool d.unsafe) (
      field "filesystem_isolated" (bool d.filesystem_isolated) (
        field "network_isolated" (bool d.network_isolated) (
          field "filesystem_write_isolated" (bool d.filesystem_write_isolated) (
            field "process_isolated" (bool d.process_isolated) (
              field "mechanism" (str d.mechanism) (
                field "image" (json_text d.image) (
                  field "network_mode" (json_text d.network_mode)
                    (field "mount_scope" (json_text d.mount_scope) end)))))))))

pub record CodeAgentPermissionContext : Type 0 where
  pub workspace : String
  pub access_mode : AccessMode
  pub run_mode : RunMode
  pub command_sandbox : SandboxDescriptor

abbrev pub local_file_capabilities : List String
local_file_capabilities = "filesystem.read" ∷ "filesystem.write" ∷ []

unfoldable pub is_read_only : AccessMode → Bool
is_read_only AccessMode.read_only = true
is_read_only _ = false

unfoldable pub is_full_access : AccessMode → Bool
is_full_access AccessMode.full_access = true
is_full_access _ = false

unfoldable pub is_plan : RunMode → Bool
is_plan RunMode.plan = true
is_plan RunMode.execute = false

unfoldable pub executes_process : ToolSpec → Bool
executes_process spec = contains "process.exec" spec.required_capabilities

unfoldable pub local_file_write : ToolSpec → Bool
local_file_write spec =
    spec.mutates
    && contains "filesystem.write" spec.required_capabilities
    && subset spec.required_capabilities local_file_capabilities

-- the rules behind the check of the path
unfoldable pub evaluate_modes :
    ToolSpec → CodeAgentPermissionContext → PermissionContext → ℕ → Decision
evaluate_modes spec app c now =
    let privileged = spec.mutates || executes_process spec in
    let capable = has_capabilities c spec.required_capabilities now in
    if is_plan app.run_mode && privileged
    then record {
      effect = DecisionEffect.deny;
      reason = "Mutating and process-executing tools are disabled in plan mode.";
      rule_id = "run_mode.plan.read_only";
    }
    else if is_read_only app.access_mode && privileged
    then record {
      effect = DecisionEffect.deny;
      reason = "The read-only access mode cannot be upgraded by approval.";
      rule_id = "access_mode.read_only";
    }
    else if c.require_capability_lease && not capable
    then record {
      effect = DecisionEffect.ask;
      reason = "The tool requires an active capability lease.";
      rule_id = "capability.lease_required";
    }
    else if privileged && is_approved c spec.name now
    then record {
      effect = DecisionEffect.allow;
      reason = "An active approval grant allows this privileged tool.";
      rule_id = "approval.granted";
    }
    else if c.require_capability_lease
        && privileged
        && not (is_nil spec.required_capabilities)
        && capable
    then record {
      effect = DecisionEffect.allow;
      reason = "An active capability lease allows this privileged tool.";
      rule_id = "capability.lease_granted";
    }
    else if is_full_access app.access_mode
    then record {
      effect = DecisionEffect.allow;
      reason = "Full-access mode allows the tool after hard safety checks.";
      rule_id = "access_mode.full_access";
    }
    else if executes_process spec
    then record {
      effect = DecisionEffect.ask;
      reason = "Workspace-write mode requires approval for arbitrary commands.";
      rule_id = "access_mode.workspace_write.command_approval";
    }
    else if local_file_write spec
    then record {
      effect = DecisionEffect.allow;
      reason = "Workspace-write mode allows application-owned local file edits.";
      rule_id = "access_mode.workspace_write.local_edit";
    }
    else if spec.mutates
    then record {
      effect = DecisionEffect.ask;
      reason = "Workspace-write mode requires approval for external mutation.";
      rule_id = "access_mode.workspace_write.external_approval";
    }
    else record {
      effect = DecisionEffect.allow;
      reason = "Read-only tool allowed by Coding Agent policy.";
      rule_id = "code_agent.read_only";
    }

-- the decision behind the check of the paths
abbrev pub decide : ToolSpec → CodeAgentPermissionContext → PermissionContext → ℕ → Bool → Decision
decide spec app c now true = record {
  effect = DecisionEffect.deny;
  reason = "Sensitive credential paths are never available to Coding tools.";
  rule_id = "code_agent.sensitive_path";
}
decide spec app c now false = evaluate_modes spec app c now

-- `CodeAgentPolicy.evaluate`; `app` is the context that the application put in, if it did
unfoldable pub evaluate_coding :
    (String → String → Result String)
    → ToolSpec
    → Fields
    → Option CodeAgentPermissionContext
    → PermissionContext
    → ℕ
    → Result Decision
evaluate_coding resolved spec input none c now = ok (record {
  effect = DecisionEffect.deny;
  reason = "Coding tools require an application permission context.";
  rule_id = "code_agent.context_required";
})
evaluate_coding resolved spec input (some app) c now = do
  sensitive ← sensitive_path resolved input app.workspace
  ok (decide spec app c now sensitive)

abbrev pub access_value : AccessMode → String
access_value AccessMode.read_only = "read_only"
access_value AccessMode.workspace_write = "workspace_write"
access_value AccessMode.full_access = "full_access"

abbrev pub mode_value : RunMode → String
mode_value RunMode.execute = "execute"
mode_value RunMode.plan = "plan"

unfoldable pub build_run_profile : CodeAgentPermissionContext → Fields
build_run_profile app = field "schema" (str "aihi.code_agent.run_profile.v1") (
    field "workspace" (str app.workspace) (
      field "access_mode" (str (access_value app.access_mode)) (
        field "run_mode" (str (mode_value app.run_mode))
          (field "command_sandbox" (obj (descriptor_to_dict app.command_sandbox)) end))))
