-- ===== src/Coding/Subagents.antt =====
-- subagents/authority.py: the authority that a child run gets from its parent.
pub mod Narrowing
use aihi.Prelude.{
  ℕ, String, List, Option, some, none, Result, ok, err, value_error, contains, leb, if◌then◌else◌,
}
use aihi.Json.{Fields}
use aihi.Coding.Permissions.{AccessMode, CodeAgentPermissionContext, is_plan, build_run_profile}

-- `_ACCESS_RANK`
unfoldable pub access_rank : AccessMode → ℕ
access_rank AccessMode.read_only = 0
access_rank AccessMode.workspace_write = 1
access_rank AccessMode.full_access = 2

-- `min` by rank, which keeps the first of two equals
unfoldable pub lesser_access : AccessMode → AccessMode → AccessMode
unfolding access_rank
lesser_access a b = if leb (access_rank a) (access_rank b) then a else b

unfoldable pub access_for_capabilities : List String → AccessMode
access_for_capabilities capabilities =
    if contains "process.exec" capabilities
    then AccessMode.full_access
    else if contains "filesystem.write" capabilities
    then AccessMode.workspace_write
    else AccessMode.read_only

unfoldable pub narrow_coding_child_context :
    CodeAgentPermissionContext → List String → CodeAgentPermissionContext
unfolding lesser_access access_for_capabilities is_plan
narrow_coding_child_context parent capabilities = record {
  workspace = parent.workspace;
  access_mode =
      if is_plan parent.run_mode
      then AccessMode.read_only
      else lesser_access parent.access_mode (access_for_capabilities capabilities);
  run_mode = parent.run_mode;
  command_sandbox = parent.command_sandbox;
}

-- The factory of `coding_child_context_factory`, on the capabilities of the task and the context
-- of the parent's application: the child's context and the profile of its run.
unfoldable pub child_context :
    List String → Option CodeAgentPermissionContext → Result (CodeAgentPermissionContext × Fields)
unfolding narrow_coding_child_context build_run_profile
child_context capabilities none = err value_error
child_context capabilities (some parent) =
    let child = narrow_coding_child_context parent capabilities in
    ok (child, build_run_profile child)
