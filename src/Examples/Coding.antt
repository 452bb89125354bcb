-- ===== src/Examples/Coding.antt =====
-- The coding agent's policy, its child runs and its frames at concrete inputs.
use aihi.Prelude.{
  String, ◌≡◌, ◌↔◌, refl, value_error, true, false, none, some, [], ◌∷◌, ◌++◌, Option, Result, ok,
  err, ◌≤◌, length, frame_error, arith,
}
use aihi.Json.{Fields, str, end, field}
use aihi.Policy.Approvals
use aihi.Policy.Engine.{ToolSpec, Decision, DecisionEffect, has_capabilities, is_approved}
use aihi.Coding.Permissions.{
  AccessMode, RunMode, SandboxDescriptor, CodeAgentPermissionContext, evaluate_coding,
  evaluate_modes, is_plan, is_read_only, is_full_access, executes_process, local_file_write,
}
use aihi.Coding.Paths.{
  sensitive_path, any_sensitive, is_sensitive, candidates, fnmatch, in_text, with_slashes,
  components, split_slash,
}
use aihi.Coding.Permissions.Authority.{IsAllowed}
use aihi.Coding.Permissions.Decisions.{Permits, evaluate_coding-IsAllowed}
use aihi.Coding.Subagents.{
  child_context, narrow_coding_child_context, lesser_access, access_rank, access_for_capabilities,
}
use aihi.Coding.Subagents.Narrowing.{child_context-allows, child_context-denied}
use aihi.Coding.Framing.{
  Bytes, codes, read_frame, read_lines, after_line, header_line, length_line, readline, read,
  partition, strip, parse_int, digits_value, same_bytes, read_payload, write_frame, decimal,
  decimal_rounds, frame_header,
}
use aihi.Coding.Framing.Ends.{read_frame-ends, read_frame_bound}
use aihi.Coding.Framing.Roundtrip.{read_frame-write_frame}
use aihi.Examples.Policy.{bash, asking}

abbrev local : SandboxDescriptor
local = record {
  name = "local";
  unsafe = true;
  filesystem_isolated = false;
  network_isolated = false;
  filesystem_write_isolated = false;
  process_isolated = false;
  mechanism = "none";
  image = none;
  network_mode = none;
  mount_scope = none;
}

abbrev app : CodeAgentPermissionContext
app = record {
  workspace = "/w";
  access_mode = AccessMode.workspace_write;
  run_mode = RunMode.execute;
  command_sandbox = local;
}

abbrev edit : ToolSpec
edit = record {
  name = "edit";
  concurrency_safe = false;
  mutates = true;
  required_capabilities = "filesystem.write" ∷ [];
}

abbrev at_path : String → Fields
at_path path = field "path" (str path) end

-- The workspace's files are asked for by absolute paths.
abbrev absolute : String → String → Result String
absolute workspace path = ok path

policy_runs : Unit {0}
unfolding evaluate_coding evaluate_modes sensitive_path any_sensitive is_sensitive candidates
    fnmatch in_text with_slashes components split_slash is_plan is_read_only is_full_access
    executes_process local_file_write has_capabilities is_approved Approvals.covers
policy_runs = tt

abbrev effect_of : Result Decision → Option DecisionEffect
effect_of (ok d) = some d.effect
effect_of (err x) = none

-- A home directory that cannot be found: the policy raises, and decides nothing.
abbrev homeless : String → String → Result String
homeless workspace path = err value_error

raises : effect_of (evaluate_coding homeless edit (at_path "~x/a") (some app) asking 9) ≡ none
unfolding policy_runs
raises = refl

-- An edit needs no approval, an expired approval does not let a command run, and a key of the
-- user is out of reach.
edits : Permits (evaluate_coding absolute edit (at_path "/w/a") (some app) asking 9)
unfolding policy_runs
edits = refl

asks :
    effect_of (evaluate_coding absolute bash (at_path "/w/a") (some app) asking 9)
    ≡ some DecisionEffect.ask
unfolding policy_runs
asks = refl

denies :
    effect_of (evaluate_coding absolute edit (at_path "/h/.ssh/id") (some app) asking 9)
    ≡ some DecisionEffect.deny
unfolding policy_runs
denies = refl

evaluate_coding-IsAllowed_example :
    Permits (evaluate_coding absolute edit (at_path "/w/a") (some app) asking 9)
    ↔ (sensitive_path absolute (at_path "/w/a") "/w" ≡ ok false) × IsAllowed edit app asking 9
evaluate_coding-IsAllowed_example =
    evaluate_coding-IsAllowed absolute edit (at_path "/w/a") app asking 9

child_runs : Unit {0}
unfolding policy_runs child_context narrow_coding_child_context lesser_access access_rank
    access_for_capabilities
child_runs = tt

-- A child that may write files is no more than a writer under a parent with full access.
abbrev full : CodeAgentPermissionContext
full = record app { access_mode = AccessMode.full_access }

child_context-allows_example :
    Permits (evaluate_coding absolute edit (at_path "/w/a") (some full) asking 9)
unfolding child_runs
child_context-allows_example =
    child_context-allows absolute edit (at_path "/w/a") asking 9 full app ("filesystem.write" ∷ [])
      _ refl refl

-- A child that may only read files: an approval of the parent's run does not let it edit.
abbrev reader : CodeAgentPermissionContext
reader = record app { access_mode = AccessMode.read_only }

abbrev refusal : Decision
refusal = record {
  effect = DecisionEffect.deny;
  reason = "The read-only access mode cannot be upgraded by approval.";
  rule_id = "access_mode.read_only";
}

child_context-denied_example : refusal.effect ≡ DecisionEffect.deny
unfolding child_runs
child_context-denied_example =
    child_context-denied absolute edit (at_path "/w/a") asking 9 full reader
      ("filesystem.read" ∷ []) _ refusal refl refl refl refl refl

-- The bytes of a frame and of one more byte.
frames : Unit {0}
unfolding readline read_frame read_lines after_line header_line length_line partition strip
    parse_int digits_value same_bytes read_payload read write_frame decimal decimal_rounds
frames = tt

abbrev stream : Bytes
stream = codes "content-LENGTH : 5" ++ 13 ∷ 10 ∷ 10 ∷ codes "hello!"

reads : read_frame 100 30 stream ≡ some (ok (some (codes "hello"), codes "!"))
unfolding frames
reads = refl

cut_short :
    read_frame 100 30 (codes "Content-Length: 9" ++ 10 ∷ 10 ∷ codes "abc") ≡ some (err frame_error)
unfolding frames
cut_short = refl

read_frame-ends_example : (r : Result (Option Bytes × Bytes)) × (read_frame 100 30 stream ≡ some r)
read_frame-ends_example = read_frame-ends 100 30 stream

read_frame_bound_example : length (codes "hello") ≤ 100
read_frame_bound_example = read_frame_bound 100 30 stream (codes "hello") (codes "!") reads

abbrev encode : Fields → Result Bytes
encode payload = ok (codes "{}")

read_frame-write_frame_example :
    read_frame 100 30 ((frame_header 2 ++ 13 ∷ 10 ∷ codes "{}") ++ codes "!")
    ≡ some (ok (some (codes "{}"), codes "!"))
unfolding frames
read_frame-write_frame_example =
    read_frame-write_frame encode 100 30 end (codes "{}") (frame_header 2 ++ 13 ∷ 10 ∷ codes "{}")
      (codes "!") (omega arith) refl refl (omega arith) (omega arith)
