-- ===== src/Examples/Policy.antt =====
-- Approvals, leases and decisions at concrete inputs.
use aihi.Prelude.{
  String, ◌≡◌, refl, false, true, none, some, [], ◌∷◌, ok, err, ◌⊎◌, event_invariant_violation,
}
use aihi.Json.{Fields, str, obj, bool, end, field}
use aihi.Dict
use aihi.Event.{Event}
use aihi.Policy.Leases.{CapabilityLease}
use aihi.Policy.Approvals
use aihi.Policy.Approvals.{Approval}
use aihi.Policy.Leases
use aihi.Policy.Authorization.{
  AuthorizationState, empty, apply, from_events, approval_requested, approval_resolved,
  approval_consumed,
}
use aihi.Policy.Engine.{
  ToolSpec, PermissionContext, DecisionEffect, evaluate, has_capabilities, is_approved,
  requires_execution,
}
use aihi.Policy.Engine.Authority.{ApprovedBy, LeasedBy}
use aihi.Policy.Engine.Decisions.{privileged_needs_authority}
use aihi.Policy.Authorization.Invariant.{IsConsistent}
use aihi.Policy.Authorization.Replay.{from_events-IsConsistent, consumed_for_good, denied_for_good}
use aihi.Examples.Sample.{sample_python, event}

abbrev pub shell : Approval
shell = record {
  scope = "bash";
  granted_by = "user";
  expires_at = some 5;
  run_id = some "r";
  one_shot = false;
  approval_id = "a";
}

abbrev shell_fields : Fields
shell_fields = field "approval_id" (str "a") (
    field "scope" (str "bash") (
      field "granted_by" (str "user") (
        field "expires_at" (str "TTTTTT")
          (field "run_id" (str "r") (field "one_shot" (bool false) end)))))

abbrev pub asked : Event
asked = event "e1" "approval.requested" (some "r") (field "approval" (obj shell_fields) end)

abbrev pub answered : String → Event
answered status = event "e2" "approval.resolved" (some "r") (
    field "approval_id" (str "a") (
      field "approval" (obj shell_fields)
        (field "status" (str status) (field "one_shot" (bool true) end))))

abbrev spent : Event
spent = event "e3" "approval.consumed" (some "r") (field "approval_id" (str "a") end)

abbrev after_spending : AuthorizationState
after_spending = record empty {
  seen_approval_ids = "a" ∷ [];
  resolved_approval_ids = "a" ∷ [];
  consumed_approval_ids = "a" ∷ [];
}

-- Opens what a replay runs through.
replays : Unit {0}
unfolding from_events apply approval_requested approval_resolved approval_consumed
    Approvals.from_dict Approvals.approval_eq Dict.lookup Dict.insert Dict.remove
replays = tt

spending_replays : from_events (asked ∷ answered "granted" ∷ spent ∷ []) ≡ ok after_spending
unfolding replays
spending_replays = refl

-- A grant that has been consumed is not consumed again.
spending_twice :
    from_events (asked ∷ answered "granted" ∷ spent ∷ spent ∷ []) ≡ err event_invariant_violation
unfolding replays
spending_twice = refl

denial_replays :
    from_events (asked ∷ answered "denied" ∷ [])
    ≡ ok (record empty { seen_approval_ids = "a" ∷ []; resolved_approval_ids = "a" ∷ [] })
unfolding replays
denial_replays = refl

from_events-IsConsistent_example : IsConsistent after_spending
from_events-IsConsistent_example =
    from_events-IsConsistent (asked ∷ answered "granted" ∷ spent ∷ []) after_spending
      spending_replays

consumed_for_good_example : Dict.lookup after_spending.approvals "a" ≡ none
consumed_for_good_example =
    consumed_for_good (asked ∷ answered "granted" ∷ []) [] spent "a" after_spending refl refl
      spending_replays

denied_for_good_example : Dict.lookup {V = Approval} [] "a" ≡ none
denied_for_good_example =
    denied_for_good (asked ∷ []) [] (answered "denied") "a" _ refl refl refl denial_replays

-- A tool that runs commands, and the contexts in which it is evaluated.
abbrev pub bash : ToolSpec
bash = record {
  name = "bash";
  concurrency_safe = false;
  mutates = true;
  required_capabilities = "process.exec" ∷ [];
}

abbrev pub asking : PermissionContext
asking = record {
  leases = [];
  approvals = shell ∷ [];
  require_capability_lease = false;
  run_id = some "r";
}

abbrev exec_lease : CapabilityLease
exec_lease = record {
  lease_id = "l";
  run_id = "r";
  capabilities = "process.exec" ∷ [];
  expires_at = 9;
}

abbrev leased : PermissionContext
leased = record asking { leases = exec_lease ∷ []; require_capability_lease = true }

evaluates : Unit {0}
unfolding evaluate has_capabilities is_approved requires_execution Leases.grants Approvals.covers
evaluates = tt

asks_after_expiry : (evaluate bash asking 5).effect ≡ DecisionEffect.ask
unfolding evaluates
asks_after_expiry = refl

privileged_needs_authority_example :
    ApprovedBy asking "bash" 4 ⊎ LeasedBy asking ("process.exec" ∷ []) 4
unfolding evaluates
privileged_needs_authority_example = privileged_needs_authority bash asking 4 refl refl
