-- ===== src/Sessions/Grants.antt =====
-- The authorization calls of `Session`: each checks the replayed authorization and appends one
-- event. Generated ids and times are arguments; `now` is the instant, `stamp` its text.
pub mod Steps
pub mod Payloads
pub mod Applied
pub mod Replays
use aihi.Prelude.{
  ℕ, String, Bool, true, false, not, ◌&&◌, ◌||◌, Option, none, some, List, [], ◌∷◌, Result, ok, err,
  event_invariant_violation, ◌>>=◌, ◌>>◌, raise_if, or_raise, ◌==◌, if◌then◌else◌,
}
use aihi.Json.{ℤ, Json, Fields, obj, bool, str, end, field, has_field, set_field}
use aihi.Dict
use aihi.Event.{Event, new_event, same_text}
use aihi.Python.{Python}
use aihi.Policy.Leases
use aihi.Policy.Leases.{CapabilityLease}
use aihi.Policy.Approvals
use aihi.Policy.Approvals.{Approval}
use aihi.Policy.Authorization
use aihi.Policy.Authorization.{AuthorizationState, from_events}
use aihi.Sessions.Store.{Store}
use aihi.Sessions.Session.{Session, Outcome, append_many}

-- A call appends the event that its checks settle on, and returns a value beside it.
abbrev pub Plan : Type 0 → Type 0
Plan A = Result (A × Event)

-- The part of `metadata` that `request_approval` adds to the event: a key that is there is refused.
unfoldable pub add_metadata : Fields → Fields → Result Fields
add_metadata fields end = ok fields
add_metadata fields (field k v rest) = do
  raise_if (has_field fields k) event_invariant_violation
  add_metadata (set_field fields k v) rest

module _ ⦃py : Python⦄ (fresh : ℕ → Event → String) where
  unfoldable pub perform : {A : Type 0} → Store → Session → Plan A → Outcome A
  perform store session plan = elim plan [
    | err x ↦ record { result = err x; store = store; session = session }
    | ok (a, e) ↦
        let o = append_many fresh store session (e ∷ []) in
        record { result = o.result >>= λ _. ok a; store = o.store; session = o.session }
  ]

-- What each call needs: the time, the generated ids, and the run.
pub record Call : Type 0 where
  pub now : ℕ
  pub stamp : String
  pub event_id : String
  pub run_id : String

abbrev pub call_event : Call → Session → String → Fields → Event
call_event c session type payload =
    new_event c.event_id c.stamp type session.id (some c.run_id) payload

module _ ⦃py : Python⦄ where
  unfoldable pub issue_lease_plan :
      Call → Session → String → List String → ℤ → String → Plan CapabilityLease
  issue_lease_plan c session lease_id capabilities ttl issued_by = do
    lease ← Leases.issue lease_id c.now c.run_id capabilities ttl
    ok (
      lease,
      call_event c session "capability.lease.issued"
          (field "lease" (obj (Leases.to_dict lease)) (field "issued_by" (str issued_by) end)),
    )

  unfoldable pub revoke_lease_plan : Call → Session → String → String → Plan (Unit {0})
  revoke_lease_plan c session lease_id revoked_by = do
    authorization ← from_events session.events
    lease ← or_raise (Dict.lookup authorization.leases lease_id) event_invariant_violation
    raise_if (not (lease.run_id == c.run_id)) event_invariant_violation
    ok (
      tt,
      call_event c session "capability.lease.revoked"
          (field "lease_id" (str lease_id) (field "revoked_by" (str revoked_by) end)),
    )

  unfoldable pub request_approval_plan :
      Call → Session → String → String → String → Option ℤ → Fields → Plan Approval
  request_approval_plan c session approval_id scope requested_by ttl metadata = do
    approval ← Approvals.issue approval_id c.now scope requested_by (some c.run_id) ttl
    payload ←
        add_metadata
          (field "approval" (obj (Approvals.to_dict approval))
            (field "requested_by" (str requested_by) end))
          metadata
    ok (approval, call_event c session "approval.requested" payload)

  abbrev pub status_text : Bool → String
  status_text approved = if approved then "granted" else "denied"

  abbrev pub resolution : String → Approval → Bool → String → Bool → Fields
  resolution approval_id approval approved resolved_by one_shot =
      field "approval_id" (str approval_id) (
        field "approval" (obj (Approvals.to_dict approval)) (
          field "status" (str (status_text approved))
            (field "resolved_by" (str resolved_by) (field "one_shot" (bool one_shot) end))))

  unfoldable pub resolve_approval_plan :
      Call → Session → String → Bool → String → Bool → Plan (Option Approval)
  resolve_approval_plan c session approval_id approved resolved_by one_shot = do
    authorization ← from_events session.events
    approval ←
        or_raise (Authorization.pending_approval authorization approval_id c.now)
          event_invariant_violation
    raise_if (not (same_text approval.run_id (some c.run_id))) event_invariant_violation
    ok (
      if approved then some approval else none,
      call_event c session "approval.resolved"
          (resolution approval_id approval approved resolved_by one_shot),
    )

  -- `consume_approval`: the run of the grant is not compared with the run of the call.
  unfoldable pub consume_approval_plan : Call → Session → String → String → Plan (Unit {0})
  consume_approval_plan c session approval_id scope = do
    authorization ← from_events session.events
    approval ← or_raise (Dict.lookup authorization.approvals approval_id) event_invariant_violation
    raise_if (not approval.one_shot) event_invariant_violation
    ok (
      tt,
      call_event c session "approval.consumed"
          (field "approval_id" (str approval_id) (field "scope" (str scope) end)),
    )

module _ ⦃py : Python⦄ (fresh : ℕ → Event → String) (store : Store) (session : Session) where
  unfoldable pub issue_capability_lease :
      Call → String → List String → ℤ → String → Outcome CapabilityLease
  issue_capability_lease c lease_id capabilities ttl issued_by =
      perform fresh store session (issue_lease_plan c session lease_id capabilities ttl issued_by)

  unfoldable pub revoke_capability_lease : Call → String → String → Outcome (Unit {0})
  revoke_capability_lease c lease_id revoked_by =
      perform fresh store session (revoke_lease_plan c session lease_id revoked_by)

  unfoldable pub request_approval :
      Call → String → String → String → Option ℤ → Fields → Outcome Approval
  request_approval c approval_id scope requested_by ttl metadata =
      perform fresh store session
        (request_approval_plan c session approval_id scope requested_by ttl metadata)

  unfoldable pub resolve_approval : Call → String → Bool → String → Bool → Outcome (Option Approval)
  resolve_approval c approval_id approved resolved_by one_shot =
      perform fresh store session
        (resolve_approval_plan c session approval_id approved resolved_by one_shot)

  unfoldable pub consume_approval : Call → String → String → Outcome (Unit {0})
  consume_approval c approval_id scope =
      perform fresh store session (consume_approval_plan c session approval_id scope)
