-- ===== src/Policy/Authorization.antt =====
-- `AuthorizationState` of policy/leases.py: the authorization that the events of a session replay
-- to. A set of ids is a list that is read by membership only.
pub mod Moves
pub mod Invariant
pub mod Replay
pub mod Keyed
use aihi.Prelude.{
  ℕ, String, ◌≡◌, Bool, true, false, not, ◌&&◌, ◌||◌, Option, none, some, List, [], ◌∷◌, Result, ok,
  err, event_invariant_violation, type_error, ◌>>=◌, ◌>>◌, raise_if, or_raise, ◌==◌, contains,
  filter, inl, inr, Bool-cases, is_some, if◌then◌else◌,
}
use aihi.Json.{
  Json, Fields, arr, obj, bool, str, get, get_or, as_dict, as_str, truthy, one_of, is_text,
}
use aihi.Dict
use aihi.Dict.{Dict}
use aihi.Event.{Event, same_text}
use aihi.Python.{Python}
use aihi.Policy.Leases
use aihi.Policy.Leases.{CapabilityLease}
use aihi.Policy.Approvals
use aihi.Policy.Approvals.{Approval, approval_eq}

pub record AuthorizationState : Type 0 where
  pub leases : Dict CapabilityLease
  pub approvals : Dict Approval
  pub pending_approvals : Dict Approval
  pub seen_lease_ids : List String
  pub revoked_lease_ids : List String
  pub seen_approval_ids : List String
  pub resolved_approval_ids : List String
  pub consumed_approval_ids : List String

abbrev pub empty : AuthorizationState
empty = record {
  leases = [];
  approvals = [];
  pending_approvals = [];
  seen_lease_ids = [];
  revoked_lease_ids = [];
  seen_approval_ids = [];
  resolved_approval_ids = [];
  consumed_approval_ids = [];
}

-- `text or ""`: a missing or empty text is falsy
abbrev pub is_blank : Option String → Bool
is_blank none = true
is_blank (some s) = s == ""

-- What a resolution leaves, once its request has been matched.
unfoldable pub resolve : AuthorizationState → String → Approval → Bool → Bool → AuthorizationState
resolve s approval_id approval is_granted one_shot = record s {
  approvals =
      if is_granted
      then Dict.insert s.approvals approval_id (record approval { one_shot = one_shot })
      else s.approvals;
  pending_approvals = Dict.remove s.pending_approvals approval_id;
  resolved_approval_ids = approval_id ∷ s.resolved_approval_ids;
}

module _ ⦃py : Python⦄ where
  unfoldable pub lease_issued : AuthorizationState → Event → Result AuthorizationState
  lease_issued s e = do
    raw_lease ← or_raise (as_dict (get e.payload "lease")) event_invariant_violation
    lease ← Leases.from_dict raw_lease
    raise_if (lease.run_id == "" || not (same_text e.run_id (some lease.run_id)))
        event_invariant_violation
    raise_if
        (contains lease.lease_id s.seen_lease_ids || contains lease.lease_id s.revoked_lease_ids)
        event_invariant_violation
    ok (record s {
      seen_lease_ids = lease.lease_id ∷ s.seen_lease_ids;
      leases = Dict.insert s.leases lease.lease_id lease;
    })

  unfoldable pub lease_revoked : AuthorizationState → Event → Result AuthorizationState
  lease_revoked s e = do
    lease_id ← or_raise (as_str (get e.payload "lease_id")) event_invariant_violation
    raise_if (not (is_some e.run_id)) event_invariant_violation
    revoked ← or_raise (Dict.lookup s.leases lease_id) event_invariant_violation
    raise_if (not (same_text (some revoked.run_id) e.run_id)) event_invariant_violation
    ok (record s {
      leases = Dict.remove s.leases lease_id;
      revoked_lease_ids = lease_id ∷ s.revoked_lease_ids;
    })

  unfoldable pub approval_requested : AuthorizationState → Event → Result AuthorizationState
  approval_requested s e = do
    raw_approval ← or_raise (as_dict (get e.payload "approval")) event_invariant_violation
    approval ← Approvals.from_dict raw_approval
    raise_if (is_blank approval.run_id || not (same_text e.run_id approval.run_id))
        event_invariant_violation
    raise_if
        (contains approval.approval_id s.seen_approval_ids
          || contains approval.approval_id s.resolved_approval_ids)
        event_invariant_violation
    ok (record s {
      seen_approval_ids = approval.approval_id ∷ s.seen_approval_ids;
      pending_approvals = Dict.insert s.pending_approvals approval.approval_id approval;
    })

  unfoldable pub approval_resolved : AuthorizationState → Event → Result AuthorizationState
  unfolding resolve
  approval_resolved s e = do
    let status = get e.payload "status"
    known ← one_of status ("granted" ∷ "denied" ∷ [])
    raise_if (not known) event_invariant_violation
    raw_approval ← or_raise (as_dict (get e.payload "approval")) event_invariant_violation
    approval_id ← or_raise (as_str (get e.payload "approval_id")) event_invariant_violation
    approval ← Approvals.from_dict raw_approval
    pending ← or_raise (Dict.lookup s.pending_approvals approval_id) event_invariant_violation
    raise_if
        (not (approval_eq pending approval)
          || not (approval.approval_id == approval_id)
          || not (same_text e.run_id pending.run_id))
        event_invariant_violation
    ok (
        resolve s approval_id approval (is_text status "granted")
          (truthy (get_or e.payload "one_shot" (bool false))))

  unfoldable pub approval_consumed : AuthorizationState → Event → Result AuthorizationState
  approval_consumed s e = do
    approval_id ← or_raise (as_str (get e.payload "approval_id")) event_invariant_violation
    granted ← or_raise (Dict.lookup s.approvals approval_id) event_invariant_violation
    raise_if (contains approval_id s.consumed_approval_ids) event_invariant_violation
    raise_if (not (same_text e.run_id granted.run_id)) event_invariant_violation
    raise_if (not granted.one_shot) event_invariant_violation
    ok (record s {
      approvals = Dict.remove s.approvals approval_id;
      consumed_approval_ids = approval_id ∷ s.consumed_approval_ids;
    })

  unfoldable pub apply : AuthorizationState → Event → Result AuthorizationState
  apply s e =
      if e.type == "capability.lease.issued"
      then lease_issued s e
      else if e.type == "capability.lease.revoked"
      then lease_revoked s e
      else if e.type == "approval.requested"
      then approval_requested s e
      else if e.type == "approval.resolved"
      then approval_resolved s e
      else if e.type == "approval.consumed"
      then approval_consumed s e
      else ok s

  -- The loop of `from_events`, from any state.
  unfoldable pub apply_all : AuthorizationState → List Event → Result AuthorizationState
  apply_all s [] = ok s
  apply_all s (e ∷ es) = do t ← apply s e; apply_all t es

  unfoldable pub from_events : List Event → Result AuthorizationState
  unfolding apply_all
  from_events events = apply_all empty events

-- The queries, at the instant `now`
unfoldable pub active_leases : AuthorizationState → String → ℕ → List CapabilityLease
active_leases s run_id now =
    filter (λ l. l.run_id == run_id && Leases.active l now) (Dict.values s.leases)

unfoldable pub active_approvals : AuthorizationState → String → ℕ → List Approval
active_approvals s run_id now =
    filter (λ a. same_text a.run_id (some run_id) && Approvals.active a now)
      (Dict.values s.approvals)

abbrev first : List Approval → Option Approval
first [] = none
first (a ∷ as') = some a

unfoldable pub consumable_approval : AuthorizationState → String → String → ℕ → Option Approval
consumable_approval s run_id scope now = first (
    filter (λ a. same_text a.run_id (some run_id) && a.one_shot && Approvals.covers a scope now)
      (Dict.values s.approvals))

abbrev if_active : Option Approval → ℕ → Option Approval
if_active none now = none
if_active (some a) now = if Approvals.active a now then some a else none

abbrev or_else : Option Approval → Option Approval → Option Approval
or_else none b = b
or_else (some a) b = some a

unfoldable pub approval : AuthorizationState → String → ℕ → Option Approval
approval s k now =
    if_active (or_else (Dict.lookup s.approvals k) (Dict.lookup s.pending_approvals k)) now

unfoldable pub pending_approval : AuthorizationState → String → ℕ → Option Approval
pending_approval s k now = if_active (Dict.lookup s.pending_approvals k) now
