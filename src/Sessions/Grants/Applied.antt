-- ===== src/Sessions/Grants/Applied.antt =====
-- What the event of each authorization call does to the authorization of its session.
use aihi.Prelude.{
  ℕ, String, ◌≡◌, refl, ap, ◌∙◌, subst, Bool, true, false, not, Option, some, List, [], ◌∷◌, ◌++◌,
  ok, err, event_invariant_violation, ◌>>=◌, raise_if, or_raise, ◌==◌, arith, ok-injective,
  >>=-eq-ok, contains, eq_refl, if◌then◌else◌,
}
use aihi.Json.{ℤ, Fields, obj, str, end, field, find_field}
use aihi.Dict
use aihi.Event.{Event, persisted, same_text, same_text-eq}
use aihi.Python.{Python}
use aihi.Policy.Leases
use aihi.Policy.Leases.{CapabilityLease, sorted}
use aihi.Policy.Approvals
use aihi.Policy.Approvals.{Approval, approval_eq}
use aihi.Policy.Authorization.{
  AuthorizationState, from_events, apply, apply_all, resolve, empty, lease_issued, lease_revoked,
  approval_requested, approval_resolved, approval_consumed, pending_approval,
}
use aihi.Policy.Authorization.Replay.{from_events-IsConsistent}
use aihi.Policy.Roundtrip.{lease_from-to, approval_from-to, approval_eq_refl}
use aihi.Sessions.Session.{Session}
use aihi.Sessions.Grants.{
  Call, call_event, resolution, add_metadata, issue_lease_plan, revoke_lease_plan,
  request_approval_plan, resolve_approval_plan, consume_approval_plan,
}
use aihi.Sessions.Grants.Payloads.{issued, asked, find_field-add_metadata}

module _ ⦃py : Python⦄ where
  apply_all-snoc :
      (s t : AuthorizationState) (es : List Event) (e : Event)
      → apply_all s es ≡ ok t
      → apply_all s (es ++ e ∷ []) ≡ apply t e
  unfolding apply_all
  apply_all-snoc s t [] e h = ground arith
  apply_all-snoc s t (x ∷ es) e h =
      let (u, p, q) = >>=-eq-ok (apply s x) _ h in
      ap (λ r. r >>= λ v. apply_all v (es ++ e ∷ [])) p ∙ apply_all-snoc u t es e q

  pub from_events-snoc :
      (t : AuthorizationState) (es : List Event) (e : Event)
      → from_events es ≡ ok t
      → from_events (es ++ e ∷ []) ≡ apply t e
  unfolding from_events
  from_events-snoc t es e h = apply_all-snoc empty t es e h

-- The state after each call.
abbrev pub lease_added : AuthorizationState → CapabilityLease → AuthorizationState
lease_added t l = record t {
  seen_lease_ids = l.lease_id ∷ t.seen_lease_ids;
  leases = Dict.insert t.leases l.lease_id (record l { capabilities = sorted l.capabilities });
}

abbrev pub request_added : AuthorizationState → Approval → AuthorizationState
request_added t a = record t {
  seen_approval_ids = a.approval_id ∷ t.seen_approval_ids;
  pending_approvals = Dict.insert t.pending_approvals a.approval_id a;
}

abbrev pub lease_dropped : AuthorizationState → String → AuthorizationState
lease_dropped t lease_id = record t {
  leases = Dict.remove t.leases lease_id;
  revoked_lease_ids = lease_id ∷ t.revoked_lease_ids;
}

abbrev pub grant_spent : AuthorizationState → String → AuthorizationState
grant_spent t approval_id = record t {
  approvals = Dict.remove t.approvals approval_id;
  consumed_approval_ids = approval_id ∷ t.consumed_approval_ids;
}

pending_found :
    (t : AuthorizationState) (k : String) (now : ℕ) (a : Approval)
    → or_raise (pending_approval t k now) event_invariant_violation ≡ ok a
    → Dict.lookup t.pending_approvals k ≡ some a
unfolding pending_approval
pending_found t k now a h = ground arith

module _ ⦃py : Python⦄ (session : Session) (c : Call) (t : AuthorizationState) (n : ℕ) where
  pub issue_lease_plan-apply :
      (lease_id : String) (capabilities : List String) (ttl : ℤ) (issued_by : String)
      (lease : CapabilityLease) (e : Event)
      → contains lease_id t.seen_lease_ids ≡ false
      → contains lease_id t.revoked_lease_ids ≡ false
      → issue_lease_plan c session lease_id capabilities ttl issued_by ≡ ok (lease, e)
      → apply t (persisted e n) ≡ ok (lease_added t lease)
  unfolding issue_lease_plan apply lease_issued
  issue_lease_plan-apply lease_id capabilities ttl issued_by lease e unseen unrevoked h =
      let (l, p, q) = >>=-eq-ok (Leases.issue lease_id c.now c.run_id capabilities ttl) _ h in
      let (own, run, named) = issued lease_id c.now c.run_id capabilities ttl l p in
      subst (λ (r : CapabilityLease × Event). apply t (persisted r.1 n) ≡ ok (lease_added t r.0))
        (ok-injective q)
        (rw (lease_from-to l, own, run, named, eq_refl c.run_id, unseen, unrevoked))

  request-apply :
      (a : Approval) (payload : Fields)
      → find_field "approval" payload ≡ some (obj (Approvals.to_dict a))
      → a.run_id ≡ some c.run_id
      → (c.run_id == "") ≡ false
      → contains a.approval_id t.seen_approval_ids ≡ false
      → contains a.approval_id t.resolved_approval_ids ≡ false
      → apply t (persisted (call_event c session "approval.requested" payload) n)
        ≡ ok (request_added t a)
  unfolding apply approval_requested
  request-apply a payload found run named unseen unresolved =
      rw (found, approval_from-to a, run, named, eq_refl c.run_id, unseen, unresolved)

  pub request_approval_plan-apply :
      (approval_id scope requested_by : String) (ttl : Option ℤ) (metadata : Fields) (a : Approval)
      (e : Event)
      → (c.run_id == "") ≡ false
      → contains approval_id t.seen_approval_ids ≡ false
      → contains approval_id t.resolved_approval_ids ≡ false
      → request_approval_plan c session approval_id scope requested_by ttl metadata ≡ ok (a, e)
      → apply t (persisted e n) ≡ ok (request_added t a)
  unfolding request_approval_plan
  request_approval_plan-apply approval_id scope requested_by ttl metadata a e named unseen
        unresolved h =
      let (b, p, q) =
        >>=-eq-ok (Approvals.issue approval_id c.now scope requested_by (some c.run_id) ttl) _ h in
      let (payload, m, r) =
        >>=-eq-ok
          (add_metadata
            (field "approval" (obj (Approvals.to_dict b))
              (field "requested_by" (str requested_by) end))
            metadata)
          _ q in
      let (own, run) = asked approval_id c.now scope requested_by c.run_id ttl b p in
      subst (λ (r : Approval × Event). apply t (persisted r.1 n) ≡ ok (request_added t r.0))
        (ok-injective r)
        (request-apply b payload (find_field-add_metadata "approval" _ metadata payload m refl) run
          named (rw own unseen) (rw own unresolved))

  module _ (before : from_events session.events ≡ ok t) where
    pub revoke_lease_plan-apply :
        (lease_id revoked_by : String) (u : Unit {0}) (e : Event)
        → revoke_lease_plan c session lease_id revoked_by ≡ ok (u, e)
        → apply t (persisted e n) ≡ ok (lease_dropped t lease_id)
    unfolding revoke_lease_plan apply lease_revoked
    revoke_lease_plan-apply lease_id revoked_by u e h =
        let (l, p, q) =
          >>=-eq-ok (or_raise (Dict.lookup t.leases lease_id) event_invariant_violation) _
            (rw before at h) in
        let (v, a, r) =
          >>=-eq-ok (raise_if (not (l.run_id == c.run_id)) event_invariant_violation) _ q in
        subst (λ (r : Unit {0} × Event). apply t (persisted r.1 n) ≡ ok (lease_dropped t lease_id))
          (ok-injective r) (ground (arith, p, a))

    pub consume_approval_plan-apply :
        (approval_id scope : String) (u : Unit {0}) (e : Event) (a : Approval)
        → consume_approval_plan c session approval_id scope ≡ ok (u, e)
        → Dict.lookup t.approvals approval_id ≡ some a
        → apply t (persisted e n) ≡ (
            if same_text (some c.run_id) a.run_id
            then ok (grant_spent t approval_id)
            else err event_invariant_violation)
    unfolding consume_approval_plan apply approval_consumed
    consume_approval_plan-apply approval_id scope u e a h found =
        let v = from_events-IsConsistent session.events t before in
        let (b, p, q) =
          >>=-eq-ok (or_raise (Dict.lookup t.approvals approval_id) event_invariant_violation) _
            (rw before at h) in
        let (w, s, r) = >>=-eq-ok (raise_if (not b.one_shot) event_invariant_violation) _ q in
        subst
          (λ (r : Unit {0} × Event). apply t (persisted r.1 n) ≡ (
            if same_text (some c.run_id) a.run_id
            then ok (grant_spent t approval_id)
            else err event_invariant_violation))
          (ok-injective r) (ground (arith, p, found, s, v.granted_unspent approval_id a found))

    resolution-apply :
        (approval_id : String) (approved : Bool) (resolved_by : String) (one_shot : Bool)
        (a : Approval)
        → Dict.lookup t.pending_approvals approval_id ≡ some a
        → same_text a.run_id (some c.run_id) ≡ true
        → apply t (
            persisted
              (call_event c session "approval.resolved"
                (resolution approval_id a approved resolved_by one_shot))
              n)
          ≡ ok (resolve t approval_id a approved one_shot)
    unfolding apply approval_resolved resolve
    resolution-apply approval_id true resolved_by one_shot a found own =
        let v = from_events-IsConsistent session.events t before in
        let named = (v.pending_owned approval_id a found).0 in
        let run = same_text-eq a.run_id (some c.run_id) own in
        rw (
          approval_from-to a,
          found,
          approval_eq_refl a,
          named,
          eq_refl approval_id,
          run,
          eq_refl c.run_id,
        )
    resolution-apply approval_id false resolved_by one_shot a found own =
        let v = from_events-IsConsistent session.events t before in
        let named = (v.pending_owned approval_id a found).0 in
        let run = same_text-eq a.run_id (some c.run_id) own in
        rw (
          approval_from-to a,
          found,
          approval_eq_refl a,
          named,
          eq_refl approval_id,
          run,
          eq_refl c.run_id,
        )

    pub resolve_approval_plan-apply :
        (approval_id : String) (approved : Bool) (resolved_by : String) (one_shot : Bool)
        (o : Option Approval) (e : Event)
        → resolve_approval_plan c session approval_id approved resolved_by one_shot ≡ ok (o, e)
        → (a : Approval) × (Dict.lookup t.pending_approvals approval_id ≡ some a)
          × (apply t (persisted e n) ≡ ok (resolve t approval_id a approved one_shot))
    unfolding resolve_approval_plan
    resolve_approval_plan-apply approval_id approved resolved_by one_shot o e h =
        let (a, p, q) =
          >>=-eq-ok (or_raise (pending_approval t approval_id c.now) event_invariant_violation) _
            (rw before at h) in
        let (w, s, r) =
          >>=-eq-ok (raise_if (not (same_text a.run_id (some c.run_id))) event_invariant_violation)
            _ q in
        let found = pending_found t approval_id c.now a p in
        (
          a,
          found,
          subst
              (λ (r : Option Approval × Event).
                apply t (persisted r.1 n) ≡ ok (resolve t approval_id a approved one_shot))
              (ok-injective r)
              (resolution-apply approval_id approved resolved_by one_shot a found
                (ground (arith, s))),
        )
