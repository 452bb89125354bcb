-- ===== src/Sessions/Grants/Replays.antt =====
-- The authorization that the log of a session replays to after an authorization call.
use aihi.Prelude.{
  ℕ, suc, String, ◌≡◌, ap, ◌∙◌, Bool, false, Option, some, List, ok, err, event_invariant_violation,
  ◌==◌, contains, if◌then◌else◌,
}
use aihi.Json.{ℤ, Fields}
use aihi.Dict
use aihi.Event.{Event, persisted, same_text}
use aihi.Python.{Python}
use aihi.Policy.Leases.{CapabilityLease}
use aihi.Policy.Approvals.{Approval}
use aihi.Policy.Authorization.{AuthorizationState, from_events, apply, resolve}
use aihi.Sessions.Store.{Store}
use aihi.Sessions.Session.{Session}
use aihi.Sessions.Grants.{
  Call, Plan, perform, issue_lease_plan, revoke_lease_plan, request_approval_plan,
  resolve_approval_plan, consume_approval_plan, issue_capability_lease, revoke_capability_lease,
  request_approval, resolve_approval, consume_approval,
}
use aihi.Sessions.Grants.Steps.{perform-adds}
use aihi.Sessions.Grants.Applied.{
  from_events-snoc, lease_added, lease_dropped, grant_spent, request_added, issue_lease_plan-apply,
  revoke_lease_plan-apply, consume_approval_plan-apply, resolve_approval_plan-apply,
  request_approval_plan-apply,
}

module _ ⦃py : Python⦄ (fresh : ℕ → Event → String) (store : Store) (session : Session) (c : Call)
    (t : AuthorizationState) (before : from_events session.events ≡ ok t) where
  performed :
      {A : Type 0} (plan : Plan A) (a : A)
      → (perform fresh store session plan).result ≡ ok a
      → (e : Event) × (plan ≡ ok (a, e))
        × (from_events (perform fresh store session plan).session.events
            ≡ apply t (persisted e (suc session.head_seq)))
  performed plan a h =
      let (e, p, q) = perform-adds fresh store session plan a h in
      (e, p, ap from_events q ∙ from_events-snoc t session.events _ before)

  -- Of a session whose log replays: when a lease has been issued under an id that the log has not
  -- seen, the log replays to the state with this lease in force and nothing else changed.
  pub issue_capability_lease-from_events :
      (lease_id : String) (capabilities : List String) (ttl : ℤ) (issued_by : String)
      (lease : CapabilityLease)
      → contains lease_id t.seen_lease_ids ≡ false
      → contains lease_id t.revoked_lease_ids ≡ false
      → let o = issue_capability_lease fresh store session c lease_id capabilities ttl issued_by in
        o.result ≡ ok lease → from_events o.session.events ≡ ok (lease_added t lease)
  unfolding issue_capability_lease
  issue_capability_lease-from_events lease_id capabilities ttl issued_by lease unseen unrevoked h =
      let plan = issue_lease_plan c session lease_id capabilities ttl issued_by in
      let (e, p, q) = performed plan lease h in
      q
      ∙ issue_lease_plan-apply session c t (suc session.head_seq) lease_id capabilities ttl
          issued_by lease e unseen unrevoked p

  -- Of a session whose log replays: when a lease has been revoked, the log replays to the state
  -- without it and nothing else changed.
  pub revoke_capability_lease-from_events :
      (lease_id revoked_by : String) (u : Unit {0})
      → let o = revoke_capability_lease fresh store session c lease_id revoked_by in
        o.result ≡ ok u → from_events o.session.events ≡ ok (lease_dropped t lease_id)
  unfolding revoke_capability_lease
  revoke_capability_lease-from_events lease_id revoked_by u h =
      let (e, p, q) = performed (revoke_lease_plan c session lease_id revoked_by) u h in
      q
      ∙ revoke_lease_plan-apply session c t (suc session.head_seq) before lease_id revoked_by u e p

  -- Of a session whose log replays: when a run with a name has requested an approval under an id
  -- that the log has not seen, the log replays to the state in which the request waits and nothing
  -- else has changed, whatever metadata came with it.
  pub request_approval-from_events :
      (approval_id scope requested_by : String) (ttl : Option ℤ) (metadata : Fields) (a : Approval)
      → (c.run_id == "") ≡ false
      → contains approval_id t.seen_approval_ids ≡ false
      → contains approval_id t.resolved_approval_ids ≡ false
      → let o =
          request_approval fresh store session c approval_id scope requested_by ttl metadata in
        o.result ≡ ok a → from_events o.session.events ≡ ok (request_added t a)
  unfolding request_approval
  request_approval-from_events approval_id scope requested_by ttl metadata a named unseen unresolved
        h =
      let plan = request_approval_plan c session approval_id scope requested_by ttl metadata in
      let (e, p, q) = performed plan a h in
      q
      ∙ request_approval_plan-apply session c t (suc session.head_seq) approval_id scope
          requested_by ttl metadata a e named unseen unresolved p

  -- Of a session whose log replays: when an approval has been resolved, a request was waiting
  -- under its id, and the log replays to the state in which this request is settled: it no longer
  -- waits, and after a grant the approval is in force.
  pub resolve_approval-from_events :
      (approval_id : String) (approved : Bool) (resolved_by : String) (one_shot : Bool)
      (r : Option Approval)
      → let o = resolve_approval fresh store session c approval_id approved resolved_by one_shot in
        o.result ≡ ok r
        → (a : Approval) × (Dict.lookup t.pending_approvals approval_id ≡ some a)
          × (from_events o.session.events ≡ ok (resolve t approval_id a approved one_shot))
  unfolding resolve_approval
  resolve_approval-from_events approval_id approved resolved_by one_shot r h =
      let plan = resolve_approval_plan c session approval_id approved resolved_by one_shot in
      let (e, p, q) = performed plan r h in
      let (a, found, s) =
        resolve_approval_plan-apply session c t (suc session.head_seq) before approval_id approved
          resolved_by one_shot r e p in
      (a, found, q ∙ s)

  -- Of a session whose log replays, for a grant in force: when it has been consumed by a call of
  -- its own run, the log replays to the state in which it is spent. When it has been consumed by a
  -- call of another run, the log no longer replays.
  pub consume_approval-from_events :
      (approval_id scope : String) (u : Unit {0}) (a : Approval)
      → Dict.lookup t.approvals approval_id ≡ some a
      → let o = consume_approval fresh store session c approval_id scope in
        o.result ≡ ok u
        → from_events o.session.events ≡ (
            if same_text (some c.run_id) a.run_id
            then ok (grant_spent t approval_id)
            else err event_invariant_violation)
  unfolding consume_approval
  consume_approval-from_events approval_id scope u a found h =
      let (e, p, q) = performed (consume_approval_plan c session approval_id scope) u h in
      q
      ∙ consume_approval_plan-apply session c t (suc session.head_seq) before approval_id scope u e
          a p found
