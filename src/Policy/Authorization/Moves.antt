-- ===== src/Policy/Authorization/Moves.antt =====
-- `AuthorizationState.apply` against a relation: what an accepted event may do to the state.
use aihi.Prelude.{
  String, ◌≡◌, Bool, true, false, not, ◌||◌, Option, some, [], ◌∷◌, ok, ◌>>=◌, ◌>>◌, ◌==◌, contains,
  eq_iff, arith, inl, inr, Bool-cases, refl, sym, >>=-eq-ok, Error, or_raise, raise_if, is_some,
  event_invariant_violation, subst₂,
}
use aihi.Dict
use aihi.Json.{bool, as_dict, get, get_or, as_str, truthy, one_of, is_text}
use aihi.Event.{Event, same_text, same_text-eq}
use aihi.Python.{Python}
use aihi.Policy.Leases
use aihi.Policy.Approvals
use aihi.Policy.Leases.{CapabilityLease}
use aihi.Policy.Approvals.{Approval, approval_eq}
use aihi.Policy.Authorization.{
  AuthorizationState, lease_issued, lease_revoked, approval_requested, approval_resolved,
  approval_consumed, resolve, apply, is_blank,
}

pub data Move (s : AuthorizationState) : Option String → AuthorizationState → Type 0 where
  ignore : (run : Option String) → Move s run s
  issue :
      (l : CapabilityLease)
      → (l.run_id == "") ≡ false
      → contains l.lease_id s.seen_lease_ids ≡ false
      → contains l.lease_id s.revoked_lease_ids ≡ false
      → Move s (some l.run_id) (record s {
        seen_lease_ids = l.lease_id ∷ s.seen_lease_ids;
        leases = Dict.insert s.leases l.lease_id l;
      })
  revoke :
      (k : String) (l : CapabilityLease)
      → Dict.lookup s.leases k ≡ some l
      → Move s (some l.run_id) (record s {
        leases = Dict.remove s.leases k;
        revoked_lease_ids = k ∷ s.revoked_lease_ids;
      })
  request :
      (a : Approval)
      → is_blank a.run_id ≡ false
      → contains a.approval_id s.seen_approval_ids ≡ false
      → contains a.approval_id s.resolved_approval_ids ≡ false
      → Move s a.run_id (record s {
        seen_approval_ids = a.approval_id ∷ s.seen_approval_ids;
        pending_approvals = Dict.insert s.pending_approvals a.approval_id a;
      })
  answer :
      (k : String) (a : Approval) (is_granted one_shot : Bool)
      → Dict.lookup s.pending_approvals k ≡ some a
      → a.approval_id ≡ k
      → Move s a.run_id (resolve s k a is_granted one_shot)
  consume :
      (k : String) (a : Approval)
      → Dict.lookup s.approvals k ≡ some a
      → contains k s.consumed_approval_ids ≡ false
      → a.one_shot ≡ true
      → Move s a.run_id (record s {
        approvals = Dict.remove s.approvals k;
        consumed_approval_ids = k ∷ s.consumed_approval_ids;
      })

approval_eq-eq : (a b : Approval) → approval_eq a b ≡ true → a ≡ b
unfolding approval_eq
approval_eq-eq a b h = ground (
  arith,
  eq_iff a.scope b.scope,
  eq_iff a.granted_by b.granted_by,
  same_text-eq a.run_id b.run_id,
  eq_iff a.approval_id b.approval_id,
)

module _ (s : AuthorizationState) where
  Move-subst :
      {r r' : Option String} {t t' : AuthorizationState}
      → r ≡ r'
      → t ≡ t'
      → Move s r t
      → Move s r' t'
  Move-subst p q m = subst₂ (Move s) p q m

abbrev violation : Error
violation = event_invariant_violation

module _ ⦃py : Python⦄ (s t : AuthorizationState) (e : Event) where
  lease_issued-Move : lease_issued s e ≡ ok t → Move s e.run_id t
  unfolding lease_issued
  lease_issued-Move h =
      let (raw, p, h1) = >>=-eq-ok (or_raise (as_dict (get e.payload "lease")) violation) _ h in
      let (l, q, h2) = >>=-eq-ok (Leases.from_dict raw) _ h1 in
      Move-subst s (sym (same_text-eq e.run_id (some l.run_id) (ground arith))) (ground arith)
        (issue l (ground arith) (ground arith) (ground arith))

  lease_revoked-Move : lease_revoked s e ≡ ok t → Move s e.run_id t
  unfolding lease_revoked
  lease_revoked-Move h =
      let (k, p, h1) = >>=-eq-ok (or_raise (as_str (get e.payload "lease_id")) violation) _ h in
      let (u, q, h2) = >>=-eq-ok (raise_if (not (is_some e.run_id)) violation) _ h1 in
      let (l, r, h3) = >>=-eq-ok (or_raise (Dict.lookup s.leases k) violation) _ h2 in
      Move-subst s (same_text-eq (some l.run_id) e.run_id (ground arith)) (ground arith)
        (revoke k l (ground arith))

  approval_requested-Move : approval_requested s e ≡ ok t → Move s e.run_id t
  unfolding approval_requested
  approval_requested-Move h =
      let (raw, p, h1) = >>=-eq-ok (or_raise (as_dict (get e.payload "approval")) violation) _ h in
      let (a, q, h2) = >>=-eq-ok (Approvals.from_dict raw) _ h1 in
      Move-subst s (sym (same_text-eq e.run_id a.run_id (ground arith))) (ground arith)
        (request a (ground arith) (ground arith) (ground arith))

  approval_consumed-Move : approval_consumed s e ≡ ok t → Move s e.run_id t
  unfolding approval_consumed
  approval_consumed-Move h =
      let (k, p, h1) = >>=-eq-ok (or_raise (as_str (get e.payload "approval_id")) violation) _ h in
      let (a, q, h2) = >>=-eq-ok (or_raise (Dict.lookup s.approvals k) violation) _ h1 in
      Move-subst s (sym (same_text-eq e.run_id a.run_id (ground arith))) (ground arith)
        (consume k a (ground arith) (ground arith) (ground arith))

  -- The last steps of a resolution: the request that it names is the one that waits.
  matched-Move :
      (k : String) (b : Approval) (is_granted one_shot : Bool)
      → (do
        pending ← or_raise (Dict.lookup s.pending_approvals k) violation
        raise_if
            (not (approval_eq pending b)
              || not (b.approval_id == k)
              || not (same_text e.run_id pending.run_id))
            violation
        ok (resolve s k b is_granted one_shot))
        ≡ ok t
      → Move s e.run_id t
  matched-Move k b is_granted one_shot h =
      let (a, p, h1) = >>=-eq-ok (or_raise (Dict.lookup s.pending_approvals k) violation) _ h in
      let same : a ≡ b = approval_eq-eq a b (ground arith) in
      Move-subst s (sym (same_text-eq e.run_id b.run_id (ground (arith, same)))) (ground arith) (
        answer k b is_granted one_shot (ground (arith, same))
          ((eq_iff b.approval_id k).0 (ground arith)))

  approval_resolved-Move : approval_resolved s e ≡ ok t → Move s e.run_id t
  unfolding approval_resolved
  approval_resolved-Move h =
      let status = get e.payload "status" in
      let (known, p0, h0) = >>=-eq-ok (one_of status ("granted" ∷ "denied" ∷ [])) _ h in
      let (u, q0, h1) = >>=-eq-ok (raise_if (not known) violation) _ h0 in
      let (raw, p1, h2) =
        >>=-eq-ok (or_raise (as_dict (get e.payload "approval")) violation) _ h1 in
      let (k, p2, h3) =
        >>=-eq-ok (or_raise (as_str (get e.payload "approval_id")) violation) _ h2 in
      let (b, p3, h4) = >>=-eq-ok (Approvals.from_dict raw) _ h3 in
      matched-Move k b (is_text status "granted")
        (truthy (get_or e.payload "one_shot" (bool false))) h4

  -- Every event that `apply` accepts makes one of the moves, for its own run.
  pub apply-Move : apply s e ≡ ok t → Move s e.run_id t
  unfolding apply
  apply-Move h = elim (Bool-cases (e.type == "capability.lease.issued")) [
    | inl a ↦ lease_issued-Move (rw a at h)
    | inr a ↦ elim (Bool-cases (e.type == "capability.lease.revoked")) [
      | inl b ↦ lease_revoked-Move (rw (a, b) at h)
      | inr b ↦ elim (Bool-cases (e.type == "approval.requested")) [
        | inl c ↦ approval_requested-Move (rw (a, b, c) at h)
        | inr c ↦ elim (Bool-cases (e.type == "approval.resolved")) [
          | inl d ↦ approval_resolved-Move (rw (a, b, c, d) at h)
          | inr d ↦ elim (Bool-cases (e.type == "approval.consumed")) [
            | inl f ↦ approval_consumed-Move (rw (a, b, c, d, f) at h)
            | inr f ↦ Move-subst s refl (ground arith) (ignore e.run_id)
          ]
        ]
      ]
    ]
  ]
