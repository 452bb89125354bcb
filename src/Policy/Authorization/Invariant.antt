-- ===== src/Policy/Authorization/Invariant.antt =====
-- What every replay of authorization events (`AuthorizationState.from_events`) keeps true.
use aihi.Prelude.{
  String, ◌≡◌, Bool, true, false, Option, some, ◌∷◌, ◌==◌, contains, eq_iff, arith, inl, inr,
  Bool-cases, subst,
}
use aihi.Dict
use aihi.Dict.{dict_laws}
use aihi.Policy.Leases.{CapabilityLease}
use aihi.Policy.Approvals.{Approval}
use aihi.Policy.Authorization.Moves.{Move, ignore, issue, revoke, request, answer, consume}
use aihi.Policy.Authorization.{AuthorizationState, empty, resolve, is_blank}

-- The three sets of approval ids fit together: a pending request is not resolved, a grant in force
-- was resolved and not spent, and what was spent was resolved. A lease in force is not revoked.
pub record IsConsistent (s : AuthorizationState) : Type 0 where
  pub pending_seen :
      (k : String) (a : Approval)
      → Dict.lookup s.pending_approvals k ≡ some a
      → contains k s.seen_approval_ids ≡ true
  pub pending_open :
      (k : String) (a : Approval)
      → Dict.lookup s.pending_approvals k ≡ some a
      → contains k s.resolved_approval_ids ≡ false
  pub pending_owned :
      (k : String) (a : Approval)
      → Dict.lookup s.pending_approvals k ≡ some a
      → (a.approval_id ≡ k) × (is_blank a.run_id ≡ false)
  pub granted_resolved :
      (k : String) (a : Approval)
      → Dict.lookup s.approvals k ≡ some a
      → contains k s.resolved_approval_ids ≡ true
  pub granted_unspent :
      (k : String) (a : Approval)
      → Dict.lookup s.approvals k ≡ some a
      → contains k s.consumed_approval_ids ≡ false
  pub granted_owned :
      (k : String) (a : Approval)
      → Dict.lookup s.approvals k ≡ some a
      → (a.approval_id ≡ k) × (is_blank a.run_id ≡ false)
  pub spent_resolved :
      (k : String)
      → contains k s.consumed_approval_ids ≡ true
      → contains k s.resolved_approval_ids ≡ true
  pub lease_seen :
      (k : String) (l : CapabilityLease)
      → Dict.lookup s.leases k ≡ some l
      → contains k s.seen_lease_ids ≡ true
  pub lease_unrevoked :
      (k : String) (l : CapabilityLease)
      → Dict.lookup s.leases k ≡ some l
      → contains k s.revoked_lease_ids ≡ false
  pub lease_owned :
      (k : String) (l : CapabilityLease)
      → Dict.lookup s.leases k ≡ some l
      → (l.lease_id ≡ k) × ((l.run_id == "") ≡ false)

pub empty-IsConsistent : IsConsistent empty
empty-IsConsistent = record {
  pending_seen = λ k a h. absurd (Dict.absent k h);
  pending_open = λ k a h. absurd (Dict.absent k h);
  pending_owned = λ k a h. absurd (Dict.absent k h);
  granted_resolved = λ k a h. absurd (Dict.absent k h);
  granted_unspent = λ k a h. absurd (Dict.absent k h);
  granted_owned = λ k a h. absurd (Dict.absent k h);
  spent_resolved = λ k h. cc;
  lease_seen = λ k l h. absurd (Dict.absent k h);
  lease_unrevoked = λ k l h. absurd (Dict.absent k h);
  lease_owned = λ k l h. absurd (Dict.absent k h);
}

-- One lemma for each move, by the part of the state that it writes.
module _ (s : AuthorizationState) (h : IsConsistent s) where
  issue-IsConsistent :
      (l : CapabilityLease)
      → (l.run_id == "") ≡ false
      → contains l.lease_id s.revoked_lease_ids ≡ false
      → IsConsistent (record s {
        seen_lease_ids = l.lease_id ∷ s.seen_lease_ids;
        leases = Dict.insert s.leases l.lease_id l;
      })
  issue-IsConsistent l owned fresh = record {
    pending_seen = h.pending_seen;
    pending_open = h.pending_open;
    pending_owned = h.pending_owned;
    granted_resolved = h.granted_resolved;
    granted_unspent = h.granted_unspent;
    granted_owned = h.granted_owned;
    spent_resolved = h.spent_resolved;
    lease_seen = λ k a. simp dict_laws (λ p. ground (arith, h.lease_seen k a));
    lease_unrevoked =
        λ k a. simp dict_laws (λ p. ground (arith, h.lease_unrevoked k a, eq_iff l.lease_id k));
    lease_owned =
        λ k a. simp dict_laws (λ p. ground (arith, h.lease_owned k a, eq_iff l.lease_id k));
  }

  revoke-IsConsistent :
      (k : String)
      → IsConsistent (record s {
        leases = Dict.remove s.leases k;
        revoked_lease_ids = k ∷ s.revoked_lease_ids;
      })
  revoke-IsConsistent k = record {
    pending_seen = h.pending_seen;
    pending_open = h.pending_open;
    pending_owned = h.pending_owned;
    granted_resolved = h.granted_resolved;
    granted_unspent = h.granted_unspent;
    granted_owned = h.granted_owned;
    spent_resolved = h.spent_resolved;
    lease_seen = λ j a. simp dict_laws (λ p. ground (arith, h.lease_seen j a));
    lease_unrevoked = λ j a. simp dict_laws (λ p. ground (arith, h.lease_unrevoked j a));
    lease_owned = λ j a. simp dict_laws (λ p. ground (arith, h.lease_owned j a));
  }

  request-IsConsistent :
      (b : Approval)
      → is_blank b.run_id ≡ false
      → contains b.approval_id s.resolved_approval_ids ≡ false
      → IsConsistent (record s {
        seen_approval_ids = b.approval_id ∷ s.seen_approval_ids;
        pending_approvals = Dict.insert s.pending_approvals b.approval_id b;
      })
  request-IsConsistent b owned fresh = record {
    pending_seen = λ k a. simp dict_laws (λ p. ground (arith, h.pending_seen k a));
    pending_open =
        λ k a. simp dict_laws (λ p. ground (arith, h.pending_open k a, eq_iff b.approval_id k));
    pending_owned =
        λ k a. simp dict_laws (λ p. ground (arith, h.pending_owned k a, eq_iff b.approval_id k));
    granted_resolved = h.granted_resolved;
    granted_unspent = h.granted_unspent;
    granted_owned = h.granted_owned;
    spent_resolved = h.spent_resolved;
    lease_seen = h.lease_seen;
    lease_unrevoked = h.lease_unrevoked;
    lease_owned = h.lease_owned;
  }

  open_unspent :
      (k : String)
      → contains k s.resolved_approval_ids ≡ false
      → contains k s.consumed_approval_ids ≡ false
  open_unspent k p = ground (arith, h.spent_resolved k)

  answer-IsConsistent :
      (k : String) (b : Approval) (is_granted one_shot : Bool)
      → Dict.lookup s.pending_approvals k ≡ some b
      → IsConsistent (resolve s k b is_granted one_shot)
  unfolding resolve
  answer-IsConsistent k b true one_shot found = record {
    pending_seen = λ j a. simp dict_laws (λ p. ground (arith, h.pending_seen j a));
    pending_open = λ j a. simp dict_laws (λ p. ground (arith, h.pending_open j a));
    pending_owned = λ j a. simp dict_laws (λ p. ground (arith, h.pending_owned j a));
    granted_resolved = λ j a. simp dict_laws (λ p. ground (arith, h.granted_resolved j a));
    granted_unspent = λ j a. simp dict_laws (λ p. elim (Bool-cases (k == j)) [
      | inl e ↦
          subst (λ i. contains i s.consumed_approval_ids ≡ false) ((eq_iff k j).0 e)
            (open_unspent k (h.pending_open k b found))
      | inr e ↦ h.granted_unspent j a (rw e at p)
    ]);
    granted_owned = λ j a.
        simp dict_laws
          (λ p. ground (arith, h.granted_owned j a, h.pending_owned k b found, eq_iff k j));
    spent_resolved = λ j p. ground (arith, h.spent_resolved j);
    lease_seen = h.lease_seen;
    lease_unrevoked = h.lease_unrevoked;
    lease_owned = h.lease_owned;
  }
  answer-IsConsistent k b false one_shot found = record {
    pending_seen = λ j a. simp dict_laws (λ p. ground (arith, h.pending_seen j a));
    pending_open = λ j a. simp dict_laws (λ p. ground (arith, h.pending_open j a));
    pending_owned = λ j a. simp dict_laws (λ p. ground (arith, h.pending_owned j a));
    granted_resolved = λ j a p. ground (arith, h.granted_resolved j a);
    granted_unspent = h.granted_unspent;
    granted_owned = h.granted_owned;
    spent_resolved = λ j p. ground (arith, h.spent_resolved j);
    lease_seen = h.lease_seen;
    lease_unrevoked = h.lease_unrevoked;
    lease_owned = h.lease_owned;
  }

  consume-IsConsistent :
      (k : String) (b : Approval)
      → Dict.lookup s.approvals k ≡ some b
      → IsConsistent (record s {
        approvals = Dict.remove s.approvals k;
        consumed_approval_ids = k ∷ s.consumed_approval_ids;
      })
  consume-IsConsistent k b found = record {
    pending_seen = h.pending_seen;
    pending_open = h.pending_open;
    pending_owned = h.pending_owned;
    granted_resolved = λ j a. simp dict_laws (λ p. ground (arith, h.granted_resolved j a));
    granted_unspent = λ j a. simp dict_laws (λ p. ground (arith, h.granted_unspent j a));
    granted_owned = λ j a. simp dict_laws (λ p. ground (arith, h.granted_owned j a));
    spent_resolved = λ j p. elim (Bool-cases (k == j)) [
      | inl e ↦
          subst (λ i. contains i s.resolved_approval_ids ≡ true) ((eq_iff k j).0 e)
            (h.granted_resolved k b found)
      | inr e ↦ h.spent_resolved j (rw e at p)
    ];
    lease_seen = h.lease_seen;
    lease_unrevoked = h.lease_unrevoked;
    lease_owned = h.lease_owned;
  }

pub Move-IsConsistent :
    {run : Option String} {s t : AuthorizationState}
    → Move s run t
    → IsConsistent s
    → IsConsistent t
Move-IsConsistent (ignore run) h = h
Move-IsConsistent {s} (issue l owned unseen unrevoked) h = issue-IsConsistent s h l owned unrevoked
Move-IsConsistent {s} (revoke k l found) h = revoke-IsConsistent s h k
Move-IsConsistent {s} (request a owned unseen unresolved) h =
    request-IsConsistent s h a owned unresolved
Move-IsConsistent {s} (answer k a is_granted one_shot found named) h =
    answer-IsConsistent s h k a is_granted one_shot found
Move-IsConsistent {s} (consume k a found unspent once) h = consume-IsConsistent s h k a found
