-- ===== src/Sessions/Grants/Payloads.antt =====
-- The fields of what the authorization calls make, and metadata that leaves them alone.
use aihi.Prelude.{
  ℕ, String, ◌≡◌, sym, ap, ◌∙◌, true, false, Option, some, List, ok, event_invariant_violation,
  value_error, raise_if, ◌==◌, arith, ok-injective, >>=-eq-ok, eq_iff,
}
use aihi.Json.{ℤ, Json, Fields, end, field, has_field, set_field, find_field}
use aihi.Policy.Leases
use aihi.Policy.Leases.{CapabilityLease, sorted}
use aihi.Policy.Approvals
use aihi.Policy.Approvals.{Approval, approval_eq}
use aihi.Sessions.Grants.{add_metadata}

pub issued :
    (lease_id : String) (now : ℕ) (run_id : String) (capabilities : List String) (ttl : ℤ)
    (l : CapabilityLease)
    → Leases.issue lease_id now run_id capabilities ttl ≡ ok l
    → (l.lease_id ≡ lease_id) × (l.run_id ≡ run_id) × ((run_id == "") ≡ false)
unfolding Leases.issue
issued lease_id now run_id capabilities ttl l h =
    let (u, a, p) = >>=-eq-ok (raise_if (run_id == "") value_error) _ h in
    let (x, b, q) = >>=-eq-ok (Leases.expiry now ttl) _ p in
    (
      ap (λ (v : CapabilityLease). v.lease_id) (sym (ok-injective q)),
      ap (λ (v : CapabilityLease). v.run_id) (sym (ok-injective q)),
      ground (arith, a),
    )

find_field-set_field :
    (k j : String) (v : Json) (fields : Fields)
    → has_field fields k ≡ true
    → has_field fields j ≡ false
    → find_field k (set_field fields j v) ≡ find_field k fields
find_field-set_field k j v end h g = cc
find_field-set_field k j v (field i w rest) h g =
    ground (arith, find_field-set_field k j v rest, eq_iff i k, eq_iff i j, eq_iff k j)

has_field-set_field :
    (k j : String) (v : Json) (fields : Fields)
    → has_field fields k ≡ true
    → has_field (set_field fields j v) k ≡ true
has_field-set_field k j v end h = cc
has_field-set_field k j v (field i w rest) h =
    ground (arith, has_field-set_field k j v rest, eq_iff i k, eq_iff i j, eq_iff k j)

-- Metadata leaves the fields that the event has.
pub find_field-add_metadata :
    (k : String) (fields metadata payload : Fields)
    → add_metadata fields metadata ≡ ok payload
    → has_field fields k ≡ true
    → find_field k payload ≡ find_field k fields
unfolding add_metadata
find_field-add_metadata k fields end payload h p = ap (find_field k) (sym (ok-injective h))
find_field-add_metadata k fields (field j v rest) payload h p =
    let (u, a, q) = >>=-eq-ok (raise_if (has_field fields j) event_invariant_violation) _ h in
    find_field-add_metadata k (set_field fields j v) rest payload q
      (has_field-set_field k j v fields p)
    ∙ find_field-set_field k j v fields p (ground (arith, a))

pub asked :
    (approval_id : String) (now : ℕ) (scope by : String) (run_id : String) (ttl : Option ℤ)
    (a : Approval)
    → Approvals.issue approval_id now scope by (some run_id) ttl ≡ ok a
    → (a.approval_id ≡ approval_id) × (a.run_id ≡ some run_id)
unfolding Approvals.issue
asked approval_id now scope by run_id ttl a h =
    let (u, b, p) = >>=-eq-ok (raise_if (scope == "") value_error) _ h in
    let (x, d, q) = >>=-eq-ok (Approvals.expiry_or_none now ttl) _ p in
    (
      ap (λ (v : Approval). v.approval_id) (sym (ok-injective q)),
      ap (λ (v : Approval). v.run_id) (sym (ok-injective q)),
    )
