-- ===== src/Policy/Roundtrip.antt =====
-- `to_dict` and `from_dict` of leases and approvals.
use aihi.Prelude.{
  ℕ, String, ◌≡◌, refl, ap, ◌∙◌, Bool, true, false, ◌||◌, Option, none, some, List, [], ◌∷◌, map,
  ok, ◌==◌, eq_iff, eq_refl, arith, contains, subset,
}
use aihi.Json.{str, list_of, items_of}
use aihi.Python.{Python, text}
use aihi.Event.{same_text_refl}
use aihi.Policy.Leases
use aihi.Policy.Leases.{CapabilityLease, sorted, insert_sorted, grants, active}
use aihi.Policy.Approvals
use aihi.Policy.Approvals.{
  Approval, approval_eq, same_time, same_flag, json_time, json_text, time_or_none, text_or_none,
}

contains-insert_sorted :
    (k s : String) (xs : List String) → contains k (insert_sorted s xs) ≡ contains k (s ∷ xs)
unfolding insert_sorted
contains-insert_sorted k s [] = refl
contains-insert_sorted k s (x ∷ xs) =
    ground (arith, contains-insert_sorted k s xs, eq_iff s x, eq_iff s k, eq_iff x k)

contains-sorted : (k : String) (xs : List String) → contains k (sorted xs) ≡ contains k xs
unfolding sorted
contains-sorted k [] = refl
contains-sorted k (x ∷ xs) =
    contains-insert_sorted k x (sorted xs) ∙ ap (λ b. x == k || b) (contains-sorted k xs)

subset-sorted : (ks xs : List String) → subset ks (sorted xs) ≡ subset ks xs
subset-sorted [] xs = refl
subset-sorted (k ∷ ks) xs = rw (contains-sorted k xs, subset-sorted ks xs)

module _ ⦃py : Python⦄ where
  read_texts : (xs : List String) → map text (list_of (items_of (map str xs))) ≡ xs
  read_texts [] = refl
  read_texts (x ∷ xs) = ap (λ r. x ∷ r) (read_texts xs)

  -- A lease is read back with its set of capabilities in order.
  pub lease_from-to :
      (l : CapabilityLease)
      → Leases.from_dict (Leases.to_dict l) ≡ ok (record l { capabilities = sorted l.capabilities })
  unfolding Leases.from_dict Leases.to_dict
  lease_from-to l =
      ground (arith, py.fromisoformat-isoformat l.expires_at, read_texts (sorted l.capabilities))

  time_back : (o : Option ℕ) → time_or_none (json_time o) ≡ ok o
  time_back none = refl
  time_back (some t) = ground (arith, py.isoformat_nonempty t, py.fromisoformat-isoformat t)

  text_back : (o : Option String) → text_or_none (json_text o) ≡ o
  text_back none = refl
  text_back (some s) = refl

  -- Approvals of every kind are read from their dict as they were written to it: scope, owner,
  -- expiry, run, one-shot flag and id.
  pub approval_from-to : (a : Approval) → Approvals.from_dict (Approvals.to_dict a) ≡ ok a
  unfolding Approvals.from_dict Approvals.to_dict
  approval_from-to a = rw (time_back a.expires_at, text_back a.run_id)

  -- A lease that has gone through the log grants the same capabilities at every instant.
  pub grants-from_dict :
      (l : CapabilityLease) (required : List String) (now : ℕ)
      → (l' : CapabilityLease) × (Leases.from_dict (Leases.to_dict l) ≡ ok l')
        × (grants l' required now ≡ grants l required now)
  unfolding grants
  grants-from_dict l required now = (
    record l { capabilities = sorted l.capabilities },
    lease_from-to l,
    rw (subset-sorted required l.capabilities),
  )

same_time_refl : (o : Option ℕ) → same_time o o ≡ true
same_time_refl none = refl
same_time_refl (some t) = ground arith

same_flag_refl : (b : Bool) → same_flag b b ≡ true
same_flag_refl true = refl
same_flag_refl false = refl

pub approval_eq_refl : (a : Approval) → approval_eq a a ≡ true
unfolding approval_eq
approval_eq_refl a = rw (
  eq_refl a.scope,
  eq_refl a.granted_by,
  same_time_refl a.expires_at,
  same_text_refl a.run_id,
  same_flag_refl a.one_shot,
  eq_refl a.approval_id,
)
