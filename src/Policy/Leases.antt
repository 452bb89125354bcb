-- ===== src/Policy/Leases.antt =====
-- `CapabilityLease` of policy/leases.py.
use Prim.Native.String.{compare}
use Prim.Native.Nat.{Ordering}
use aihi.Prelude.{
  ℕ, suc, ◌+◌, String, Bool, ◌&&◌, List, [], ◌∷◌, map, Result, ok, err, value_error, ◌>>=◌, ◌>>◌,
  raise_if, or_raise, ◌==◌, ltb, subset,
}
use aihi.Json.{ℤ, pos, Fields, str, arr, nil, end, field, get_or, at_key, as_list, items_of}
use aihi.Python.{Python, text, parse_time}

-- `capabilities` is a frozenset: a list that is read by membership only.
pub record CapabilityLease : Type 0 where
  pub lease_id : String
  pub run_id : String
  pub capabilities : List String
  pub expires_at : ℕ

-- `ttl <= 0` over whole microseconds, and the instant at which the time is over
abbrev pub expiry : ℕ → ℤ → Result ℕ
expiry now (pos (suc n)) = ok (now + suc n)
expiry now _ = err value_error

-- `CapabilityLease.issue`, with the generated id given
unfoldable pub issue : String → ℕ → String → List String → ℤ → Result CapabilityLease
issue lease_id now run_id capabilities ttl = do
  raise_if (run_id == "") value_error
  expires_at ← expiry now ttl
  ok (record {
    lease_id = lease_id;
    run_id = run_id;
    capabilities = capabilities;
    expires_at = expires_at;
  })

unfoldable pub active : CapabilityLease → ℕ → Bool
active lease now = ltb now lease.expires_at

unfoldable pub grants : CapabilityLease → List String → ℕ → Bool
unfolding active
grants lease required now = active lease now && subset required lease.capabilities

-- `sorted` of a set of strings: by code points, each once
unfoldable pub insert_sorted : String → List String → List String
insert_sorted s [] = s ∷ []
insert_sorted s (x ∷ xs) =
    let rest = insert_sorted s xs in
    elim (compare s x) [ Ordering.lt ↦ s ∷ x ∷ xs | Ordering.eq ↦ x ∷ xs | Ordering.gt ↦ x ∷ rest ]

unfoldable pub sorted : List String → List String
unfolding insert_sorted
sorted [] = []
sorted (x ∷ xs) = insert_sorted x (sorted xs)

module _ ⦃py : Python⦄ where
  unfoldable pub to_dict : CapabilityLease → Fields
  to_dict lease = field "lease_id" (str lease.lease_id) (
      field "run_id" (str lease.run_id) (
        field "capabilities" (arr (items_of (map str (sorted lease.capabilities))))
          (field "expires_at" (str (py.isoformat lease.expires_at)) end)))

  unfoldable pub from_dict : Fields → Result CapabilityLease
  from_dict value = do
    raw_expires_at ← at_key value "expires_at"
    expires_at ← parse_time raw_expires_at
    raw_capabilities ← or_raise (as_list (get_or value "capabilities" (arr nil))) value_error
    lease_id ← at_key value "lease_id"
    run_id ← at_key value "run_id"
    ok (record {
      lease_id = text lease_id;
      run_id = text run_id;
      capabilities = map text raw_capabilities;
      expires_at = expires_at;
    })
