-- ===== src/Event/Schema/Upgrades.antt =====
-- What an upgrade leaves of a stored event.
use aihi.Prelude.{
  ℕ, zero, suc, ◌-◌, ◌+◌, String, ◌≡◌, some, Result, ok, arith, eq_iff, eq_refl, ◌>>◌, raise_if,
  unsupported_event_schema, >>=-eq-ok, ok-injective, ok-ne-err, ltb, ◌||◌, ◌≤◌, sym, ap, inl, inr,
  Option-cases,
}
use aihi.Json.{Json, Fields, pos, int, end, field, find_field, get_or, set_field}
use aihi.Python.{Python}
use aihi.Event.Schema.{
  event_schema_version, first_schema_version, version_key, event_upgrade, upgrade_rounds,
  as_version, upgrade_event_payload,
}

pub find-set_field :
    (fs : Fields) (k : String) (v : Json) → find_field k (set_field fs k v) ≡ some v
find-set_field end k v = rw (eq_refl k)
find-set_field (field j w fs) k v = ground (arith, eq_iff j k, find-set_field fs k v)

pub set-find_field :
    (fs : Fields) (k : String) (v : Json) → find_field k fs ≡ some v → set_field fs k v ≡ fs
set-find_field end k v h = cc
set-find_field (field j w fs) k v h = ground (arith, set-find_field fs k v)

module _ ⦃py : Python⦄ where
  upgrade_rounds-version :
      (rounds version : ℕ) (payload p : Fields)
      → find_field version_key payload ≡ some (int (pos version))
      → upgrade_rounds rounds version payload ≡ ok p
      → find_field version_key p ≡ some (int (pos (version + rounds)))
  unfolding upgrade_rounds
  upgrade_rounds-version zero version payload p v h = ground (arith, ok-injective h)
  upgrade_rounds-version (suc rounds) version payload p v h =
      let (up, e, rest) = >>=-eq-ok (event_upgrade version payload) _ h in
      ground (
        arith,
        upgrade_rounds-version rounds (suc version)
            (set_field up version_key (int (pos (suc version)))) p
            (find-set_field up version_key (int (pos (suc version)))) rest,
      )

  -- The version that a payload states is one that is supported.
  abbrev pub HasVersion : Fields → ℕ → Type 0
  HasVersion value n =
      (as_version (get_or value version_key (int (pos event_schema_version))) ≡ some n)
      × (first_schema_version ≤ n)
      × (n ≤ event_schema_version)

  abbrev loop : Fields → ℕ → Result Fields
  loop value n =
      upgrade_rounds (event_schema_version - n) n (set_field value version_key (int (pos n)))

  checked :
      (value p : Fields) (n : ℕ)
      → as_version (get_or value version_key (int (pos event_schema_version))) ≡ some n
      → (raise_if
            (ltb event_schema_version n || ltb n first_schema_version)
            unsupported_event_schema
          >> loop value n)
        ≡ ok p
      → HasVersion value n × (loop value n ≡ ok p)
  checked value p n e q =
      let (u, guard, rest) =
        >>=-eq-ok
          (raise_if (ltb event_schema_version n || ltb n first_schema_version)
            unsupported_event_schema)
          (λ _. loop value n) q in
      ((e, ground (arith, guard), ground (arith, guard)), rest)

  upgrade-rounds :
      (value p : Fields)
      → upgrade_event_payload value ≡ ok p
      → (n : ℕ) × HasVersion value n × (loop value n ≡ ok p)
  unfolding upgrade_event_payload
  upgrade-rounds value p h =
      elim (Option-cases (as_version (get_or value version_key (int (pos event_schema_version))))) [
        | inl e ↦ absurd (ok-ne-err (sym (rw (e, upgrade_event_payload) at h)))
        | inr (n, e) ↦
            let (known, rest) = checked value p n e (rw (e, upgrade_event_payload) at h) in
            (n, known, rest)
      ]

  upgraded-version :
      (value p : Fields)
      → upgrade_event_payload value ≡ ok p
      → find_field version_key p ≡ some (int (pos event_schema_version))
  upgraded-version value p h =
      let (n, (e, low, high), q) = upgrade-rounds value p h in
      ground (
        arith,
        upgrade_rounds-version (event_schema_version - n) n
            (set_field value version_key (int (pos n))) p
            (find-set_field value version_key (int (pos n))) q,
      )

  pub upgrade_current :
      (p : Fields)
      → find_field version_key p ≡ some (int (pos event_schema_version))
      → upgrade_event_payload p ≡ ok p
  unfolding upgrade_event_payload upgrade_rounds
  upgrade_current p h = rw (h, upgrade_event_payload) (ap ok (set-find_field p version_key _ h))

  -- An upgrade that succeeds started from a known version, ends at the current one, and changes
  -- nothing when it is made again.
  pub upgrade_event_payload_twice :
      (value p : Fields)
      → upgrade_event_payload value ≡ ok p
      → ((n : ℕ) × HasVersion value n)
        × (find_field version_key p ≡ some (int (pos event_schema_version)))
        × (upgrade_event_payload p ≡ ok p)
  upgrade_event_payload_twice value p h =
      let (n, known, q) = upgrade-rounds value p h in
      let current = upgraded-version value p h in ((n, known), current, upgrade_current p current)
