-- ===== src/Hooks/Validity.antt =====
-- What the registrations of a `HookBus` keep to.
use aihi.Prelude.{
  ◌<◌, ◌≤◌, String, ◌≡◌, refl, true, not, inl, inr, List, [], ◌∷◌, ◌++◌, ok, raise_if, value_error,
  ok-injective, distinct, >>=-eq-ok, In, here, there, In-append, In_singleton, subst,
}
use aihi.Json.{ℤ}
use aihi.Dict
use aihi.Dict.{Dict, lookup-insert, insert-distinct}
use aihi.Agents.Types.{is_positive}
use aihi.Hooks.{HookBus, HookRegistration, new_bus, handlers_of}

module _ {W : Type 0} where
  -- The sequence numbers rise along the list.
  abbrev pub Rising : List (HookRegistration W) → Type 0
  Rising [] = Unit
  Rising (r ∷ rs) = ((q : HookRegistration W) → In q rs → r.sequence < q.sequence) × Rising rs

  -- Each registration stands under its event, has an id that the bus knows and a number that it
  -- has given out, and mutates only if it is trusted; each id that the bus knows is that of a
  -- registration; no two registrations share an id; in each list the numbers rise; and no event has two lists.
  pub record IsValid (bus : HookBus W) : Type 0 where
    pub known :
        (n : String) (r : HookRegistration W) → In r (handlers_of bus n) → In r.hook_id bus.ids
    pub counted :
        (n : String) (r : HookRegistration W) → In r (handlers_of bus n) → r.sequence ≤ bus.sequence
    pub placed : (n : String) (r : HookRegistration W) → In r (handlers_of bus n) → r.event_name ≡ n
    pub governed :
        (n : String) (r : HookRegistration W)
        → In r (handlers_of bus n)
        → r.mutates ≡ true
        → r.trusted ≡ true
    pub owned :
        (id : String)
        → In id bus.ids
        → (n : String) × (r : HookRegistration W) × In r (handlers_of bus n) × (r.hook_id ≡ id)
    pub unique :
        (n m : String) (r q : HookRegistration W)
        → In r (handlers_of bus n)
        → In q (handlers_of bus m)
        → r.hook_id ≡ q.hook_id
        → (n ≡ m) × (r.sequence ≡ q.sequence)
    pub rising : (n : String) → Rising (handlers_of bus n)
    pub keyed : distinct (Dict.keys bus.handlers) ≡ true

  pub Rising-last :
      (rs : List (HookRegistration W)) (r : HookRegistration W)
      → Rising rs
      → ((q : HookRegistration W) → In q rs → q.sequence < r.sequence)
      → Rising (rs ++ r ∷ [])
  Rising-last [] r o h = (λ q m. elim m [ ], tt)
  Rising-last (q ∷ rs) r o h = (
    λ p m. elim (In-append rs (r ∷ []) p m) [
      | inl a ↦ o.0 p a
      | inr b ↦ subst (λ x. q.sequence < x.sequence) (In_singleton p r b) (h q (here refl))
    ],
    Rising-last rs r o.1 (λ p m. h p (there m)),
  )

  -- The handlers of an event behind an insertion at the end of those of another.

  empty-IsValid :
      (timeout : ℤ)
      → IsValid (record { handlers = []; ids = []; sequence = 0; timeout_seconds = timeout })
  unfolding handlers_of Dict.lookup Dict.keys
  empty-IsValid timeout = record {
    known = λ n r m. elim m [ ];
    counted = λ n r m. elim m [ ];
    placed = λ n r m. elim m [ ];
    governed = λ n r m. elim m [ ];
    owned = λ id m. elim m [ ];
    unique = λ n k r q m. elim m [ ];
    rising = λ n. tt;
    keyed = refl;
  }

  -- A new bus is valid.
  pub new_bus-IsValid : (timeout : ℤ) (bus : HookBus W) → new_bus timeout ≡ ok bus → IsValid bus
  unfolding new_bus
  new_bus-IsValid timeout bus h =
      let (u, guard, made) = >>=-eq-ok (raise_if (not (is_positive timeout)) value_error) _ h in
      subst IsValid (ok-injective made) (empty-IsValid timeout)
