-- ===== src/Hooks/Registry.antt =====
-- `register` keeps what the registrations of a `HookBus` keep to.
use mathlib.Core.Bool.{false≢true}
use aihi.Prelude.{
  suc, ◌<◌, ◌≤◌, String, ◌≡◌, refl, true, false, ◌||◌, ◌⊎◌, inl, inr, List, [], ◌∷◌, ◌++◌, ok,
  contains, ◌==◌, eq_iff, eq_refl, arith, Bool-cases, Result-cases, In, here, there, In-append,
  In-append_left, In-append_right, In_singleton, any_of_In, sym, ap, ◌∙◌, subst, if◌then◌else◌,
}
use aihi.Json.{ℤ}
use aihi.Dict
use aihi.Dict.{Dict, lookup-insert, insert-distinct}
use aihi.Text.{strip}
use aihi.Python.{Python}
use aihi.Hooks.{
  HookBus, HookRegistration, HookRequest, option_or, handlers_of, check_request, new_registration,
  enter, register,
}
use aihi.Hooks.Validity.{Rising, IsValid, Rising-last}

module _ {W : Type 0} where
  handlers_of-insert :
      (bus : HookBus W) (ids : List String) (name n : String) (regs : List (HookRegistration W))
      → handlers_of (record bus { handlers = Dict.insert bus.handlers name regs; ids = ids }) n
        ≡ (if name == n then regs else handlers_of bus n)
  unfolding handlers_of
  handlers_of-insert bus ids name n regs =
      ap (option_or []) (lookup-insert bus.handlers name n regs) ∙ ground arith

  module _ (bus : HookBus W) (v : IsValid bus)
      (below : (n : String) (r : HookRegistration W)
        → In r (handlers_of bus n)
        → r.sequence < bus.sequence)
      (new : HookRegistration W) (last : new.sequence ≡ bus.sequence)
      (fresh : contains new.hook_id bus.ids ≡ false)
      (trusted : new.mutates ≡ true → new.trusted ≡ true) where
    abbrev added : HookBus W
    added = record bus {
      handlers =
          Dict.insert bus.handlers new.event_name (handlers_of bus new.event_name ++ new ∷ []);
      ids = new.hook_id ∷ bus.ids;
    }

    handlers_of-added :
        (n : String)
        → handlers_of added n ≡ (
            if new.event_name == n
            then handlers_of bus new.event_name ++ new ∷ []
            else handlers_of bus n)
    handlers_of-added n = handlers_of-insert bus (new.hook_id ∷ bus.ids) new.event_name n _

    added-cases :
        (n : String) (r : HookRegistration W)
        → In r (handlers_of added n)
        → In r (handlers_of bus n) ⊎ ((new ≡ r) × (new.event_name ≡ n))
    added-cases n r m = elim (Bool-cases (new.event_name == n)) [
      | inl e ↦
          let same = (eq_iff new.event_name n).0 e in
          elim (In-append (handlers_of bus new.event_name) (new ∷ []) r
            (rw e at (subst (In r) (handlers_of-added n) m))) [
              | inl a ↦ inl (subst (λ k. In r (handlers_of bus k)) same a)
              | inr b ↦ inr (In_singleton r new b, same)
            ]
      | inr e ↦ inl (rw e at (subst (In r) (handlers_of-added n) m))
    ]

    added_old :
        (n : String) (r : HookRegistration W)
        → In r (handlers_of bus n)
        → In r (handlers_of added n)
    added_old n r m =
        subst (In r) (sym (handlers_of-added n)) (elim (Bool-cases (new.event_name == n)) [
          | inl e ↦ rw e (
              In-append_left (handlers_of bus new.event_name) (new ∷ []) r
                (subst (λ k. In r (handlers_of bus k)) (sym ((eq_iff new.event_name n).0 e)) m))
          | inr e ↦ rw e m
        ])

    added_new : In new (handlers_of added new.event_name)
    added_new = subst (In new) (sym (handlers_of-added new.event_name)) (
        rw (eq_refl new.event_name)
          (In-append_right (handlers_of bus new.event_name) (new ∷ []) new (here refl)))

    not_known :
        (n : String) (r : HookRegistration W)
        → In r (handlers_of bus n)
        → r.hook_id ≡ new.hook_id
        → ⊥
    not_known n r m e = false≢true (
        sym fresh
        ∙ any_of_In (λ i. i == new.hook_id) bus.ids r.hook_id (v.known n r m)
            ((eq_iff r.hook_id new.hook_id).1 e))

    added-Rising : (n : String) → Rising (handlers_of added n)
    added-Rising n =
        subst Rising (sym (handlers_of-added n)) (elim (Bool-cases (new.event_name == n)) [
          | inl e ↦ rw e (
              Rising-last (handlers_of bus new.event_name) new (v.rising new.event_name)
                (λ q m. subst (λ s. q.sequence < s) (sym last) (below new.event_name q m)))
          | inr e ↦ rw e (v.rising n)
        ])

    added_unique :
        (n m : String) (r q : HookRegistration W)
        → In r (handlers_of added n)
        → In q (handlers_of added m)
        → r.hook_id ≡ q.hook_id
        → (n ≡ m) × (r.sequence ≡ q.sequence)
    added_unique n m r q a b e = elim (added-cases n r a) [
      | inl old ↦ elim (added-cases m q b) [
        | inl older ↦ v.unique n m r q old older e
        | inr (is_new, place) ↦ absurd (not_known n r old (e ∙ ap (λ x. x.hook_id) (sym is_new)))
      ]
      | inr (is_new, place) ↦ elim (added-cases m q b) [
        | inl old ↦ absurd (not_known m q old (sym e ∙ ap (λ x. x.hook_id) (sym is_new)))
        | inr (is_new', place') ↦
            (sym place ∙ place', ap (λ x. x.sequence) (sym is_new) ∙ ap (λ x. x.sequence) is_new')
      ]
    ]

    added-owned :
        (id : String)
        → In id (new.hook_id ∷ bus.ids)
        → (n : String) × (r : HookRegistration W) × In r (handlers_of added n) × (r.hook_id ≡ id)
    added-owned id (here e) = (new.event_name, new, added_new, e)
    added-owned id (there m) = let (n, r, held, e) = v.owned id m in (n, r, added_old n r held, e)

    -- What holds of the old registrations and of the new one holds of all.
    added-all :
        (P : String → HookRegistration W → Type 0)
        → ((n : String) (r : HookRegistration W) → In r (handlers_of bus n) → P n r)
        → P new.event_name new
        → (n : String) (r : HookRegistration W) → In r (handlers_of added n)
        → P n r
    added-all P old own n r m = elim (added-cases n r m) [
      | inl a ↦ old n r a
      | inr (is_new, place) ↦ subst (λ k. P k r) place (subst (λ x. P new.event_name x) is_new own)
    ]

    added-IsValid : IsValid added
    added-IsValid = record {
      known =
          added-all (λ n r. In r.hook_id (new.hook_id ∷ bus.ids)) (λ n r m. there (v.known n r m))
            (here refl);
      counted = added-all (λ n r. r.sequence ≤ bus.sequence) v.counted (rw last (omega arith));
      placed = added-all (λ n r. r.event_name ≡ n) v.placed refl;
      governed = added-all (λ n r. r.mutates ≡ true → r.trusted ≡ true) v.governed trusted;
      owned = added-owned;
      unique = added_unique;
      rising = added-Rising;
      keyed = insert-distinct bus.handlers new.event_name _ v.keyed;
    }

  enter-IsValid :
      (bus : HookBus W) (request : HookRequest W) (identifier : String) (timeout : ℤ)
      → IsValid bus
      → ((n : String) (r : HookRegistration W)
          → In r (handlers_of bus n)
          → r.sequence < bus.sequence)
      → (request.mutates ≡ true → request.trusted ≡ true)
      → IsValid (enter bus request identifier timeout).0
  unfolding enter
  enter-IsValid bus request identifier timeout v below trusted =
      elim (Bool-cases (strip identifier == "" || contains identifier bus.ids)) [
        | inl e ↦ rw e v
        | inr e ↦ rw e (
            added-IsValid bus v below (new_registration request identifier timeout bus.sequence)
              refl (ground arith) trusted)
      ]

  check_request-trusted :
      (default_timeout timeout : ℤ) (request : HookRequest W)
      → check_request default_timeout request ≡ ok timeout
      → request.mutates ≡ true
      → request.trusted ≡ true
  unfolding check_request
  check_request-trusted default_timeout timeout request h m = ground arith

  -- Registering keeps the bus valid, whether it succeeds or raises.
  pub register-IsValid :
      ⦃py : Python⦄ (bus : HookBus W) (request : HookRequest W)
      → IsValid bus
      → IsValid (register bus request).0
  unfolding register handlers_of
  register-IsValid bus request v = elim (Result-cases (check_request bus.timeout_seconds request)) [
    | inl (timeout, e) ↦
        rw (e, register)
          (enter-IsValid (record bus { sequence = suc bus.sequence }) request _ timeout counted
            (λ n r m. omega (arith, v.counted n r m))
            (check_request-trusted bus.timeout_seconds timeout request e))
    | inr (x, e) ↦ rw (e, register) v
  ]
    where
      counted : IsValid (record bus { sequence = suc bus.sequence })
      counted = record {
        known = v.known;
        counted = λ n r m. omega (arith, v.counted n r m);
        placed = v.placed;
        governed = v.governed;
        owned = v.owned;
        unique = v.unique;
        rising = v.rising;
        keyed = v.keyed;
      }
