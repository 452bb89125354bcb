-- ===== src/Hooks/Removal.antt =====
-- What `unregister` removes, from a bus that is valid.
use mathlib.Core.Bool.{false≢true}
use aihi.Prelude.{
  ◌≤◌, ◌<◌, String, ◌≡◌, refl, Bool, true, false, not, List, [], ◌∷◌, ok, filter, any, length,
  contains, distinct, ◌==◌, arith, Bool-cases, inl, inr, In, here, there, any-In, any_of_In,
  In-filter, In_filter, sym, ap, ◌∙◌, subst, nat_eq, Option-cases,
}
use aihi.Dict
use aihi.Dict.{Dict, lookup_of_In, In_of_lookup}
use aihi.Hooks.{
  HookBus, HookRegistration, option_or, handlers_of, others, drop_hook, holds_hook, unregister,
}
use aihi.Hooks.Validity.{IsValid, Rising}

filter_none {ℓ} :
    {A : Type ℓ} (p : A → Bool) (xs : List A) → any p xs ≡ false → filter (λ x. not (p x)) xs ≡ xs
filter_none p [] h = refl
filter_none p (x ∷ xs) h = ground (arith, filter_none p xs)

-- Without an item there is no such item.
not-contains-filter :
    (k : String) (xs : List String) → contains k (filter (λ i. not (i == k)) xs) ≡ false
not-contains-filter k [] = refl
not-contains-filter k (x ∷ xs) = ground (arith, not-contains-filter k xs)

length-filter-le {ℓ} : {A : Type ℓ} (p : A → Bool) (xs : List A) → length (filter p xs) ≤ length xs
length-filter-le p [] = omega arith
length-filter-le p (x ∷ xs) = ground (arith, length-filter-le p xs)

length-filter-lt {ℓ} :
    {A : Type ℓ} (p : A → Bool) (xs : List A) (x : A)
    → In x xs
    → p x ≡ false
    → length (filter p xs) < length xs
length-filter-lt p [] x m h = elim m [ ]
length-filter-lt p (y ∷ xs) x (here e) h = rw (ap p e ∙ h) (omega (arith, length-filter-le p xs))
length-filter-lt p (y ∷ xs) x (there m) h = ground (arith, length-filter-lt p xs x m h)

module _ {W : Type 0} where
  keys-drop_hook :
      (id : String) (d : Dict (List (HookRegistration W)))
      → Dict.keys (drop_hook id d) ≡ Dict.keys d
  unfolding Dict.keys drop_hook
  keys-drop_hook id [] = refl
  keys-drop_hook id ((n, regs) ∷ d) = ap (λ ks. n ∷ ks) (keys-drop_hook id d)

  lookup-drop_hook :
      (id : String) (d : Dict (List (HookRegistration W))) (n : String)
      → option_or [] (Dict.lookup (drop_hook id d) n) ≡ others id (option_or [] (Dict.lookup d n))
  unfolding Dict.lookup drop_hook others
  lookup-drop_hook id [] n = refl
  lookup-drop_hook id ((m, regs) ∷ d) n = elim (Bool-cases (m == n)) [
    | inl e ↦ rw e refl
    | inr e ↦ rw e (lookup-drop_hook id d n)
  ]

  others-Rising : (id : String) (rs : List (HookRegistration W)) → Rising rs → Rising (others id rs)
  unfolding others
  others-Rising id [] o = tt
  others-Rising id (r ∷ rs) o = elim (Bool-cases (r.hook_id == id)) [
    | inl e ↦ rw e (others-Rising id rs o.1)
    | inr e ↦ rw e (
      λ q m. o.0 q (In-filter (λ (x : HookRegistration W). not (x.hook_id == id)) rs q m).0,
      others-Rising id rs o.1,
    )
  ]

  In-others :
      (id : String) (rs : List (HookRegistration W)) (r : HookRegistration W)
      → In r (others id rs)
      → In r rs × ((r.hook_id == id) ≡ false)
  unfolding others
  In-others id rs r m =
      let (inside, other) = In-filter (λ (x : HookRegistration W). not (x.hook_id == id)) rs r m in
      (inside, ground arith)

  In_others :
      (id : String) (rs : List (HookRegistration W)) (r : HookRegistration W)
      → In r rs
      → (r.hook_id == id) ≡ false
      → In r (others id rs)
  unfolding others
  In_others id rs r m e =
      In_filter (λ (x : HookRegistration W). not (x.hook_id == id)) rs r m (rw e)

  module _ (bus : HookBus W) (id : String) (v : IsValid bus) where
    abbrev left : List String → HookBus W
    left ids = record bus { handlers = drop_hook id bus.handlers; ids = ids }

    handlers_of-left :
        (ids : List String) (n : String) → handlers_of (left ids) n ≡ others id (handlers_of bus n)
    unfolding handlers_of
    handlers_of-left ids n = lookup-drop_hook id bus.handlers n

    abbrev remaining : List String
    remaining = filter (λ i. not (i == id)) bus.ids

    left-In :
        (n : String) (r : HookRegistration W)
        → In r (handlers_of (left remaining) n)
        → In r (handlers_of bus n) × ((r.hook_id == id) ≡ false)
    left-In n r m =
        In-others id (handlers_of bus n) r (subst (In r) (handlers_of-left remaining n) m)

    left-IsValid : IsValid (left remaining)
    left-IsValid = record {
      known = λ n r m.
          let (old, other) = left-In n r m in
          In_filter (λ i. not (i == id)) bus.ids r.hook_id (v.known n r old) (rw other);
      counted = λ n r m. v.counted n r (left-In n r m).0;
      placed = λ n r m. v.placed n r (left-In n r m).0;
      governed = λ n r m. v.governed n r (left-In n r m).0;
      owned = λ k m.
          let (inside, other) = In-filter (λ i. not (i == id)) bus.ids k m in
          let (n, r, held, e) = v.owned k inside in
          (
            n,
            r,
            subst (In r) (sym (handlers_of-left remaining n))
                (In_others id (handlers_of bus n) r held (rw e (ground arith))),
            e,
          );
      unique = λ n m r q a b. v.unique n m r q (left-In n r a).0 (left-In m q b).0;
      rising = λ n.
          subst Rising (sym (handlers_of-left remaining n))
            (others-Rising id (handlers_of bus n) (v.rising n));
      keyed = ap distinct (keys-drop_hook id bus.handlers) ∙ v.keyed;
    }

    abbrev shrinks : String × List (HookRegistration W) → Bool
    shrinks entry = not (nat_eq (length (others id (entry.1))) (length (entry.1)))

    -- A list that shrinks held the hook.
    holds-In :
        holds_hook id bus.handlers ≡ true
        → (n : String) × (r : HookRegistration W) × In r (handlers_of bus n)
          × ((r.hook_id == id) ≡ true)
    unfolding holds_hook handlers_of others
    holds-In h =
        let ((n, regs), m, q) = any-In shrinks bus.handlers h in
        let found = lookup_of_In bus.handlers n regs v.keyed m in
        elim (Bool-cases (any (λ (r : HookRegistration W). r.hook_id == id) regs)) [
          | inl e ↦
              let (r, inside, same) = any-In (λ (r : HookRegistration W). r.hook_id == id) regs e in
              (n, r, rw found inside, same)
          | inr e ↦ absurd (
              false≢true (
                sym (
                  ground (
                    arith,
                    ap length (filter_none (λ (r : HookRegistration W). r.hook_id == id) regs e),
                  ))
                ∙ q))
        ]

    In-holds :
        (n : String) (r : HookRegistration W)
        → In r (handlers_of bus n)
        → (r.hook_id == id) ≡ true
        → holds_hook id bus.handlers ≡ true
    unfolding holds_hook handlers_of
    In-holds n r m e = elim (Option-cases (Dict.lookup bus.handlers n)) [
      | inl q ↦ elim (rw q at m) [ ]
      | inr (regs, q) ↦
          any_of_In shrinks bus.handlers (n, regs) (In_of_lookup bus.handlers n regs q)
            (smaller regs (rw q at m))
    ]
      where
        smaller : (regs : List (HookRegistration W)) → In r regs → shrinks (n, regs) ≡ true
        smaller regs inside =
            unfold others in
            ground (
              arith,
              length-filter-lt (λ (x : HookRegistration W). not (x.hook_id == id)) regs r inside
                  (rw e),
            )

    holds-contains : holds_hook id bus.handlers ≡ true → contains id bus.ids ≡ true
    holds-contains h =
        let (n, r, m, e) = holds-In h in
        any_of_In (λ i. i == id) bus.ids r.hook_id (v.known n r m) e

    contains-holds : contains id bus.ids ≡ true → holds_hook id bus.handlers ≡ true
    contains-holds h =
        let (k, m, e) = any-In (λ i. i == id) bus.ids h in
        let (n, r, held, q) = v.owned k m in In-holds n r held (rw q e)

    others-absent :
        holds_hook id bus.handlers ≡ false
        → (n : String) → handlers_of bus n ≡ others id (handlers_of bus n)
    unfolding others
    others-absent h n =
        elim (Bool-cases (any (λ (r : HookRegistration W). r.hook_id == id) (handlers_of bus n))) [
          | inl e ↦
              let (r, m, q) =
                any-In (λ (r : HookRegistration W). r.hook_id == id) (handlers_of bus n) e in
              absurd (false≢true (sym h ∙ In-holds n r m q))
          | inr e ↦
              sym (filter_none (λ (r : HookRegistration W). r.hook_id == id) (handlers_of bus n) e)
        ]

    -- On a valid bus `unregister` does not raise and says whether it knew the id. Behind it the bus
    -- is valid, does not know the id, and of each event the hooks with other ids are left, in order.
    pub unregister_lem :
        IsValid (unregister bus id).0
        × ((unregister bus id).1 ≡ ok (contains id bus.ids))
        × (contains id (unregister bus id).0.ids ≡ false)
        × ((n : String) → handlers_of (unregister bus id).0 n ≡ others id (handlers_of bus n))
    unfolding unregister
    unregister_lem = elim (Bool-cases (holds_hook id bus.handlers)) [
      | inl e ↦
          let known = holds-contains e in
          rw (e, known)
            (left-IsValid, refl, not-contains-filter id bus.ids, handlers_of-left remaining)
      | inr e ↦ elim (Bool-cases (contains id bus.ids)) [
        | inl known ↦ absurd (false≢true (sym e ∙ contains-holds known))
        | inr unknown ↦ rw (e, unknown) (v, refl, refl, others-absent e)
      ]
    ]
