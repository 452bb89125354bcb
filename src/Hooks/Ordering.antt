-- ===== src/Hooks/Ordering.antt =====
-- The order in which the hooks of an event are called.
use mathlib.Core.List.{Perm}
use mathlib.Core.List.Perm
use aihi.Prelude.{
  String, ◌≡◌, refl, true, false, List, [], ◌∷◌, arith, Bool-cases, inl, inr, In, here, there,
}
use aihi.Json.{ℤ, pos, negsuc}
use aihi.Agents.Types.{leb_int}
use aihi.Hooks.{
  HookRegistration, HookBus, handlers_of, is_before, insert_registration, sort_registrations,
  registrations,
}

leb_int_total : (a b : ℤ) → leb_int a b ≡ false → leb_int b a ≡ true
leb_int_total (pos m) (pos n) h = ground arith
leb_int_total (pos m) (negsuc n) h = refl
leb_int_total (negsuc m) (pos n) h = cc
leb_int_total (negsuc m) (negsuc n) h = ground arith

module _ {W : Type 0} where
  is_before_total : (r q : HookRegistration W) → is_before r q ≡ false → is_before q r ≡ true
  unfolding is_before
  is_before_total r q h = ground (arith, leb_int_total r.priority q.priority)

  abbrev pub Precedes : HookRegistration W → List (HookRegistration W) → Type 0
  Precedes r [] = Unit
  Precedes r (q ∷ rs) = is_before r q ≡ true

  -- Each hook comes before the next by its priority and, where these are equal, by the number
  -- that it was registered under.
  abbrev pub IsOrdered : List (HookRegistration W) → Type 0
  IsOrdered [] = Unit
  IsOrdered (r ∷ rs) = Precedes r rs × IsOrdered rs

  insert-Precedes :
      (q r : HookRegistration W) (rs : List (HookRegistration W))
      → is_before q r ≡ true
      → Precedes q rs
      → Precedes q (insert_registration r rs)
  unfolding insert_registration
  insert-Precedes q r [] e o = e
  insert-Precedes q r (p ∷ rs) e o = elim (Bool-cases (is_before r p)) [
    | inl b ↦ rw b e
    | inr b ↦ rw b o
  ]

  insert-IsOrdered :
      (r : HookRegistration W) (rs : List (HookRegistration W))
      → IsOrdered rs
      → IsOrdered (insert_registration r rs)
  unfolding insert_registration
  insert-IsOrdered r [] o = (tt, tt)
  insert-IsOrdered r (q ∷ rs) o = elim (Bool-cases (is_before r q)) [
    | inl e ↦ rw e (e, o)
    | inr e ↦ rw e (insert-Precedes q r rs (is_before_total r q e) o.0, insert-IsOrdered r rs o.1)
  ]

  sort-IsOrdered : (rs : List (HookRegistration W)) → IsOrdered (sort_registrations rs)
  unfolding sort_registrations
  sort-IsOrdered [] = tt
  sort-IsOrdered (r ∷ rs) = insert-IsOrdered r (sort_registrations rs) (sort-IsOrdered rs)

  insert-perm :
      (r : HookRegistration W) (rs : List (HookRegistration W))
      → Perm (insert_registration r rs) (r ∷ rs)
  unfolding insert_registration
  insert-perm r [] = Perm.refl (r ∷ [])
  insert-perm r (q ∷ rs) = elim (Bool-cases (is_before r q)) [
    | inl e ↦ rw e (Perm.refl (r ∷ q ∷ rs))
    | inr e ↦ rw e (Perm.trans (Perm.cons q (insert-perm r rs)) (Perm.swap r q rs))
  ]

  sort-perm : (rs : List (HookRegistration W)) → Perm (sort_registrations rs) rs
  unfolding sort_registrations
  sort-perm [] = Perm.refl []
  sort-perm (r ∷ rs) =
      Perm.trans (insert-perm r (sort_registrations rs)) (Perm.cons r (sort-perm rs))

  insert-In :
      (r q : HookRegistration W) (rs : List (HookRegistration W))
      → In q (r ∷ rs)
      → In q (insert_registration r rs)
  unfolding insert_registration
  insert-In r q [] m = m
  insert-In r q (p ∷ rs) m = elim (Bool-cases (is_before r p)) [
    | inl e ↦ rw e m
    | inr e ↦ rw e (behind (insert-In r q rs) m)
  ]
    where
      behind :
          (In q (r ∷ rs) → In q (insert_registration r rs))
          → In q (r ∷ p ∷ rs)
          → In q (p ∷ insert_registration r rs)
      behind inside (here e) = there (inside (here e))
      behind inside (there (here e)) = here e
      behind inside (there (there m)) = there (inside (there m))

  sort-In :
      (q : HookRegistration W) (rs : List (HookRegistration W))
      → In q rs
      → In q (sort_registrations rs)
  unfolding sort_registrations
  sort-In q [] m = m
  sort-In q (r ∷ rs) (here e) = insert-In r q (sort_registrations rs) (here e)
  sort-In q (r ∷ rs) (there m) = insert-In r q (sort_registrations rs) (there (sort-In q rs m))

  pub registrations-In :
      (bus : HookBus W) (name : String) (r : HookRegistration W)
      → In r (handlers_of bus name)
      → In r (registrations bus name)
  unfolding registrations
  registrations-In bus name r m = sort-In r (handlers_of bus name) m

  -- The registrations of an event are the hooks registered for it, each as often, ordered by
  -- priority and then by the number that each was registered under.
  pub registrations-IsOrdered :
      (bus : HookBus W) (name : String)
      → IsOrdered (registrations bus name) × Perm (registrations bus name) (handlers_of bus name)
  unfolding registrations
  registrations-IsOrdered bus name =
      (sort-IsOrdered (handlers_of bus name), sort-perm (handlers_of bus name))
