-- ===== src/Prelude/Lists.antt =====
-- Lists over the native numbers, with the Boolean forms of `any`, `all` and `in`.
use Prim.Native.Nat.{ℕ, zero, suc, ◌+◌}
use Prim.Native.String.{String}
use mathlib.Core.Path.{◌≡◌, refl, sym, ap, ◌∙◌}
use mathlib.Core.Bool.{Bool, true, false, false≢true, not, ◌&&◌, ◌||◌}
use mathlib.Core.List.{List, [], ◌∷◌, ◌++◌}
use native.Mathlib.Omega.{arith}
use text.Mathlib.Text.{◌==◌}
use mathlib.Core.Logic.{◌⊎◌, inl, inr}
use aihi.Prelude.Tests.{if◌then◌else◌, Bool-cases}

module _ {ℓ} {A : Type ℓ} where
  abbrev pub length : List A → ℕ
  length [] = 0
  length (x ∷ xs) = suc (length xs)

  abbrev pub filter : (A → Bool) → List A → List A
  filter p [] = []
  filter p (x ∷ xs) = let rest = filter p xs in if p x then x ∷ rest else rest

  abbrev pub any : (A → Bool) → List A → Bool
  any p [] = false
  any p (x ∷ xs) = p x || any p xs

  abbrev pub all : (A → Bool) → List A → Bool
  all p [] = true
  all p (x ∷ xs) = p x && all p xs

  abbrev pub drop : ℕ → List A → List A
  drop zero xs = xs
  drop (suc n) [] = []
  drop (suc n) (x ∷ xs) = drop n xs

  pub length-append : (xs ys : List A) → length (xs ++ ys) ≡ length xs + length ys
  length-append [] ys = omega arith
  length-append (x ∷ xs) ys = omega (arith, length-append xs ys)

  pub any-append : (p : A → Bool) (xs ys : List A) → any p (xs ++ ys) ≡ (any p xs || any p ys)
  any-append p [] ys = refl
  any-append p (x ∷ xs) ys = ground (arith, any-append p xs ys)

-- `item in collection` for strings
abbrev pub contains : String → List String → Bool
contains s xs = any (λ x. x == s) xs

-- `len(set(xs)) == len(xs)`
abbrev pub distinct : List String → Bool
distinct [] = true
distinct (x ∷ xs) = not (contains x xs) && distinct xs

-- `set(xs).issubset(ys)`
abbrev pub subset : List String → List String → Bool
subset xs ys = all (λ x. contains x ys) xs

-- Membership that keeps the place.
pub data In {ℓ} {A : Type ℓ} (x : A) : List A → Type ℓ where
  here : {y : A} {ys : List A} → y ≡ x → In x (y ∷ ys)
  there : {y : A} {ys : List A} → In x ys → In x (y ∷ ys)

module _ {ℓ} {A : Type ℓ} (p : A → Bool) where
  -- What `any` finds.
  pub any-In : (xs : List A) → any p xs ≡ true → (x : A) × In x xs × (p x ≡ true)
  any-In [] h = absurd (false≢true h)
  any-In (x ∷ xs) h = elim (Bool-cases (p x)) [
    | inl e ↦ (x, here refl, e)
    | inr e ↦ let (y, m, q) = any-In xs (rw e at h) in (y, there m, q)
  ]

  pub any_of_In : (xs : List A) (x : A) → In x xs → p x ≡ true → any p xs ≡ true
  any_of_In [] x m h = elim m [ ]
  any_of_In (y ∷ ys) x (here e) h = rw (e, h)
  any_of_In (y ∷ ys) x (there m) h = ground (arith, any_of_In ys x m h)

module _ {ℓ} {A : Type ℓ} where
  pub In-append : (xs ys : List A) (x : A) → In x (xs ++ ys) → In x xs ⊎ In x ys
  In-append [] ys x m = inr m
  In-append (y ∷ xs) ys x (here e) = inl (here e)
  In-append (y ∷ xs) ys x (there m) = elim (In-append xs ys x m) [
    | inl a ↦ inl (there a)
    | inr b ↦ inr b
  ]

  pub In-append_left : (xs ys : List A) (x : A) → In x xs → In x (xs ++ ys)
  In-append_left [] ys x m = elim m [ ]
  In-append_left (y ∷ xs) ys x (here e) = here e
  In-append_left (y ∷ xs) ys x (there m) = there (In-append_left xs ys x m)

  pub In-append_right : (xs ys : List A) (x : A) → In x ys → In x (xs ++ ys)
  In-append_right [] ys x m = m
  In-append_right (y ∷ xs) ys x m = there (In-append_right xs ys x m)

  pub In-filter : (p : A → Bool) (xs : List A) (x : A) → In x (filter p xs) → In x xs × (p x ≡ true)
  In-filter p [] x m = elim m [ ]
  In-filter p (y ∷ xs) x m = elim (Bool-cases (p y)) [
    | inl e ↦ kept e (In-filter p xs x) (rw e at m)
    | inr e ↦ let (inside, q) = In-filter p xs x (rw e at m) in (there inside, q)
  ]
    where
      kept :
          p y ≡ true
          → (In x (filter p xs) → In x xs × (p x ≡ true))
          → In x (y ∷ filter p xs)
          → In x (y ∷ xs) × (p x ≡ true)
      kept e inside (here q) = (here q, ap p (sym q) ∙ e)
      kept e inside (there m) = (there (inside m).0, (inside m).1)

  pub In_filter : (p : A → Bool) (xs : List A) (x : A) → In x xs → p x ≡ true → In x (filter p xs)
  In_filter p [] x m h = elim m [ ]
  In_filter p (y ∷ xs) x (here e) h = rw (ap p e ∙ h) (here e)
  In_filter p (y ∷ xs) x (there m) h = elim (Bool-cases (p y)) [
    | inl e ↦ rw e (there (In_filter p xs x m h))
    | inr e ↦ rw e (In_filter p xs x m h)
  ]

  pub In_singleton : (x y : A) → In x (y ∷ []) → y ≡ x
  In_singleton x y (here e) = e
  In_singleton x y (there m) = elim m [ ]
