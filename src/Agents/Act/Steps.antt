-- ===== src/Agents/Act/Steps.antt =====
-- What holds along the steps of a call: a property of the state that every step keeps, and an error
-- that no step raises.
use mathlib.Core.Bool.{true≢false}
use aihi.Prelude.{
  String, ◌≡◌, ◌≢◌, refl, sym, ap, ◌∙◌, subst, List, [], ◌∷◌, Result, ok, err, Error, inl, inr,
  ok-ne-err, err-injective, true, contains, ◌==◌, arith, Bool-cases, eq_refl, eq_iff,
}
use aihi.Agents.Act.{Act, follow, ◌>>=◌, each}

abbrev pub Keeps : {S A : Type 0} → (S → Type 0) → Act S A → Type 0
Keeps {S = S} P m = (s : S) → P s → P (m s).1

-- From a state with `P` the call does not raise `x`.
abbrev pub Spares : {S A : Type 0} → (S → Type 0) → Error → Act S A → Type 0
Spares {S = S} P x m = (s : S) → P s → (m s).0 ≢ err x

module _ {S A B : Type 0} (P : S → Type 0) where
  pub follow-Keeps :
      (r : Result A × S) (f : A → Act S B) → P r.1 → ((a : A) → Keeps P (f a)) → P (follow r f).1
  follow-Keeps (ok a, s) f p k = k a s p
  follow-Keeps (err x, s) f p k = p

  pub >>=-Keeps :
      (m : Act S A) (f : A → Act S B) → Keeps P m → ((a : A) → Keeps P (f a)) → Keeps P (m >>= f)
  >>=-Keeps m f k l s p = follow-Keeps (m s) f (k s p) l

  follow-Spares :
      (x : Error) (r : Result A × S) (f : A → Act S B)
      → P r.1
      → r.0 ≢ err x
      → ((a : A) → r.0 ≡ ok a → Spares P x (f a))
      → (follow r f).0 ≢ err x
  follow-Spares x (ok a, s) f p n l = l a refl s p
  follow-Spares x (err y, s) f p n l = λ h. n (ap err (err-injective h))

  pub >>=-Spares :
      (x : Error) (m : Act S A) (f : A → Act S B)
      → Keeps P m
      → Spares P x m
      → ((a : A) → Spares P x (f a))
      → Spares P x (m >>= f)
  >>=-Spares x m f k n l s p = follow-Spares x (m s) f (k s p) (n s p) (λ a e. l a)

module _ {S : Type 0} (P : S → Type 0) where
  pub each-Keeps :
      (body : String → Act S (Unit {0})) (xs : List String)
      → ((x : String) → Keeps P (body x))
      → Keeps P (each body xs)
  each-Keeps body [] k = λ s p. p
  each-Keeps body (x ∷ xs) k =
      >>=-Keeps P (body x) (λ _. each body xs) (k x) (λ _. each-Keeps body xs k)

  pub each-Spares :
      (e : Error) (body : String → Act S (Unit {0})) (xs : List String)
      → ((x : String) → Keeps P (body x))
      → ((x : String) → contains x xs ≡ true → Spares P e (body x))
      → Spares P e (each body xs)
  each-Spares e body [] k n = λ s p. ok-ne-err
  each-Spares e body (x ∷ xs) k n =
      >>=-Spares P e (body x) (λ _. each body xs) (k x) (n x (ground (arith, eq_refl x)))
        (λ _. each-Spares e body xs k (λ y m. n y (ground arith)))

-- A call that returns has returned at each of its steps.
pub follow-ok :
    {S A B : Type 0} (r : Result A × S) (f : A → Act S B) (b : B)
    → (follow r f).0 ≡ ok b
    → (a : A) × (r.0 ≡ ok a) × (follow r f ≡ f a r.1)
follow-ok (ok a, s) f b h = (a, refl, refl)
follow-ok (err x, s) f b h = absurd (ok-ne-err {x = x} (sym h))

-- A loop that returns has done for each element what its body does, if no round undoes it.
pub each-does :
    {S : Type 0} (P : String → S → Type 0) (body : String → Act S (Unit {0})) (xs : List String)
    → ((x y : String) → Keeps (P x) (body y))
    → ((x : String) (s : S) → (body x s).0 ≡ ok tt → P x (body x s).1)
    → (s : S) → (each body xs s).0 ≡ ok tt
    → (x : String) → contains x xs ≡ true
    → P x (each body xs s).1
each-does P body [] keeps does s h x m = absurd (true≢false (sym m))
each-does P body (y ∷ ys) keeps does s h x m =
    let (u, p, q) = follow-ok (body y s) (λ _. each body ys) tt h in
    let rest = (body y s).1 in
    let back = ap (λ (r : Result (Unit {0}) × _). r.1) (sym q) in
    let later = sym (ap (λ (r : Result (Unit {0}) × _). r.0) q) ∙ h in
    elim (Bool-cases (y == x)) [
      | inl e ↦ subst (P x) back (
          each-Keeps (P x) body ys (keeps x) rest
            (subst (λ z. P z rest) ((eq_iff y x).0 e) (does y s p)))
      | inr e ↦ subst (P x) back (each-does P body ys keeps does rest later x (rw e at m))
    ]
