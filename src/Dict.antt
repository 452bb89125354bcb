-- ===== src/Dict.antt =====
-- Python's `dict` with string keys: an association list in insertion order.
use aihi.Prelude.{
  String, ◌≡◌, refl, Option, none, some, List, [], ◌∷◌, arith, ◌==◌, eq_iff, if◌then◌else◌, true,
  false, ◌||◌, contains, distinct, In, here, there, ap, Bool-cases, inl, inr, some-injective,
}

abbrev pub Dict {ℓ} : Type ℓ → Type ℓ
Dict V = List (String × V)

module _ {ℓ} {V : Type ℓ} where
  unfoldable pub lookup : Dict V → String → Option V
  lookup [] k = none
  lookup ((j, v) ∷ d) k = if j == k then some v else lookup d k

  -- `d[k] = v`: a key that is there keeps its place.
  unfoldable pub insert : Dict V → String → V → Dict V
  insert [] k v = (k, v) ∷ []
  insert ((j, w) ∷ d) k v = if j == k then (j, v) ∷ d else (j, w) ∷ insert d k v

  -- `d.pop(k, None)`
  unfoldable pub remove : Dict V → String → Dict V
  remove [] k = []
  remove ((j, v) ∷ d) k = let rest = remove d k in if j == k then rest else (j, v) ∷ rest

  unfoldable pub values : Dict V → List V
  values [] = []
  values ((k, v) ∷ d) = v ∷ values d

  unfoldable pub keys : Dict V → List String
  keys [] = []
  keys ((k, v) ∷ d) = k ∷ keys d

  pub lookup-insert :
      (d : Dict V) (k j : String) (v : V)
      → lookup (insert d k v) j ≡ (if k == j then some v else lookup d j)
  unfolding lookup insert
  lookup-insert [] k j v = refl
  lookup-insert ((i, w) ∷ d) k j v =
      ground (arith, eq_iff k j, eq_iff i k, eq_iff i j, lookup-insert d k j v)

  pub lookup-remove :
      (d : Dict V) (k j : String) → lookup (remove d k) j ≡ (if k == j then none else lookup d j)
  unfolding lookup remove
  lookup-remove [] k j = ground arith
  lookup-remove ((i, v) ∷ d) k j =
      ground (arith, lookup-remove d k j, eq_iff i k, eq_iff i j, eq_iff k j)

  pub lookup-empty : (k : String) → lookup [] k ≡ none
  unfolding lookup
  lookup-empty k = refl

module _ {ℓ} {V : Type ℓ} where
  contains-insert :
      (d : Dict V) (k j : String) (v : V)
      → contains j (keys (insert d k v)) ≡ (contains j (keys d) || k == j)
  unfolding keys insert
  contains-insert [] k j v = ground arith
  contains-insert ((i, w) ∷ d) k j v =
      ground (arith, eq_iff i k, eq_iff i j, eq_iff k j, contains-insert d k j v)

  pub insert-distinct :
      (d : Dict V) (k : String) (v : V)
      → distinct (keys d) ≡ true
      → distinct (keys (insert d k v)) ≡ true
  unfolding keys insert
  insert-distinct [] k v h = refl
  insert-distinct ((i, w) ∷ d) k v h =
      ground (arith, eq_iff i k, eq_iff k i, contains-insert d k i v, insert-distinct d k v)

  contains-remove :
      (d : Dict V) (k j : String)
      → contains j (keys d) ≡ false
      → contains j (keys (remove d k)) ≡ false
  unfolding keys remove
  contains-remove [] k j h = refl
  contains-remove ((i, w) ∷ d) k j h = ground (arith, contains-remove d k j)

  pub remove-distinct :
      (d : Dict V) (k : String) → distinct (keys d) ≡ true → distinct (keys (remove d k)) ≡ true
  unfolding keys remove
  remove-distinct [] k h = refl
  remove-distinct ((i, w) ∷ d) k h = ground (arith, contains-remove d k i, remove-distinct d k)

  pub In-values : (d : Dict V) (v : V) → In v (values d) → (k : String) × In (k, v) d
  unfolding values
  In-values [] v m = elim m [ ]
  In-values ((i, w) ∷ d) v (here e) = (i, here (ap (λ x. (i, x)) e))
  In-values ((i, w) ∷ d) v (there m) = let (k, inside) = In-values d v m in (k, there inside)

  contains-keys : (d : Dict V) (k : String) (v : V) → In (k, v) d → contains k (keys d) ≡ true
  unfolding keys
  contains-keys [] k v m = elim m [ ]
  contains-keys ((i, w) ∷ d) k v (here e) = rw ((eq_iff i k).1 (ap (λ p. p.0) e))
  contains-keys ((i, w) ∷ d) k v (there m) = ground (arith, contains-keys d k v m)

  pub In_of_lookup : (d : Dict V) (k : String) (v : V) → lookup d k ≡ some v → In (k, v) d
  unfolding lookup
  In_of_lookup [] k v h = cc
  In_of_lookup ((i, w) ∷ d) k v h = elim (Bool-cases (i == k)) [
    | inl e ↦ here (found ((eq_iff i k).0 e) (some-injective (rw e at h)))
    | inr e ↦ there (In_of_lookup d k v (rw e at h))
  ]
    where
      found : i ≡ k → w ≡ v → ◌≡◌ {A = String × V} (i, w) (k, v)
      found a b = cc

  -- With distinct keys, every entry is the one that is found.
  pub lookup_of_In :
      (d : Dict V) (k : String) (v : V)
      → distinct (keys d) ≡ true
      → In (k, v) d
      → lookup d k ≡ some v
  unfolding keys lookup
  lookup_of_In [] k v h m = elim m [ ]
  lookup_of_In ((i, w) ∷ d) k v h (here e) =
      rw ((eq_iff i k).1 (ap (λ p. p.0) e)) (ap (λ p. some (p.1)) e)
  lookup_of_In ((i, w) ∷ d) k v h (there m) =
      ground (arith, eq_iff i k, contains-keys d k v m, lookup_of_In d k v)

pub absent {ℓ} : {V : Type ℓ} {v : V} (k : String) → lookup [] k ≡ some v → ⊥
unfolding lookup
absent k h = cc

pub ruleset dict_laws = (lookup-empty, lookup-insert, lookup-remove)
