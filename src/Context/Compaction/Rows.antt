-- ===== src/Context/Compaction/Rows.antt =====
-- The groups of a row of indexes, and those before it.
use aihi.Prelude.{
  ℕ, zero, suc, ◌+◌, ◌≤◌, ◌<◌, ◌≡◌, refl, true, false, List, [], ◌∷◌, ◌++◌, length, drop, any,
  nat_eq, arith, Bool-cases, inl, inr, ap, sym, ◌∙◌, subst, append_assoc, append-nil, length-append,
  if◌then◌else◌,
}
use aihi.Messages.{Message}
use aihi.Context.Grouping.Groups.{concat}
use aihi.Context.Compaction.{group_at, retained_at, omitted_from}

-- The indexes of a row, and the numbers of a row that starts at `k`.
abbrev pub rising : ℕ → ℕ → List ℕ
rising k zero = []
rising k (suc m) = k ∷ rising (suc k) m

pub length-rising : (k m : ℕ) → length (rising k m) ≡ m
length-rising k zero = refl
length-rising k (suc m) = ap suc (length-rising (suc k) m)

any-rising_below : (i k m : ℕ) → i < k → any (nat_eq i) (rising k m) ≡ false
any-rising_below i k zero h = refl
any-rising_below i k (suc m) h = ground (arith, any-rising_below i (suc k) m (omega arith))

any-rising_within : (i k m : ℕ) → k ≤ i → i < k + m → any (nat_eq i) (rising k m) ≡ true
any-rising_within i k zero h l = absurd (omega arith)
any-rising_within i k (suc m) h l = elim (Bool-cases (nat_eq i k)) [
  | inl e ↦ rw e
  | inr e ↦ rw (e, any-rising_within i (suc k) m (ground arith) (omega arith))
]

omitted_from-older :
    (i k m : ℕ) (gs : List (List Message))
    → i + length gs ≤ k
    → omitted_from i (rising k m) gs ≡ concat gs
unfolding omitted_from
omitted_from-older i k m [] h = refl
omitted_from-older i k m (g ∷ gs) h =
    rw (any-rising_below i k m (omega arith))
      (ap (λ r. g ++ r) (omitted_from-older (suc i) k m gs (omega arith)))

omitted_from-newer :
    (i k m : ℕ) (gs : List (List Message))
    → k ≤ i
    → i + length gs ≤ k + m
    → omitted_from i (rising k m) gs ≡ []
unfolding omitted_from
omitted_from-newer i k m [] h l = refl
omitted_from-newer i k m (g ∷ gs) h l =
    rw (any-rising_within i k m h (omega arith))
      (omitted_from-newer (suc i) k m gs (omega arith) (omega arith))

omitted_from-append :
    (i : ℕ) (indexes : List ℕ) (xs ys : List (List Message))
    → omitted_from i indexes (xs ++ ys)
      ≡ omitted_from i indexes xs ++ omitted_from (i + length xs) indexes ys
unfolding omitted_from
omitted_from-append i indexes [] ys = ap (λ n. omitted_from n indexes ys) (omega arith)
omitted_from-append i indexes (x ∷ xs) ys =
    let shifted : suc i + length xs ≡ i + suc (length xs) = omega arith in
    let rest =
      omitted_from-append (suc i) indexes xs ys
      ∙ ap (λ n. omitted_from (suc i) indexes xs ++ omitted_from n indexes ys) shifted in
    elim (Bool-cases (any (nat_eq i) indexes)) [
      | inl e ↦ rw e rest
      | inr e ↦ rw e (ap (λ r. x ++ r) rest ∙ sym (append_assoc x _ _))
    ]

-- The groups before the row of indexes are omitted, and no others.
pub omitted-row :
    (old new : List (List Message))
    → omitted_from 0 (rising (length old) (length new)) (old ++ new) ≡ concat old
omitted-row old new =
    omitted_from-append 0 (rising (length old) (length new)) old new
    ∙ ap (λ r. r ++ omitted_from (0 + length old) (rising (length old) (length new)) new)
        (omitted_from-older 0 (length old) (length new) old (omega arith))
    ∙ ap (λ r. concat old ++ r)
        (omitted_from-newer (0 + length old) (length old) (length new) new (omega arith)
          (omega arith))
    ∙ append-nil (concat old)

group_at-append :
    (old : List (List Message)) (g : List Message) (new : List (List Message))
    → group_at (length old) (old ++ g ∷ new) ≡ g
group_at-append [] g new = refl
group_at-append (x ∷ old) g new = group_at-append old g new

pub retained-row :
    (old new : List (List Message))
    → retained_at (old ++ new) (rising (length old) (length new)) ≡ concat new
unfolding retained_at
retained-row old [] = refl
retained-row old (g ∷ new) =
    let longer : length (old ++ g ∷ []) ≡ suc (length old) =
      omega (arith, length-append old (g ∷ [])) in
    let rest = retained-row (old ++ g ∷ []) new in
    ap (λ r. r ++ retained_at (old ++ g ∷ new) (rising (suc (length old)) (length new)))
      (group_at-append old g new)
    ∙ ap (λ r. g ++ r)
        (subst (λ n. retained_at (old ++ g ∷ new) (rising n (length new)) ≡ concat new) longer
          (subst (λ gs. retained_at gs (rising (length (old ++ g ∷ [])) (length new)) ≡ concat new)
            (append_assoc old (g ∷ []) new) rest))

pub split-at :
    (k m : ℕ) (gs : List (List Message))
    → k + m ≡ length gs
    → (old : List (List Message)) × (new : List (List Message)) × (gs ≡ old ++ new)
      × (length old ≡ k)
      × (length new ≡ m)
split-at zero m gs h = ([], gs, refl, refl, omega arith)
split-at (suc k) m [] h = absurd (omega arith)
split-at (suc k) m (g ∷ gs) h =
    let (old, new, joined, a, b) = split-at k m gs (omega arith) in
    (g ∷ old, new, ap (λ l. g ∷ l) joined, ap suc a, b)

-- A selection of all groups gives up the oldest one.
pub not_all :
    (k n all : ℕ)
    → k + n ≡ all
    → 1 < all
    → 0 < n
    → (j : ℕ) × (m : ℕ) × ((if nat_eq (length (rising k n)) all
          then drop 1 (rising k n)
          else rising k n)
        ≡ rising j (suc m))
      × (j + suc m ≡ all)
      × (0 < j)
not_all k zero all sum many pos = absurd (omega arith)
not_all k (suc n) all sum many pos =
    elim (Bool-cases (nat_eq (suc (length (rising (suc k) n))) all)) [
      | inl e ↦ taken n sum (ground (arith, length-rising (suc k) n)) e
      | inr e ↦ (k, n, rw e refl, sum, ground (arith, length-rising (suc k) n))
    ]
  where
    taken :
        (n : ℕ)
        → k + suc n ≡ all
        → 0 < n
        → nat_eq (suc (length (rising (suc k) n))) all ≡ true
        → (j : ℕ) × (m : ℕ) × ((if nat_eq (suc (length (rising (suc k) n))) all
              then rising (suc k) n
              else k ∷ rising (suc k) n)
            ≡ rising j (suc m))
          × (j + suc m ≡ all)
          × (0 < j)
    taken zero total some_left e = absurd (omega arith)
    taken (suc n) total some_left e = (suc k, n, rw e refl, omega arith, omega arith)
