-- ===== src/Coding/Framing/Decimal.antt =====
-- The decimal text of a number and `int()`.
use Prim.Native.Nat.{◌/◌, ◌%◌}
use aihi.Prelude.{
  ℕ, zero, suc, ◌+◌, ◌-◌, ◌*◌, ◌≡◌, ◌<◌, ◌≤◌, refl, Bool, true, false, some, List, [], ◌∷◌, ◌++◌,
  length, filter, all, arith, ltb, nat_eq, Bool-cases, inl, inr, length-append, ap, ◌∙◌,
}
use aihi.Json.{pos}
use aihi.Coding.Framing.{
  Bytes, is_digit, digits_value, parse_int, max_digits, decimal_rounds, decimal,
}

value : ℕ → Bytes → ℕ
value acc [] = acc
value acc (b ∷ bs) = value (acc * 10 + (b - 48)) bs

value_last :
    (acc : ℕ) (xs : Bytes) (d : ℕ) → value acc (xs ++ d ∷ []) ≡ value acc xs * 10 + (d - 48)
unfolding value
value_last acc [] d = refl
value_last acc (x ∷ xs) d = value_last (acc * 10 + (x - 48)) xs d

pub all-append {ℓ} :
    {A : Type ℓ} (p : A → Bool) (xs ys : List A)
    → all p xs ≡ true
    → all p ys ≡ true
    → all p (xs ++ ys) ≡ true
all-append p [] ys h k = k
all-append p (x ∷ xs) ys h k = ground (arith, all-append p xs ys)

filter-all {ℓ} : {A : Type ℓ} (p : A → Bool) (xs : List A) → all p xs ≡ true → filter p xs ≡ xs
filter-all p [] h = refl
filter-all p (x ∷ xs) h = ground (arith, filter-all p xs)

decimal_rounds-digits : (fuel n : ℕ) → all is_digit (decimal_rounds fuel n) ≡ true
unfolding decimal_rounds
decimal_rounds-digits zero n = refl
decimal_rounds-digits (suc fuel) n = elim (Bool-cases (ltb n 10)) [
  | inl e ↦ rw e (ground arith)
  | inr e ↦ rw e (
      all-append is_digit (decimal_rounds fuel (n / 10)) ((48 + n % 10) ∷ [])
        (decimal_rounds-digits fuel (n / 10)) (ground arith))
]

value-decimal_rounds : (fuel n : ℕ) → n < fuel → value 0 (decimal_rounds fuel n) ≡ n
unfolding decimal_rounds
value-decimal_rounds zero n h = absurd (omega arith)
value-decimal_rounds (suc fuel) n h = elim (Bool-cases (ltb n 10)) [
  | inl e ↦ rw e (unfold value in omega arith)
  | inr e ↦ rw e (
      omega (
        arith,
        value_last 0 (decimal_rounds fuel (n / 10)) (48 + n % 10),
        value-decimal_rounds fuel (n / 10) (ground arith),
      ))
]

decimal_rounds_some : (fuel n : ℕ) → n < fuel → 0 < length (decimal_rounds fuel n)
unfolding decimal_rounds
decimal_rounds_some zero n h = absurd (omega arith)
decimal_rounds_some (suc fuel) n h = elim (Bool-cases (ltb n 10)) [
  | inl e ↦ rw e (omega arith)
  | inr e ↦ rw e (omega (arith, length-append (decimal_rounds fuel (n / 10)) ((48 + n % 10) ∷ [])))
]

pub decimal-digits : (n : ℕ) → all is_digit (decimal n) ≡ true
unfolding decimal
decimal-digits n = decimal_rounds-digits (suc n) n

pub decimal_some : (n : ℕ) → 0 < length (decimal n)
unfolding decimal
decimal_some n = decimal_rounds_some (suc n) n (omega arith)

value-decimal : (n : ℕ) → value 0 (decimal n) ≡ n
unfolding decimal
value-decimal n = value-decimal_rounds (suc n) n (omega arith)

digits_value-after :
    (acc : ℕ) (bs : Bytes) → all is_digit bs ≡ true → digits_value true acc bs ≡ some (value acc bs)
unfolding digits_value value
digits_value-after acc [] h = refl
digits_value-after acc (b ∷ bs) h = ground (arith, digits_value-after (acc * 10 + (b - 48)) bs)

digits_value-first :
    (b : ℕ) (bs : Bytes)
    → all is_digit (b ∷ bs) ≡ true
    → digits_value false 0 (b ∷ bs) ≡ some (value 0 (b ∷ bs))
unfolding digits_value value
digits_value-first b bs h = ground (arith, digits_value-after (0 + (b - 48)) bs)

-- A text of digits, as many as Python takes, is a natural number.
parse_int-digits :
    (bs : Bytes)
    → all is_digit bs ≡ true
    → 0 < length bs
    → length bs ≤ max_digits
    → parse_int bs ≡ some (pos (value 0 bs))
unfolding parse_int
parse_int-digits [] h k few = absurd (omega arith)
parse_int-digits (b ∷ bs) h k few = rw (
  not_sign 45 b (ground arith) (ground arith),
  not_sign 43 b (ground arith) (ground arith),
  filter-all is_digit (b ∷ bs) h,
  within,
  digits_value-first b bs h,
)
  where
    not_sign : (s b : ℕ) → is_digit b ≡ true → s < 48 → nat_eq b s ≡ false
    not_sign s b h k = ground arith

    within : ltb max_digits (length (b ∷ bs)) ≡ false
    within = ground arith

pub parse_int-decimal :
    (n : ℕ) → length (decimal n) ≤ max_digits → parse_int (decimal n) ≡ some (pos n)
parse_int-decimal n few =
    parse_int-digits (decimal n) (decimal-digits n) (decimal_some n) few
    ∙ ap (λ v. some (pos v)) (value-decimal n)
