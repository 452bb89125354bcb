-- ===== src/Examples/Sample.antt =====
-- A stand-in for Python's library, and small logs.
use aihi.Prelude.{
  ℕ, zero, suc, String, ◌≡◌, refl, ap, false, Option, none, some, err, type_error, ◌==◌, Bool-cases,
  inl, inr, arith, eq_iff, Bool, true, nat_eq,
}
use aihi.Json.{Json, Fields, null, bool, int, str, obj, end, pos}
use aihi.Policy.Approvals.{same_flag}
use aihi.Event.{Event, new_event}
use aihi.Python.{Python}

-- An instant as a row of marks, one more than its number.
abbrev pub marks : ℕ → String
marks zero = String.◌∷◌ "T" String.[]
marks (suc n) = String.◌∷◌ "T" (marks n)

abbrev pub size : String → ℕ
size String.[] = 0
size (String.◌∷◌ c s) = suc (size s)

abbrev pub read_marks : String → Option ℕ
read_marks String.[] = none
read_marks (String.◌∷◌ c s) = some (size s)

size-marks : (n : ℕ) → size (marks n) ≡ suc n
size-marks zero = refl
size-marks (suc n) = ap suc (size-marks n)

pub read_marks-marks : (n : ℕ) → read_marks (marks n) ≡ some n
read_marks-marks zero = refl
read_marks-marks (suc n) = ap some (size-marks n)

pub marks_nonempty : (n : ℕ) → (marks n == "") ≡ false
marks_nonempty n = elim (Bool-cases (marks n == "")) [
  | inl e ↦ absurd (omega (arith, size-marks n, ap size ((eq_iff (marks n) "").0 e)))
  | inr e ↦ e
]

-- Texts, flags, natural numbers, the empty dict and None by their value; all else is apart.
abbrev pub same_value : Json → Json → Bool
same_value (str s) (str t) = s == t
same_value (bool a) (bool b) = same_flag a b
same_value (int (pos m)) (int (pos n)) = nat_eq m n
same_value (obj end) (obj end) = true
same_value null null = true
same_value _ _ = false

instance abbrev pub sample_python : Python
sample_python = record {
  isoformat = marks;
  fromisoformat = read_marks;
  fromisoformat-isoformat = read_marks-marks;
  isoformat_nonempty = marks_nonempty;
  show = λ v. "?";
  dict_of = λ v. err type_error;
  loads = λ s. none;
  dumps = λ v. "?";
  equal = same_value;
  int_of = λ v. err type_error;
}

-- An event with fields that matter; the rest is the same for all.
abbrev pub event : String → String → Option String → Fields → Event
event id type run payload = new_event id "now" type "s" run payload
