-- ===== src/Python.antt =====
-- The parts of Python's library that the sources use and that are not written out: the text of a
-- datetime and its parser, `str()` of a number or a container, and `dict()` of a value that is not
-- a dict. An instant is a number of microseconds.
use aihi.Prelude.{
  ℕ, String, Bool, false, ◌≡◌, Option, some, Result, ok, value_error, or_raise, ◌==◌, if◌then◌else◌,
}
use aihi.Json.{Json, Fields, pos, null, bool, int, str, obj}

pub record Python : Type 0 where
  -- `datetime.isoformat` and `datetime.fromisoformat`; `none` is its ValueError
  pub isoformat : ℕ → String
  pub fromisoformat : String → Option ℕ
  pub fromisoformat-isoformat : (t : ℕ) → fromisoformat (isoformat t) ≡ some t
  pub isoformat_nonempty : (t : ℕ) → (isoformat t == "") ≡ false
  pub show : Json → String
  pub dict_of : Json → Result Fields
  -- `json.loads`, where `none` is its JSONDecodeError, and `json.dumps` with sorted keys and no
  -- spaces
  pub loads : String → Option Json
  pub dumps : Json → String
  -- `==` of two JSON values
  pub equal : Json → Json → Bool
  -- `int()` of a value that is not a natural number
  pub int_of : Json → Result ℕ

module _ ⦃py : Python⦄ where
  -- `str(value)`
  abbrev pub text : Json → String
  text (str s) = s
  text null = "None"
  text (bool b) = if b then "True" else "False"
  text v = py.show v

  -- `dict(value)`
  abbrev pub dict_copy : Json → Result Fields
  dict_copy (obj fs) = ok fs
  dict_copy v = py.dict_of v

  -- `int(value)`
  abbrev pub natural : Json → Result ℕ
  natural (int (pos n)) = ok n
  natural v = py.int_of v

  abbrev pub parse_time : Json → Result ℕ
  parse_time v = or_raise (py.fromisoformat (text v)) value_error
