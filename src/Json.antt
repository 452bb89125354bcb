-- ===== src/Json.antt =====
-- JSON values as Python holds them, and the reads of `dict` objects that the sources make.
use aihi.Prelude.{
  ℕ, zero, suc, String, Bool, true, false, Option, none, some, Result, ok, err, key_error,
  type_error, contains, ◌==◌, not, ◌||◌, if◌then◌else◌, List, [], ◌∷◌,
}

-- An integer: `negsuc n` is -(n + 1).
pub data ℤ : Type 0 where
  pos negsuc : ℕ → ℤ

-- A float stands by its printed text.
mutual
  pub data Json : Type 0 where
    null : Json
    bool : Bool → Json
    int : ℤ → Json
    float : String → Json
    str : String → Json
    arr : Items → Json
    obj : Fields → Json

  pub data Items : Type 0 where
    nil : Items
    cons : Json → Items → Items

  pub data Fields : Type 0 where
    end : Fields
    field : String → Json → Fields → Fields

-- `d.get(key)` as a value that may be missing.
abbrev pub find_field : String → Fields → Option Json
find_field k end = none
find_field k (field j v fs) = if j == k then some v else find_field k fs

abbrev or_default : Option Json → Json → Json
or_default none d = d
or_default (some v) d = v

-- `d.get(key, default)` and `d.get(key)`
abbrev pub get_or : Fields → String → Json → Json
get_or fs k d = or_default (find_field k fs) d

abbrev pub get : Fields → String → Json
get fs k = get_or fs k null

-- `d[key]`
abbrev pub at_key : Fields → String → Result Json
at_key fs k = elim (find_field k fs) [ none ↦ err key_error | some v ↦ ok v ]

abbrev pub as_dict : Json → Option Fields
as_dict (obj fs) = some fs
as_dict _ = none

abbrev pub as_str : Json → Option String
as_str (str s) = some s
as_str _ = none

abbrev pub list_of : Items → List Json
list_of nil = []
list_of (cons v vs) = v ∷ list_of vs

abbrev pub items_of : List Json → Items
items_of [] = nil
items_of (v ∷ vs) = cons v (items_of vs)

abbrev pub as_list : Json → Option (List Json)
as_list (arr vs) = some (list_of vs)
as_list _ = none

abbrev pub is_null : Json → Bool
is_null null = true
is_null _ = false

-- Python's truth value.
abbrev pub truthy : Json → Bool
truthy null = false
truthy (bool b) = b
truthy (int (pos zero)) = false
truthy (int (pos (suc n))) = true
truthy (int (negsuc n)) = true
truthy (float s) = not (s == "0.0" || s == "-0.0")
truthy (str s) = not (s == "")
truthy (arr nil) = false
truthy (arr (cons v vs)) = true
truthy (obj end) = false
truthy (obj (field k v fs)) = true

-- `value in {…}` for a set of texts: a list or a dict has no hash
abbrev pub one_of : Json → List String → Result Bool
one_of (str s) names = ok (contains s names)
one_of (arr vs) names = err type_error
one_of (obj fs) names = err type_error
one_of _ names = ok false

abbrev pub is_text : Json → String → Bool
is_text (str s) t = s == t
is_text _ t = false

-- `d[k] = v`
abbrev pub set_field : Fields → String → Json → Fields
set_field end k v = field k v end
set_field (field j w fs) k v = if j == k then field j v fs else field j w (set_field fs k v)

-- `k in d`
abbrev pub has_field : Fields → String → Bool
has_field end k = false
has_field (field j v fs) k = j == k || has_field fs k

-- `d.pop(k, None)`
abbrev pub remove_field : Fields → String → Fields
remove_field end k = end
remove_field (field j v fs) k =
    let rest = remove_field fs k in if j == k then rest else field j v rest

-- A change of the value under a key, made in place.
abbrev pub change_field : Fields → String → (Json → Json) → Fields
change_field end k f = end
change_field (field j v fs) k f =
    if j == k then field j (f v) fs else field j v (change_field fs k f)
