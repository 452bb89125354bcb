-- ===== src/Text.antt =====
-- Python's `str.strip` and `len`. A text is its list of code points.
pub mod Strip
use Prim.Native.Char.{Char, code}
use aihi.Prelude.{ℕ, suc, String, Bool, true, false, ◌||◌, ◌&&◌, leb, nat_eq, if◌then◌else◌}

-- `str.isspace` of one code point
abbrev pub is_space : Char → Bool
is_space ch =
    let n = code ch in
    (leb 9 n && leb n 13)
    || (leb 28 n && leb n 32)
    || nat_eq n 133
    || nat_eq n 160
    || nat_eq n 5760
    || (leb 8192 n && leb n 8202)
    || nat_eq n 8232
    || nat_eq n 8233
    || nat_eq n 8239
    || nat_eq n 8287
    || nat_eq n 12288

abbrev pub size : String → ℕ
size String.[] = 0
size (String.◌∷◌ ch s) = suc (size s)

abbrev pub skip_spaces : String → String
skip_spaces String.[] = String.[]
skip_spaces (String.◌∷◌ ch s) =
    let rest = skip_spaces s in if is_space ch then rest else String.◌∷◌ ch s

abbrev pub keep_unless_end : Char → String → String
keep_unless_end ch String.[] = if is_space ch then String.[] else String.◌∷◌ ch String.[]
keep_unless_end ch (String.◌∷◌ d s) = String.◌∷◌ ch (String.◌∷◌ d s)

abbrev pub drop_last_spaces : String → String
drop_last_spaces String.[] = String.[]
drop_last_spaces (String.◌∷◌ ch s) = keep_unless_end ch (drop_last_spaces s)

unfoldable pub strip : String → String
strip s = drop_last_spaces (skip_spaces s)

abbrev pub any_char : (Char → Bool) → String → Bool
any_char p String.[] = false
any_char p (String.◌∷◌ ch s) = p ch || any_char p s

-- `s + t`
abbrev pub text_append : String → String → String
text_append String.[] t = t
text_append (String.◌∷◌ ch s) t = String.◌∷◌ ch (text_append s t)
