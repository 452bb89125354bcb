-- ===== src/Text/Strip.antt =====
-- `strip` leaves a text alone that it has stripped.
use Prim.Native.Char.{Char}
use aihi.Prelude.{String, ◌≡◌, refl, ap, ◌∙◌, false, inl, inr, Bool-cases}
use aihi.Text.{is_space, skip_spaces, keep_unless_end, drop_last_spaces, strip}

drop_last-keep :
    (ch : Char) (s : String)
    → drop_last_spaces s ≡ s
    → drop_last_spaces (keep_unless_end ch s) ≡ keep_unless_end ch s
drop_last-keep ch String.[] h = elim (Bool-cases (is_space ch)) [ inl e ↦ rw e | inr e ↦ rw (e, e) ]
drop_last-keep ch (String.◌∷◌ d s) h = ap (keep_unless_end ch) h

drop_last_twice : (s : String) → drop_last_spaces (drop_last_spaces s) ≡ drop_last_spaces s
drop_last_twice String.[] = refl
drop_last_twice (String.◌∷◌ ch s) = drop_last-keep ch (drop_last_spaces s) (drop_last_twice s)

-- A text that starts with no space keeps its start.
skip-keep :
    (ch : Char) (s : String)
    → is_space ch ≡ false
    → skip_spaces (keep_unless_end ch s) ≡ keep_unless_end ch s
skip-keep ch String.[] e = rw (e, e)
skip-keep ch (String.◌∷◌ d s) e = rw e

skip-drop_last :
    (s : String) → skip_spaces (drop_last_spaces (skip_spaces s)) ≡ drop_last_spaces (skip_spaces s)
skip-drop_last String.[] = refl
skip-drop_last (String.◌∷◌ ch s) = elim (Bool-cases (is_space ch)) [
  | inl e ↦ rw (e, skip-drop_last s)
  | inr e ↦ rw e (skip-keep ch (drop_last_spaces s) e)
]

pub strip_twice : (s : String) → strip (strip s) ≡ strip s
unfolding strip
strip_twice s = ap drop_last_spaces (skip-drop_last s) ∙ drop_last_twice (skip_spaces s)
