-- ===== src/Agents/Act.antt =====
-- Calls that change a state step by step: when one raises, the steps before it stay done.
pub mod Steps
use aihi.Prelude.{Result, ok, err, String, List, [], ◌∷◌}

abbrev pub Act : Type 0 → Type 0 → Type 0
Act S A = S → Result A × S

abbrev pub follow : {S A B : Type 0} → Result A × S → (A → Act S B) → Result B × S
follow (ok a, s) f = f a s
follow (err x, s) f = (err x, s)

infixl 5 ◌>>=◌ ◌>>◌
abbrev pub ◌>>=◌ : {S A B : Type 0} → Act S A → (A → Act S B) → Act S B
m >>= f = λ s. follow (m s) f

abbrev pub ◌>>◌ : {S B : Type 0} → Act S (Unit {0}) → Act S B → Act S B
m >> k = m >>= λ _. k

abbrev pub done : {S : Type 0} → Act S (Unit {0})
done s = (ok tt, s)

-- A call that reads.
abbrev pub kept : {S A : Type 0} → Result A → S → Result A × S
kept r s = (r, s)

abbrev pub reading : {S A : Type 0} → (S → Result A) → Act S A
reading f s = kept (f s) s

-- A call that changes nothing when it raises.
abbrev pub or_kept : {S A : Type 0} → Result (A × S) → S → Result A × S
or_kept (ok (a, t)) s = (ok a, t)
or_kept (err x) s = (err x, s)

abbrev pub atomic : {S A : Type 0} → (S → Result (A × S)) → Act S A
atomic f s = or_kept (f s) s

-- `for x in xs: body(x)`
abbrev pub each : {S : Type 0} → (String → Act S (Unit {0})) → List String → Act S (Unit {0})
each body [] = done
each body (x ∷ xs) = do body x; each body xs
