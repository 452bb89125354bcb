-- ===== src/Coding/Paths.antt =====
-- permissions.py: the check of `CodeAgentPolicy` for sensitive paths. The absolute form of a path,
-- that of `pathlib`, is the argument `resolved`, from the workspace and the path as it was asked
-- for; it raises what `expanduser` or `resolve` raise. `fnmatch` is written out for patterns of which only the asterisk is special.
use Prim.Native.Char.{Char, code}
use aihi.Prelude.{
  Result, ok, ◌>>=◌, String, Bool, true, false, not, ◌&&◌, ◌||◌, List, [], ◌∷◌, ◌++◌, ◌==◌, any,
  contains, nat_eq, if◌then◌else◌,
}
use aihi.Json.{Json, Fields, str, get, list_of, arr}

abbrev pub sensitive_patterns : List String
sensitive_patterns =
    "*/.ssh/*" ∷ "*/.aws/credentials" ∷ "*/.config/gcloud/*" ∷ "*/.azure/*" ∷ "*/.gnupg/*"
    ∷ "*/.docker/config.json" ∷ "*/.kube/config" ∷ []

abbrev pub sensitive_fragments : List String
sensitive_fragments =
    "/.ssh/" ∷ "/.aws/credentials" ∷ "/.config/gcloud/" ∷ "/.azure/" ∷ "/.gnupg/"
    ∷ "/.docker/config.json" ∷ "/.kube/config" ∷ ".ssh/" ∷ ".aws/credentials" ∷ ".config/gcloud/"
    ∷ ".azure/" ∷ ".gnupg/" ∷ ".docker/config.json" ∷ ".kube/config" ∷ []

abbrev pub sensitive_components : List String
sensitive_components = ".ssh" ∷ ".aws" ∷ ".config" ∷ ".azure" ∷ ".gnupg" ∷ ".docker" ∷ ".kube" ∷ []

-- `fnmatch`: a test of some end of the text, and of the text after its first character
abbrev pub at_some_end : (String → Bool) → String → Bool
at_some_end rest String.[] = rest String.[]
at_some_end rest (String.◌∷◌ c s) = rest (String.◌∷◌ c s) || at_some_end rest s

abbrev pub after_char : Char → (String → Bool) → String → Bool
after_char p rest String.[] = false
after_char p rest (String.◌∷◌ c s) = nat_eq (code p) (code c) && rest s

unfoldable pub fnmatch : String → String → Bool
fnmatch String.[] s = s == ""
fnmatch (String.◌∷◌ p ps) s =
    let rest = fnmatch ps in
    if nat_eq (code p) b'*' then at_some_end rest s else after_char p rest s

-- `fragment in text`
abbrev pub starts_with : String → String → Bool
starts_with String.[] s = true
starts_with (String.◌∷◌ p ps) s = after_char p (starts_with ps) s

unfoldable pub in_text : String → String → Bool
in_text fragment s = at_some_end (starts_with fragment) s

-- `replace("\\", "/")`
unfoldable pub with_slashes : String → String
with_slashes String.[] = String.[]
with_slashes (String.◌∷◌ c s) = String.◌∷◌ (if nat_eq (code c) 92 then "/" else c) (with_slashes s)

-- `split("/")`, which gives one part at least: the first, and those behind it
abbrev pub split_step : Char → String × List String → String × List String
split_step c (part, parts) =
    if nat_eq (code c) 47 then (String.[], part ∷ parts) else (String.◌∷◌ c part, parts)

unfoldable pub split_slash : String → String × List String
split_slash String.[] = (String.[], [])
split_slash (String.◌∷◌ c s) = split_step c (split_slash s)

unfoldable pub components : String → List String
components s = let (part, parts) = split_slash s in part ∷ parts

abbrev pub text_at : Fields → String → List String
text_at input key = elim (get input key) [ str s ↦ s ∷ [] | _ ↦ [] ]

abbrev pub texts_of : List Json → List String
texts_of [] = []
texts_of (str s ∷ vs) = s ∷ texts_of vs
texts_of (v ∷ vs) = texts_of vs

unfoldable pub candidates : Fields → List String
candidates input =
    text_at input "path"
    ++ text_at input "file_path"
    ++ elim (get input "argv") [ arr vs ↦ texts_of (list_of vs) | _ ↦ [] ]
    ++ text_at input "command"

unfoldable pub is_sensitive : (String → String → Result String) → String → String → Result Bool
is_sensitive resolved workspace candidate = do
  let token = with_slashes candidate
  normalized ← resolved workspace candidate
  ok (
      any (λ pattern. fnmatch pattern normalized) sensitive_patterns
      || any (λ fragment. in_text fragment token) sensitive_fragments
      || any (λ item. not (item == "") && contains item sensitive_components) (components token))

-- The loop over the candidates, which stops at the first that is sensitive.
unfoldable pub any_sensitive :
    (String → String → Result String) → String → List String → Result Bool
unfolding is_sensitive
any_sensitive resolved workspace [] = ok false
any_sensitive resolved workspace (c ∷ cs) =
    let rest = any_sensitive resolved workspace cs in
    is_sensitive resolved workspace c >>= λ hit. if hit then ok true else rest

-- `_sensitive_path_decision`, which denies or has nothing to say
unfoldable pub sensitive_path : (String → String → Result String) → Fields → String → Result Bool
unfolding any_sensitive
sensitive_path resolved input workspace = any_sensitive resolved workspace (candidates input)
