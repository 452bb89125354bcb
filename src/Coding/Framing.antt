-- ===== src/Coding/Framing.antt =====
-- framing.py: frames with a Content-Length header on a byte stream. A byte is a number below 256,
-- and a stream that is read is the list of its bytes up to its end. `int()` of an ASCII text is
-- written out, with Python's limit on the number of digits.
pub mod Ends
pub mod Decimal
pub mod Roundtrip
use Prim.Native.Char.{code}
use aihi.Prelude.{
  ℕ, zero, suc, ◌+◌, ◌-◌, ◌*◌, String, Bool, true, false, not, ◌&&◌, ◌||◌, Option, none, some, List,
  [], ◌∷◌, ◌++◌, map, length, filter, all, Result, ok, err, frame_error, value_error, ◌>>=◌, ◌>>◌,
  raise_if, or_raise, is_some, ltb, leb, nat_eq, if◌then◌else◌,
}
use Prim.Native.Nat.{◌/◌, ◌%◌}
use aihi.Json.{ℤ, pos, negsuc, Fields}

abbrev pub Bytes : Type 0
Bytes = List ℕ

abbrev pub codes : String → Bytes
codes String.[] = []
codes (String.◌∷◌ c s) = code c ∷ codes s

abbrev pub default_max_frame_bytes : ℕ
default_max_frame_bytes = 4 * 1024 * 1024

abbrev pub default_max_header_bytes : ℕ
default_max_header_bytes = 16 * 1024

-- `stream.readline(limit)` and `stream.read(count)`: what is read, and what is left
unfoldable pub readline : ℕ → Bytes → Bytes × Bytes
readline zero stream = ([], stream)
readline (suc limit) [] = ([], [])
readline (suc limit) (b ∷ stream) =
    let (line, rest) = readline limit stream in
    if nat_eq b 10 then (b ∷ [], stream) else (b ∷ line, rest)

unfoldable pub read : ℕ → Bytes → Bytes × Bytes
read zero stream = ([], stream)
read (suc count) [] = ([], [])
read (suc count) (b ∷ stream) = let (bytes, rest) = read count stream in (b ∷ bytes, rest)

unfoldable pub same_bytes : Bytes → Bytes → Bool
same_bytes [] [] = true
same_bytes (a ∷ xs) (b ∷ ys) = nat_eq a b && same_bytes xs ys
same_bytes _ _ = false

-- `partition(":")`: what stands before and behind the first colon, if there is one
unfoldable pub partition : Bytes → Option (Bytes × Bytes)
partition [] = none
partition (b ∷ bs) =
    let rest = partition bs in
    if nat_eq b 58
    then some ([], bs)
    else elim rest [ none ↦ none | some (name, value) ↦ some (b ∷ name, value) ]

-- `casefold`, `strip` and `int` on ASCII
abbrev pub casefold : ℕ → ℕ
casefold b = if leb 65 b && leb b 90 then b + 32 else b

abbrev pub is_space : ℕ → Bool
is_space b = (leb 9 b && leb b 13) || (leb 28 b && leb b 32)

abbrev pub skip_spaces : Bytes → Bytes
skip_spaces [] = []
skip_spaces (b ∷ bs) = let rest = skip_spaces bs in if is_space b then rest else b ∷ bs

abbrev pub keep_unless_end : ℕ → Bytes → Bytes
keep_unless_end b [] = if is_space b then [] else b ∷ []
keep_unless_end b (d ∷ bs) = b ∷ d ∷ bs

abbrev pub drop_last_spaces : Bytes → Bytes
drop_last_spaces [] = []
drop_last_spaces (b ∷ bs) = keep_unless_end b (drop_last_spaces bs)

unfoldable pub strip : Bytes → Bytes
strip bs = drop_last_spaces (skip_spaces bs)

abbrev pub is_digit : ℕ → Bool
is_digit b = leb 48 b && leb b 57

-- Digits with single underscores between them; `after` says that a digit stands before.
unfoldable pub digits_value : Bool → ℕ → Bytes → Option ℕ
digits_value after acc [] = if after then some acc else none
digits_value after acc (b ∷ bs) =
    let digit = digits_value true (acc * 10 + (b - 48)) bs in
    let underscore = digits_value false acc bs in
    if is_digit b then digit else if nat_eq b 95 && after then underscore else none

abbrev pub negated : ℕ → ℤ
negated zero = pos zero
negated (suc n) = negsuc n

abbrev pub max_digits : ℕ
max_digits = 4300

abbrev pub unsigned : Bytes → Option ℕ
unsigned bs = if ltb max_digits (length (filter is_digit bs)) then none else digits_value false 0 bs

abbrev pub signed : Bytes → Option ℤ
signed [] = none
signed (b ∷ bs) =
    if nat_eq b 45
    then elim (unsigned bs) [ none ↦ none | some n ↦ some (negated n) ]
    else if nat_eq b 43
    then elim (unsigned bs) [ none ↦ none | some n ↦ some (pos n) ]
    else elim (unsigned (b ∷ bs)) [ none ↦ none | some n ↦ some (pos n) ]

unfoldable pub parse_int : Bytes → Option ℤ
parse_int bs = signed bs

-- `0 <= n <= limit`
abbrev pub within_limit : ℕ → ℤ → Result ℕ
within_limit limit (pos n) = if ltb limit n then err frame_error else ok n
within_limit limit (negsuc n) = err frame_error

-- The value of a Content-Length header, behind what is known of the length.
unfoldable pub length_line : ℕ → Option ℕ → Bytes → Result (Option ℕ)
length_line max_frame_bytes content_length value = do
  raise_if (is_some content_length) frame_error
  parsed ← or_raise (parse_int (strip value)) frame_error
  n ← within_limit max_frame_bytes parsed
  ok (some n)

-- A header line that is not blank: the content length that is known behind it.
unfoldable pub header_line : ℕ → Option ℕ → Bytes → Result (Option ℕ)
header_line max_frame_bytes content_length line = do
  raise_if (not (all (λ b. ltb b 128) line)) frame_error
  (name, value) ← or_raise (partition line) frame_error
  elim (same_bytes (strip (map casefold name)) (codes "content-length")) [
    | false ↦ ok content_length
    | true ↦ length_line max_frame_bytes content_length value
  ]

unfoldable pub read_payload : Option ℕ → Bytes → Result (Option Bytes × Bytes)
unfolding read
read_payload none stream = err frame_error
read_payload (some n) stream =
    let (payload, rest) = read n stream in
    if nat_eq (length payload) n then ok (some payload, rest) else err frame_error

abbrev pub is_blank : Bytes → Bool
is_blank line = same_bytes line (13 ∷ 10 ∷ []) || same_bytes line (10 ∷ [])

abbrev pub FrameResult : Type 0
FrameResult = Option (Result (Option Bytes × Bytes))

-- The body of the `while` loop behind `readline`; `again` is the next round.
unfoldable pub after_line :
    ℕ → ℕ → Option ℕ → Bool → Bytes → Bytes → (Option ℕ → FrameResult) → FrameResult
after_line max_frame_bytes max_header_bytes content_length saw_header [] rest again =
    some (if saw_header then err frame_error else ok (none, rest))
after_line max_frame_bytes max_header_bytes content_length saw_header (b ∷ bs) rest again =
    elim (ltb max_header_bytes (length (b ∷ bs))) [
      | true ↦ some (err frame_error)
      | false ↦ elim (is_blank (b ∷ bs)) [
        | true ↦ some (read_payload content_length rest)
        | false ↦ elim (header_line max_frame_bytes content_length (b ∷ bs)) [
          | err x ↦ some (err x)
          | ok length_now ↦ again length_now
        ]
      ]
    ]

-- The `while` loop, with fuel; `none` says that it ran out. The result of the call that it ends
-- in is the payload, or none at the end of the stream, with what is left of the stream.
unfoldable pub read_lines : ℕ → ℕ → ℕ → Option ℕ → Bool → Bytes → FrameResult
read_lines zero max_frame_bytes max_header_bytes content_length saw_header stream = none
read_lines (suc fuel) max_frame_bytes max_header_bytes content_length saw_header stream =
    let (line, rest) = readline (max_header_bytes + 1) stream in
    after_line max_frame_bytes max_header_bytes content_length saw_header line rest
      (λ length_now. read_lines fuel max_frame_bytes max_header_bytes length_now true rest)

-- Each round but the last reads a byte at least.
unfoldable pub read_frame : ℕ → ℕ → Bytes → FrameResult
read_frame max_frame_bytes max_header_bytes stream =
    if nat_eq max_frame_bytes 0 || nat_eq max_header_bytes 0
    then some (err value_error)
    else read_lines (suc (length stream)) max_frame_bytes max_header_bytes none false stream

-- `str(n)` of a natural number; one more round than the number is enough
unfoldable pub decimal_rounds : ℕ → ℕ → Bytes
decimal_rounds zero n = []
decimal_rounds (suc fuel) n =
    let high = decimal_rounds fuel (n / 10) in
    if ltb n 10 then (48 + n) ∷ [] else high ++ (48 + n % 10) ∷ []

unfoldable pub decimal : ℕ → Bytes
unfolding decimal_rounds
decimal n = decimal_rounds (suc n) n

abbrev pub frame_header : ℕ → Bytes
frame_header n = codes "Content-Length: " ++ decimal n ++ 13 ∷ 10 ∷ []

-- The bytes that `write_frame` writes; `encode` is the JSON text of the payload in UTF-8.
unfoldable pub write_frame : (Fields → Result Bytes) → ℕ → Fields → Result Bytes
unfolding decimal
write_frame encode max_frame_bytes payload = do
  body ← encode payload
  raise_if (ltb max_frame_bytes (length body)) frame_error
  ok (frame_header (length body) ++ 13 ∷ 10 ∷ body)
