-- ===== src/Coding/Framing/Roundtrip.antt =====
-- What `write_frame` writes, `read_frame` reads.
use aihi.Prelude.{
  ℕ, zero, suc, ◌+◌, ◌≡◌, ◌<◌, ◌≤◌, refl, Bool, true, false, not, ◌||◌, Option, none, some, [], ◌∷◌,
  ◌++◌, Result, ok, length, all, arith, ltb, nat_eq, ap, sym, ◌∙◌, append_assoc, length-append,
  >>=-eq-ok, raise_if, frame_error, ok-injective, subst,
}
use aihi.Json.{Fields}
use aihi.Coding.Framing.{
  Bytes, FrameResult, is_blank, codes, is_digit, is_space, max_digits, readline, read, same_bytes,
  partition, strip, drop_last_spaces, length_line, header_line, read_payload, after_line,
  read_lines, read_frame, decimal, frame_header, write_frame,
}
use aihi.Coding.Framing.Decimal.{all-append, decimal-digits, decimal_some, parse_int-decimal}

readline-newline :
    (limit : ℕ) (xs rest : Bytes)
    → all (λ b. not (nat_eq b 10)) xs ≡ true
    → length xs < limit
    → readline limit (xs ++ 10 ∷ rest) ≡ (xs ++ 10 ∷ [], rest)
unfolding readline
readline-newline zero xs rest h k = absurd (omega arith)
readline-newline (suc limit) [] rest h k = refl
readline-newline (suc limit) (x ∷ xs) rest h k = ground (arith, readline-newline limit xs rest)

read-length : (xs rest : Bytes) → read (length xs) (xs ++ rest) ≡ (xs, rest)
unfolding read
read-length [] rest = refl
read-length (x ∷ xs) rest = ground (arith, read-length xs rest)

-- Digits are no line ends, are ASCII, and are not stripped.
digits-lines : (bs : Bytes) → all is_digit bs ≡ true → all (λ b. not (nat_eq b 10)) bs ≡ true
digits-lines [] h = refl
digits-lines (b ∷ bs) h = ground (arith, digits-lines bs)

digits-ascii : (bs : Bytes) → all is_digit bs ≡ true → all (λ b. ltb b 128) bs ≡ true
digits-ascii [] h = refl
digits-ascii (b ∷ bs) h = ground (arith, digits-ascii bs)

drop_last-digits :
    (b : ℕ) (bs : Bytes)
    → all is_digit (b ∷ bs) ≡ true
    → drop_last_spaces (b ∷ bs ++ 13 ∷ 10 ∷ []) ≡ b ∷ bs
drop_last-digits b [] h = ground arith
drop_last-digits b (d ∷ bs) h = rw (drop_last-digits d bs (ground arith)) refl

strip-digits :
    (bs : Bytes) → all is_digit bs ≡ true → 0 < length bs → strip (32 ∷ bs ++ 13 ∷ 10 ∷ []) ≡ bs
unfolding strip
strip-digits [] h k = absurd (omega arith)
strip-digits (b ∷ bs) h k = rw (no_space b (ground arith), drop_last-digits b bs h)
  where
    no_space : (b : ℕ) → is_digit b ≡ true → is_space b ≡ false
    no_space b h = ground arith

length_line-decimal :
    (limit n : ℕ)
    → n ≤ limit
    → length (decimal n) ≤ max_digits
    → length_line limit none (32 ∷ decimal n ++ 13 ∷ 10 ∷ []) ≡ ok (some n)
unfolding length_line
length_line-decimal limit n h few =
    rw (
      strip-digits (decimal n) (decimal-digits n) (decimal_some n),
      parse_int-decimal n few,
      within,
    )
  where
    within : ltb limit n ≡ false
    within = ground arith

header-ascii : (n : ℕ) → all (λ b. ltb b 128) (frame_header n) ≡ true
header-ascii n =
    all-append (λ b. ltb b 128) (decimal n) (13 ∷ 10 ∷ [])
      (digits-ascii (decimal n) (decimal-digits n)) refl

header_line-frame_header :
    (limit n : ℕ)
    → n ≤ limit
    → length (decimal n) ≤ max_digits
    → header_line limit none (frame_header n) ≡ ok (some n)
unfolding header_line partition strip same_bytes
header_line-frame_header limit n h few = rw (header-ascii n) (length_line-decimal limit n h few)

-- The header without the end of its line.
abbrev line_start : ℕ → Bytes
line_start n = codes "Content-Length: " ++ decimal n ++ 13 ∷ []

frame_header-append : (n : ℕ) (rest : Bytes) → frame_header n ++ rest ≡ line_start n ++ 10 ∷ rest
frame_header-append n rest = simp append_assoc

frame_header-line_start : (n : ℕ) → line_start n ++ 10 ∷ [] ≡ frame_header n
frame_header-line_start n = simp append_assoc

line_start-lines : (n : ℕ) → all (λ b. not (nat_eq b 10)) (line_start n) ≡ true
line_start-lines n =
    all-append (λ b. not (nat_eq b 10)) (decimal n) (13 ∷ [])
      (digits-lines (decimal n) (decimal-digits n)) refl

length-frame_header : (n : ℕ) → length (frame_header n) ≡ length (line_start n) + 1
length-frame_header n =
    sym (ap length (frame_header-line_start n)) ∙ length-append (line_start n) (10 ∷ [])

readline-frame_header :
    (limit n : ℕ) (rest : Bytes)
    → length (frame_header n) ≤ limit
    → readline (limit + 1) (frame_header n ++ rest) ≡ (frame_header n, rest)
readline-frame_header limit n rest h =
    ap (readline (limit + 1)) (frame_header-append n rest)
    ∙ readline-newline (limit + 1) (line_start n) rest (line_start-lines n)
        (omega (arith, length-frame_header n))
    ∙ ap (λ line. (line, rest)) (frame_header-line_start n)

after_line_header :
    (limit max_header : ℕ) (known now : Option ℕ) (saw : Bool) (b : ℕ) (bs rest : Bytes)
    (again : Option ℕ → FrameResult)
    → length (b ∷ bs) ≤ max_header
    → is_blank (b ∷ bs) ≡ false
    → header_line limit known (b ∷ bs) ≡ ok now
    → after_line limit max_header known saw (b ∷ bs) rest again ≡ again now
unfolding after_line
after_line_header limit max_header known now saw b bs rest again short more e =
    rw (fits, after_line, more, e)
  where
    fits : ltb max_header (length (b ∷ bs)) ≡ false
    fits = ground arith

read_lines-header :
    (fuel limit max_header n : ℕ) (rest : Bytes)
    → length (frame_header n) ≤ max_header
    → n ≤ limit
    → length (decimal n) ≤ max_digits
    → read_lines (suc fuel) limit max_header none false (frame_header n ++ rest)
      ≡ read_lines fuel limit max_header (some n) true rest
unfolding read_lines
read_lines-header fuel limit max_header n rest short h few =
    rw (readline-frame_header max_header n rest short) (
      after_line_header limit max_header none (some n) false _ _ rest _ short not_blank
        (header_line-frame_header limit n h few))
  where
    not_blank : is_blank (frame_header n) ≡ false
    not_blank = unfold same_bytes in refl

read_payload-length :
    (body rest : Bytes) → read_payload (some (length body)) (body ++ rest) ≡ ok (some body, rest)
unfolding read_payload
read_payload-length body rest = rw (read-length body rest) (ground arith)

after_line_blank :
    (limit max_header : ℕ) (known : Option ℕ) (saw : Bool) (rest : Bytes)
    (again : Option ℕ → FrameResult)
    → 1 < max_header
    → after_line limit max_header known saw (13 ∷ 10 ∷ []) rest again
      ≡ some (read_payload known rest)
unfolding after_line same_bytes
after_line_blank limit max_header known saw rest again room = rw (fits, after_line)
  where
    fits : ltb max_header 2 ≡ false
    fits = ground arith

read_lines-blank :
    (fuel limit max_header : ℕ) (body rest : Bytes)
    → 1 < max_header
    → read_lines (suc fuel) limit max_header (some (length body)) true (13 ∷ 10 ∷ body ++ rest)
      ≡ some (ok (some body, rest))
unfolding read_lines
read_lines-blank fuel limit max_header body rest room =
    rw (readline-newline (max_header + 1) (13 ∷ []) (body ++ rest) refl (omega arith)) (
      after_line_blank limit max_header (some (length body)) true (body ++ rest) _ room
      ∙ ap some (read_payload-length body rest))

write_frame-eq :
    (encode : Fields → Result Bytes) (limit : ℕ) (payload : Fields) (body frame : Bytes)
    → encode payload ≡ ok body
    → write_frame encode limit payload ≡ ok frame
    → (frame ≡ frame_header (length body) ++ 13 ∷ 10 ∷ body) × (length body ≤ limit)
unfolding write_frame
write_frame-eq encode limit payload body frame e h =
    let (u, guard, rest) =
      >>=-eq-ok (raise_if (ltb limit (length body)) frame_error) _ (rw (e, write_frame) at h) in
    (sym (ok-injective rest), ground (arith, guard))

-- A frame that `write_frame` writes is read back as the payload's text, and what follows it on the
-- stream is left there. The limits must be positive and leave room for the header, and the length
-- must have no more digits than Python reads.
pub read_frame-write_frame :
    (encode : Fields → Result Bytes) (max_frame_bytes max_header_bytes : ℕ) (payload : Fields)
    (body frame rest : Bytes)
    → 0 < max_frame_bytes
    → encode payload ≡ ok body
    → write_frame encode max_frame_bytes payload ≡ ok frame
    → length (frame_header (length body)) ≤ max_header_bytes
    → length (decimal (length body)) ≤ max_digits
    → read_frame max_frame_bytes max_header_bytes (frame ++ rest) ≡ some (ok (some body, rest))
unfolding read_frame
read_frame-write_frame encode mf mh payload body frame rest positive e h short few =
    let n = length body in
    let (written, fits) = write_frame-eq encode mf payload body frame e h in
    let room : 1 < mh = omega (arith, length-frame_header n) in
    let stream : frame ++ rest ≡ frame_header n ++ (13 ∷ 10 ∷ body ++ rest) =
      ap (λ f. f ++ rest) written ∙ append_assoc (frame_header n) (13 ∷ 10 ∷ body) rest in
    subst (λ s. read_frame mf mh s ≡ some (ok (some body, rest))) (sym stream)
      (rw limits (
        read_lines-header _ mf mh n (13 ∷ 10 ∷ body ++ rest) short fits few
        ∙ read_lines-blank _ mf mh body rest room))
  where
    limits : (nat_eq mf 0 || nat_eq mh 0) ≡ false
    limits = ground (arith, length-frame_header (length body))
