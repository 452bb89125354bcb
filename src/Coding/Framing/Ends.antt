-- ===== src/Coding/Framing/Ends.antt =====
-- Reading a frame ends, and within its limits.
use aihi.Prelude.{
  ℕ, zero, suc, ◌+◌, ◌≡◌, ◌<◌, ◌≤◌, refl, Bool, true, false, Option, none, some, [], ◌∷◌, Result,
  ok, err, frame_error, value_error, raise_if, or_raise, is_some, >>=-eq-ok, ok-ne-err,
  some-injective, all, map, not, length, arith, Bool-cases, Result-cases, inl, inr, ltb, ◌||◌,
  nat_eq, ok-injective, ap, sym, subst,
}
use aihi.Json.{ℤ, pos, negsuc}
use aihi.Coding.Framing.{
  length_line, partition, strip, same_bytes, codes, casefold, parse_int, within_limit, Bytes,
  FrameResult, readline, read, is_blank, header_line, read_payload, after_line, read_lines,
  read_frame,
}

readline-length :
    (limit : ℕ) (stream : Bytes)
    → length (readline limit stream).0 + length (readline limit stream).1 ≡ length stream
unfolding readline
readline-length zero stream = omega arith
readline-length (suc limit) [] = omega arith
readline-length (suc limit) (b ∷ stream) = ground (arith, readline-length limit stream)

-- A loop body ends if its next round does, which starts with less to read.
after_line-ends :
    (max_frame_bytes max_header_bytes : ℕ) (content_length : Option ℕ) (saw_header : Bool)
    (line rest : Bytes) (again : Option ℕ → FrameResult)
    → ((now : Option ℕ)
        → 0 < length line
        → (r : Result (Option Bytes × Bytes)) × (again now ≡ some r))
    → (r : Result (Option Bytes × Bytes)) × (after_line max_frame_bytes max_header_bytes
          content_length saw_header line rest again
        ≡ some r)
unfolding after_line
after_line-ends mf mh known saw [] rest again next = (_, refl)
after_line-ends mf mh known saw (b ∷ bs) rest again next =
    elim (Bool-cases (ltb mh (length (b ∷ bs)))) [
      | inl long ↦ (err frame_error, rw (long, after_line))
      | inr short ↦ elim (Bool-cases (is_blank (b ∷ bs))) [
        | inl blank ↦ (read_payload known rest, rw (short, after_line, blank))
        | inr more ↦ elim (Result-cases (header_line mf known (b ∷ bs))) [
          | inl (now, e) ↦
              let (r, q) = next now (omega arith) in (r, rw (short, after_line, more, e) q)
          | inr (x, e) ↦ (err x, rw (short, after_line, more, e))
        ]
      ]
    ]

read_lines-ends :
    (fuel max_frame_bytes max_header_bytes : ℕ) (content_length : Option ℕ) (saw_header : Bool)
    (stream : Bytes)
    → length stream < fuel
    → (r : Result (Option Bytes × Bytes)) × (read_lines fuel max_frame_bytes max_header_bytes
          content_length saw_header stream
        ≡ some r)
unfolding read_lines
read_lines-ends zero mf mh known saw stream h = absurd (omega arith)
read_lines-ends (suc fuel) mf mh known saw stream h =
    after_line-ends mf mh known saw (readline (mh + 1) stream).0 (readline (mh + 1) stream).1 _
      (λ now some_line.
        read_lines-ends fuel mf mh now true (readline (mh + 1) stream).1
          (omega (arith, readline-length (mh + 1) stream)))

-- Reading a frame ends on every stream, with a frame, the end of the stream or an error.
pub read_frame-ends :
    (max_frame_bytes max_header_bytes : ℕ) (stream : Bytes)
    → (r : Result (Option Bytes × Bytes)) × (read_frame max_frame_bytes max_header_bytes stream
        ≡ some r)
unfolding read_frame
read_frame-ends mf mh stream = elim (Bool-cases (nat_eq mf 0 || nat_eq mh 0)) [
  | inl e ↦ (err value_error, rw e)
  | inr e ↦
      let (r, q) = read_lines-ends (suc (length stream)) mf mh none false stream (omega arith) in
      (r, rw e q)
]

-- A content length that is known is within the limit.
abbrev IsWithin : ℕ → Option ℕ → Type 0
IsWithin limit none = Unit
IsWithin limit (some n) = n ≤ limit

within_limit-ok : (limit : ℕ) (i : ℤ) (n : ℕ) → within_limit limit i ≡ ok n → n ≤ limit
within_limit-ok limit (pos m) n h = ground (arith, ok-injective {a = m} {b = n})
within_limit-ok limit (negsuc m) n h = cc

length_line-IsWithin :
    (limit : ℕ) (known now : Option ℕ) (value : Bytes)
    → length_line limit known value ≡ ok now
    → IsWithin limit now
unfolding length_line
length_line-IsWithin limit known now value h =
    let (u, first, h1) = >>=-eq-ok (raise_if (is_some known) frame_error) _ h in
    let (parsed, read_int, h2) = >>=-eq-ok (or_raise (parse_int (strip value)) frame_error) _ h1 in
    let (n, e, h3) = >>=-eq-ok (within_limit limit parsed) _ h2 in
    subst (IsWithin limit) (ok-injective h3) (within_limit-ok limit parsed n e)

header_line-IsWithin :
    (limit : ℕ) (known now : Option ℕ) (line : Bytes)
    → header_line limit known line ≡ ok now
    → IsWithin limit known
    → IsWithin limit now
unfolding header_line
header_line-IsWithin limit known now line h w =
    let (u, ascii, h1) = >>=-eq-ok (raise_if (not (all (λ b. ltb b 128) line)) frame_error) _ h in
    let ((name, value), colon, h2) = >>=-eq-ok (or_raise (partition line) frame_error) _ h1 in
    elim (Bool-cases (same_bytes (strip (map casefold name)) (codes "content-length"))) [
      | inl e ↦ length_line-IsWithin limit known now value (rw e at h2)
      | inr e ↦ subst (IsWithin limit) (ok-injective (rw e at h2)) w
    ]

-- A payload that was read has the length that was asked for, and what is left follows it.
module _ (limit : ℕ) (payload rest : Bytes) where
  read_payload-IsWithin :
      (known : Option ℕ) (stream : Bytes)
      → read_payload known stream ≡ ok (some payload, rest)
      → IsWithin limit known
      → length payload ≤ limit
  unfolding read_payload
  read_payload-IsWithin none stream h w = cc
  read_payload-IsWithin (some n) stream h w =
      elim (Bool-cases (nat_eq (length (read n stream).0) n)) [
        | inl e ↦
            let q : some (read n stream).0 ≡ some payload =
              ap (λ r. r.0) (ok-injective (rw e at h)) in
            ground (arith, q)
        | inr e ↦ absurd (ok-ne-err (sym (rw e at h)))
      ]

  after_line-IsWithin :
      (max_header_bytes : ℕ) (known : Option ℕ) (saw_header : Bool) (line stream : Bytes)
      (again : Option ℕ → FrameResult)
      → ((now : Option ℕ)
          → again now ≡ some (ok (some payload, rest))
          → IsWithin limit now
          → length payload ≤ limit)
      → after_line limit max_header_bytes known saw_header line stream again
        ≡ some (ok (some payload, rest))
      → IsWithin limit known
      → length payload ≤ limit
  unfolding after_line
  after_line-IsWithin mh known saw [] stream again next h w = ground arith
  after_line-IsWithin mh known saw (b ∷ bs) stream again next h w =
      elim (Bool-cases (ltb mh (length (b ∷ bs)))) [
        | inl long ↦ absurd (ok-ne-err (sym (some-injective (rw (long, after_line) at h))))
        | inr short ↦ elim (Bool-cases (is_blank (b ∷ bs))) [
          | inl blank ↦
              read_payload-IsWithin known stream
                (some-injective (rw (short, after_line, blank) at h)) w
          | inr more ↦ elim (Result-cases (header_line limit known (b ∷ bs))) [
            | inl (now, e) ↦
                next now (rw (short, after_line, more, e) at h)
                  (header_line-IsWithin limit known now (b ∷ bs) e w)
            | inr (x, e) ↦
                absurd (ok-ne-err (sym (some-injective (rw (short, after_line, more, e) at h))))
          ]
        ]
      ]

  read_lines-IsWithin :
      (fuel max_header_bytes : ℕ) (known : Option ℕ) (saw_header : Bool) (stream : Bytes)
      → read_lines fuel limit max_header_bytes known saw_header stream
        ≡ some (ok (some payload, rest))
      → IsWithin limit known
      → length payload ≤ limit
  unfolding read_lines
  read_lines-IsWithin zero mh known saw stream h w = cc
  read_lines-IsWithin (suc fuel) mh known saw stream h w =
      after_line-IsWithin mh known saw (readline (mh + 1) stream).0 (readline (mh + 1) stream).1 _
        (λ now. read_lines-IsWithin fuel mh now true (readline (mh + 1) stream).1) h w

-- A payload that is read is never longer than the limit on frames, whatever its header says.
pub read_frame_bound :
    (max_frame_bytes max_header_bytes : ℕ) (stream payload rest : Bytes)
    → read_frame max_frame_bytes max_header_bytes stream ≡ some (ok (some payload, rest))
    → length payload ≤ max_frame_bytes
unfolding read_frame
read_frame_bound mf mh stream payload rest h = elim (Bool-cases (nat_eq mf 0 || nat_eq mh 0)) [
  | inl e ↦ absurd (ok-ne-err (sym (some-injective (rw e at h))))
  | inr e ↦
      read_lines-IsWithin mf payload rest (suc (length stream)) mh none false stream (rw e at h) tt
]
