-- ===== src/Internal/TestStream/Full.antt =====
-- Short reads of a canned stream make no difference to a caller that asks for all the bytes it wants.
use native.Mathlib.Decide.{dec_le}
use hislip.Prelude.{
  ℕ, zero, suc, ◌-◌, ◌≤◌, ◌<◌, ◌≡◌, refl, ap, ◌∙◌, sym, inl, inr, false, none, some, [], ◌∷◌, ◌++◌,
  append_assoc, append-nil, Bytes, length, take, drop, length-take, length-drop, take-append-drop,
  take-take-drop, drop-drop, leb, ◌==◌, if◌then◌else◌, Bool-cases, arith,
}
use hislip.Errors.{eof, Result, ok, err}
use hislip.Protocol.Stream.{Stream, read_full, short_read, write, close}
use hislip.Internal.TestStream.{
  Canned, canned_read, canned_write, capped, read_full_loop, read_more, canned_close,
}

-- What io.ReadFull should leave of an open stream with no error to give.
abbrev filled : ℕ → Bytes → Canned → Result Bytes × Canned
filled n have c =
    if leb n (length c.input)
    then (ok (have ++ take n c.input), record c { input = drop n c.input })
    else (err (short_read eof (have ++ c.input)), record c { input = [] })

record IsReadable (c : Canned) : Type 0 where
  is_open : c.closed ≡ false
  no_error : c.read_err ≡ none

-- One read that gives bytes.
read-some :
    (c : Canned) (n : ℕ)
    → IsReadable c
    → (length c.input == 0) ≡ false
    → canned_read c n ≡ (
      (take (capped c.max_read n) c.input, none),
      record c { input = drop (capped c.max_read n) c.input },
    )
unfolding canned_read
read-some c n r more = ground arith

read-end :
    (c : Canned) (n : ℕ) → IsReadable c → c.input ≡ [] → canned_read c n ≡ (([], some eof), c)
unfolding canned_read
read-end c n r e = ground arith

-- The buffer that a read gets is within what is wanted, and is not empty.
capped_bounds : (m n : ℕ) → (capped m (suc n) ≤ suc n) × (0 < capped m (suc n))
capped_bounds m n = ground arith

filled-enough :
    (n : ℕ) (have : Bytes) (c : Canned)
    → n ≤ length c.input
    → filled n have c ≡ (ok (have ++ take n c.input), record c { input = drop n c.input })
filled-enough n have c h = ground arith

filled-few :
    (n : ℕ) (have : Bytes) (c : Canned)
    → length c.input < n
    → filled n have c ≡ (err (short_read eof (have ++ c.input)), record c { input = [] })
filled-few n have c h = ground arith

-- A read of `k` bytes, and then the rest.
step-enough :
    (n k : ℕ) (have : Bytes) (c : Canned)
    → k ≤ n
    → n ≤ length c.input
    → filled
        (n - length (take k c.input))
        (have ++ take k c.input)
        (record c { input = drop k c.input })
      ≡ filled n have c
step-enough n k have c h enough =
    let xs = c.input in
    let k_read : length (take k xs) ≡ k = omega (arith, length-take k xs) in
    ap (λ m. filled (n - m) (have ++ take k xs) (record c { input = drop k xs })) k_read
    ∙ filled-enough (n - k) (have ++ take k xs) (record c { input = drop k xs })
        (omega (arith, length-drop k xs))
    ∙ ap (λ ys. (ok ys, record c { input = drop (n - k) (drop k xs) }))
        (append_assoc have (take k xs) (take (n - k) (drop k xs))
          ∙ ap (λ ys. have ++ ys) (take-take-drop k n xs h))
    ∙ ap (λ ys. (ok (have ++ take n xs), record c { input = ys })) (drop-drop k n xs h)
    ∙ sym (filled-enough n have c enough)

step-few :
    (n k : ℕ) (have : Bytes) (c : Canned)
    → k ≤ n
    → length c.input < n
    → filled
        (n - length (take k c.input))
        (have ++ take k c.input)
        (record c { input = drop k c.input })
      ≡ filled n have c
step-few n k have c h few =
    let xs = c.input in
    filled-few (n - length (take k xs)) (have ++ take k xs) (record c { input = drop k xs })
      (omega (arith, length-drop k xs, length-take k xs))
    ∙ ap (λ ys. (err (short_read eof ys), record c { input = [] }))
        (append_assoc have (take k xs) (drop k xs) ∙ ap (λ ys. have ++ ys) (take-append-drop k xs))
    ∙ sym (filled-few n have c few)

filled-step :
    (n k : ℕ) (have : Bytes) (c : Canned)
    → k ≤ n
    → filled
        (n - length (take k c.input))
        (have ++ take k c.input)
        (record c { input = drop k c.input })
      ≡ filled n have c
filled-step n k have c h = elim (dec_le n (length c.input)) [
  | yes enough ↦ step-enough n k have c h enough
  | no few ↦ step-few n k have c h (omega arith)
]

no_bytes : (xs : Bytes) → length xs ≡ 0 → xs ≡ []
no_bytes [] h = refl
no_bytes (x ∷ xs) h = absurd (omega arith)

ended-filled :
    (n : ℕ) (have : Bytes) (c : Canned) (go : ℕ → Bytes → Canned → Result Bytes × Canned)
    → c.input ≡ []
    → read_more (suc n) have (([], some eof), c) go ≡ filled (suc n) have c
ended-filled n have c go e = ground (arith)

some_taken :
    (k n fuel : ℕ) (xs : Bytes)
    → 0 < k
    → (length xs == 0) ≡ false
    → suc n ≤ suc fuel
    → suc n - length (take k xs) ≤ fuel
some_taken k n fuel xs pos more h = ground (arith, length-take k xs)

loop-filled :
    (fuel n : ℕ) (have : Bytes) (c : Canned)
    → IsReadable c
    → n ≤ fuel
    → read_full_loop fuel n have c ≡ filled n have c
unfolding read_full_loop
loop-filled fuel zero have c r h =
    sym (filled-enough zero have c (omega arith) ∙ ap (λ ys. (ok ys, c)) (append-nil have))
loop-filled zero (suc n) have c r h = absurd (omega arith)
loop-filled (suc fuel) (suc n) have c r h = elim (Bool-cases (length c.input == 0)) [
  | inl ended ↦
      let go = λ (m : ℕ) (got : Bytes) (c' : Canned). read_full_loop fuel m got c' in
      let none_left = no_bytes c.input (ground arith) in
      ap (λ x. read_more (suc n) have x go) (read-end c (suc n) r none_left)
      ∙ ended-filled n have c go none_left
  | inr more ↦
      let k = capped c.max_read (suc n) in
      let k_bounds = capped_bounds c.max_read n in
      let c' : Canned = record c { input = drop k c.input } in
      ap (λ x. read_more (suc n) have x (λ m got c'. read_full_loop fuel m got c'))
        (read-some c (suc n) r more)
      ∙ loop-filled fuel (suc n - length (take k c.input)) (have ++ take k c.input) c'
          (record { is_open = r.is_open; no_error = r.no_error })
          (some_taken k n fuel c.input (k_bounds.1) more h)
      ∙ filled-step (suc n) k have c (k_bounds.0)
]

-- An open stream with no error to give, as the stream of the protocol's codec.
abbrev pub as_stream : Canned → Stream
as_stream c = record {
  inbox = c.input;
  ending = eof;
  written = c.output;
  outcomes = [];
  closed = c.closed;
  close_error = none;
}

-- A canned stream that is open and has no error to give is the stream that the codec's theorems are
-- about: io.ReadFull on it gives the same bytes or error and leaves the same behind, however few bytes
-- MaxRead lets a single read give; a write captures the same bytes and does not fail; and closing it
-- closes it. The rounds of the read are no more than the bytes wanted.
pub canned_stream :
    (c : Canned) (n : ℕ) (p : Bytes)
    → c.closed ≡ false
    → c.read_err ≡ none
    → c.write_err ≡ none
    → let r = read_full_loop n n [] c in
      (r.0 ≡ (read_full n (as_stream c)).0)
      × (as_stream r.1 ≡ (read_full n (as_stream c)).1)
      × ((canned_write c p).0 ≡ (length p, (write (as_stream c) p).0))
      × (as_stream (canned_write c p).1 ≡ (write (as_stream c) p).1)
      × (as_stream (canned_close c) ≡ (close (as_stream c)).1)
unfolding read_full write close canned_write canned_close
canned_stream c n p o re we =
    let l = loop-filled n n [] c (record { is_open = o; no_error = re }) (omega arith) in
    (ground (arith, l), ground (arith, l), ground arith, ground arith, refl)
