-- ===== src/Server/Policy/Chunks.antt =====
-- Feed against a scanner that takes one byte at a time, and its independence of chunk boundaries.
use hislip.Prelude.{
  ℕ, zero, suc, ◌+◌, ◌-◌, ◌*◌, ◌%◌, ◌^◌, ◌≤◌, ◌<◌, min, ◌≡◌, refl, ap, ◌∙◌, sym, ◌⊎◌, inl, inr,
  Bool, true, false, not, ◌&&◌, ◌||◌, [], ◌∷◌, ◌++◌, Bytes, length, drop, length-drop, leb, ◌==◌,
  if◌then◌else◌, Bool-cases, if-true, if-false, arith,
}
use hislip.Server.Policy.{
  ScpiQueryPolicy, ScpiState, scpi_normal, scpi_string, scpi_string_quote, scpi_hash,
  scpi_block_len, scpi_block_data, round, feed_loop, feed,
}

abbrev text_byte : ScpiQueryPolicy → ℕ → ScpiQueryPolicy
text_byte p c =
    if c == b'?'
    then record p { found = true }
    else if c == b'\'' || c == b'"'
    then record p { quote = c; state = scpi_string }
    else if c == b'#'
    then record p { state = scpi_hash }
    else p

abbrev is_digit : ℕ → Bool
is_digit c = leb b'0' c && leb c b'9'

-- A block starts behind its header, if it has any bytes.
abbrev block_of : ScpiQueryPolicy → ℕ → ℕ → ScpiQueryPolicy
block_of p n digits =
    if digits == 0
    then record p {
      length = n;
      digits = digits;
      remain = n;
      state = if n == 0 then scpi_normal else scpi_block_data;
    }
    else record p { length = n; digits = digits }

abbrev byte_in : ScpiState → ScpiQueryPolicy → ℕ → ScpiQueryPolicy
byte_in scpi_normal p c = text_byte p c
byte_in scpi_string p c = if c == p.quote then record p { state = scpi_string_quote } else p
byte_in scpi_string_quote p c =
    if c == p.quote
    then record p { state = scpi_string }
    else text_byte (record p { state = scpi_normal; quote = 0 }) c
byte_in scpi_hash p c =
    if is_digit c && not (c == b'0')
    then record p { digits = c - b'0'; length = 0; state = scpi_block_len }
    else text_byte (record p { state = scpi_normal }) c
byte_in scpi_block_len p c =
    if is_digit c
    then block_of p ((p.length * 10 + (c - b'0')) % 2 ^ 64) (p.digits - 1)
    else text_byte (record p { state = scpi_normal }) c
byte_in scpi_block_data p c =
    if p.remain == 0 then text_byte (record p { state = scpi_normal }) c else record p {
      remain = p.remain - 1;
      state = if p.remain - 1 == 0 then scpi_normal else scpi_block_data;
    }

-- The scanner: each byte is looked at once, and none behind a query marker.
unfoldable pub scan_byte : ScpiQueryPolicy → ℕ → ScpiQueryPolicy
scan_byte p c = if p.found then p else byte_in p.state p c

unfoldable pub scan : ScpiQueryPolicy → Bytes → ScpiQueryPolicy
unfolding scan_byte
scan p [] = p
scan p (c ∷ cs) = scan (scan_byte p c) cs

pub scan-append : (p : ScpiQueryPolicy) (xs ys : Bytes) → scan p (xs ++ ys) ≡ scan (scan p xs) ys
unfolding scan
scan-append p [] ys = refl
scan-append p (x ∷ xs) ys = scan-append (scan_byte p x) xs ys

pub scan-found : (p : ScpiQueryPolicy) (xs : Bytes) → p.found ≡ true → scan p xs ≡ p
unfolding scan
scan-found p [] h = refl
scan-found p (x ∷ xs) h = ground (arith, scan-found p xs h)

-- The policy behind `k` bytes of a block.
abbrev pub skipped : ScpiQueryPolicy → ℕ → ScpiQueryPolicy
skipped p k = record p {
  remain = p.remain - k;
  state = if p.remain - k == 0 then scpi_normal else scpi_block_data;
}

skip_byte :
    (p : ScpiQueryPolicy) (x : ℕ)
    → p.found ≡ false
    → p.state ≡ scpi_block_data
    → 0 < p.remain
    → scan_byte p x ≡ skipped p 1
unfolding scan_byte
skip_byte p x f s h = ground arith

skipped-suc : (p : ScpiQueryPolicy) (k : ℕ) → skipped (skipped p 1) k ≡ skipped p (suc k)
skipped-suc p k = ground arith

-- Skipping a stretch of a block at once, or byte by byte.
pub scan-skip :
    (p : ScpiQueryPolicy) (xs : Bytes) (k : ℕ)
    → p.found ≡ false
    → p.state ≡ scpi_block_data
    → 0 < p.remain
    → k ≡ min p.remain (length xs)
    → scan (skipped p k) (drop k xs) ≡ scan p xs
unfolding scan
scan-skip p [] zero f s h e = ground arith
scan-skip p [] (suc k) f s h e = absurd (omega arith)
scan-skip p (x ∷ xs) zero f s h e = absurd (omega arith)
scan-skip p (x ∷ xs) (suc k) f s h e =
    sym (ap (λ q. scan q (drop k xs)) (skipped-suc p k))
    ∙ elim (Bool-cases (p.remain - 1 == 0)) [
      | inl last ↦
          let all : k ≡ 0 = ground arith in
          let same : skipped (skipped p 1) 0 ≡ skipped p 1 = ground arith in
          rw all (ap (λ q. scan q xs) same)
      | inr more ↦ scan-skip (skipped p 1) xs k f (ground arith) (ground arith) (ground arith)
    ]
    ∙ sym (ap (λ q. scan q xs) (skip_byte p x f s h))

-- A round of the loop leaves the scanner's result as it is.
round-scan :
    (p : ScpiQueryPolicy) (c : ℕ) (rest : Bytes)
    → p.found ≡ false
    → scan (round p c rest).0 (drop (round p c rest).1 (c ∷ rest)) ≡ scan p (c ∷ rest)
unfolding round scan
round-scan p c rest f = round_at p.state refl
  where
    round_at :
        (s : ScpiState)
        → p.state ≡ s
        → scan (round p c rest).0 (drop (round p c rest).1 (c ∷ rest)) ≡ scan p (c ∷ rest)
    round_at scpi_normal e = ground arith
    round_at scpi_string e = ground arith
    round_at scpi_string_quote e = ground arith
    round_at scpi_hash e = ground arith
    round_at scpi_block_len e = ground arith
    round_at scpi_block_data e = elim (Bool-cases (p.remain == 0)) [
      | inl over ↦ ground arith
      | inr more ↦
          ground (
            arith,
            scan-skip p (c ∷ rest) (min p.remain (suc (length rest))) f e (ground arith) refl,
          )
    ]

-- Fuel for the rounds to come: two for a byte, or one less where the next round consumes one.
abbrev Enough : ℕ → ScpiQueryPolicy → Bytes → Type 0
Enough fuel p xs = (2 * length xs ≤ fuel) ⊎ ((p.state ≡ scpi_normal) × (2 * length xs ≤ suc fuel))

round-Enough :
    (fuel : ℕ) (p : ScpiQueryPolicy) (c : ℕ) (rest : Bytes)
    → Enough (suc fuel) p (c ∷ rest)
    → Enough fuel (round p c rest).0 (drop (round p c rest).1 (c ∷ rest))
unfolding round
round-Enough fuel p c rest h = round_at p.state refl
  where
    round_at :
        (s : ScpiState)
        → p.state ≡ s
        → Enough fuel (round p c rest).0 (drop (round p c rest).1 (c ∷ rest))
    round_at scpi_normal e = ground arith
    round_at scpi_string e = ground arith
    round_at scpi_string_quote e = ground arith
    round_at scpi_hash e = ground arith
    round_at scpi_block_len e = ground arith
    round_at scpi_block_data e =
        ground (arith, length-drop (min p.remain (suc (length rest))) (c ∷ rest))

loop-scan :
    (fuel : ℕ) (p : ScpiQueryPolicy) (xs : Bytes)
    → Enough fuel p xs
    → feed_loop fuel p xs ≡ scan p xs
unfolding feed_loop
loop-scan fuel p [] h = unfold scan in refl
loop-scan zero p (c ∷ rest) h = absurd (ground arith)
loop-scan (suc fuel) p (c ∷ rest) h =
    let (p', i) = round p c rest in
    elim (Bool-cases p.found) [
      | inl f ↦ if-true p.found _ _ f ∙ sym (scan-found p (c ∷ rest) f)
      | inr f ↦
          if-false p.found _ _ f
          ∙ loop-scan fuel p' (drop i (c ∷ rest)) (round-Enough fuel p c rest h)
          ∙ round-scan p c rest f
    ]

-- Feed, whose loop skips blocks at once and looks at some bytes twice, does to the policy what the
-- scanner does that takes each byte once and in turn. In particular its fuel is enough.
pub feed-scan : (p : ScpiQueryPolicy) (chunk : Bytes) → feed p chunk ≡ scan p chunk
unfolding feed
feed-scan p chunk = loop-scan (2 * length chunk) p chunk (inl (omega arith))

-- A message has the same effect however it is cut into chunks: a string, a doubled quote or a block
-- header may lie across a boundary.
pub feed-append : (p : ScpiQueryPolicy) (xs ys : Bytes) → feed (feed p xs) ys ≡ feed p (xs ++ ys)
feed-append p xs ys =
    feed-scan (feed p xs) ys
    ∙ ap (λ q. scan q ys) (feed-scan p xs)
    ∙ sym (scan-append p xs ys)
    ∙ sym (feed-scan p (xs ++ ys))
