-- ===== src/Server/Policy/Skips.antt =====
-- What SCPIQueryPolicy makes of a whole program message.
use hislip.Prelude.{
  ℕ, suc, ◌+◌, ◌*◌, ◌^◌, ◌≤◌, ◌<◌, ◌≡◌, refl, ap, ◌∙◌, sym, subst, ◌⊎◌, true, false, List, [], ◌∷◌,
  ◌++◌, Bytes, All, length, drop, arith,
}
use hislip.Server.Policy.{
  ScpiQueryPolicy, scpi_normal, scpi_hash, scpi_block_len, scpi_block_data, feed, disposition,
  new_policy, no_response_expected, response_expected,
}
use hislip.Server.Policy.Chunks.{
  scan, scan_byte, scan-append, scan-found, scan-skip, skipped, feed-scan,
}
use hislip.Server.Policy.Strings.{
  value, text, quoted, block, IsItem, ascii, render, message, text-IsReady, quoted-IsReady, Item,
  IsReady,
}

-- In a block header with `k` digits to come, that have given `n` so far.
record InHeader (k n : ℕ) (p : ScpiQueryPolicy) : Type 0 where
  unfound : p.found ≡ false
  header : p.state ≡ scpi_block_len
  digits_left : p.digits ≡ k
  so_far : p.length ≡ n

-- At the start of a payload of `n` bytes.
record AtPayload (n : ℕ) (p : ScpiQueryPolicy) : Type 0 where
  unfound : p.found ≡ false
  payload :
      ((n ≡ 0) × (p.state ≡ scpi_normal)) ⊎ ((0 < n) × (p.state ≡ scpi_block_data) × (p.remain ≡ n))

value-ge : (n : ℕ) (ds : List ℕ) → n ≤ value n ds
value-ge n [] = omega arith
value-ge n (d ∷ ds) = omega (arith, value-ge (n * 10 + d) ds)

hash_seen :
    (p : ScpiQueryPolicy)
    → IsReady p
    → ((scan_byte p b'#').found ≡ false) × ((scan_byte p b'#').state ≡ scpi_hash)
unfolding scan_byte
hash_seen p r = ground arith

hash_digit :
    (p : ScpiQueryPolicy) (k : ℕ)
    → p.found ≡ false
    → p.state ≡ scpi_hash
    → 1 ≤ k
    → k ≤ 9
    → InHeader k 0 (scan_byte p (b'0' + k))
unfolding scan_byte
hash_digit p k f s lo hi = ground arith

hash-InHeader :
    (p : ScpiQueryPolicy) (k : ℕ)
    → IsReady p
    → 1 ≤ k
    → k ≤ 9
    → InHeader k 0 (scan_byte (scan_byte p b'#') (b'0' + k))
hash-InHeader p k r lo hi =
    hash_digit (scan_byte p b'#') k (hash_seen p r).0 (hash_seen p r).1 lo hi

digit-InHeader :
    (p : ScpiQueryPolicy) (k n d : ℕ)
    → InHeader (suc (suc k)) n p
    → d < 10
    → n * 10 + d < 2 ^ 64
    → InHeader (suc k) (n * 10 + d) (scan_byte p (b'0' + d))
unfolding scan_byte
digit-InHeader p k n d h small fits = ground arith

last-AtPayload :
    (p : ScpiQueryPolicy) (n d : ℕ)
    → InHeader 1 n p
    → d < 10
    → n * 10 + d < 2 ^ 64
    → AtPayload (n * 10 + d) (scan_byte p (b'0' + d))
unfolding scan_byte
last-AtPayload p n d h small fits = ground arith

header-AtPayload :
    (p : ScpiQueryPolicy) (n : ℕ) (ds : List ℕ) (d : ℕ)
    → InHeader (suc (length ds)) n p
    → All (λ d. d < 10) (d ∷ ds)
    → value n (d ∷ ds) < 2 ^ 64
    → AtPayload (value n (d ∷ ds)) (scan p (ascii (d ∷ ds)))
unfolding scan
header-AtPayload p n [] d h a fits = last-AtPayload p n d h a.0 fits
header-AtPayload p n (e ∷ ds) d h a fits =
    header-AtPayload (scan_byte p (b'0' + d)) (n * 10 + d) ds e
      (digit-InHeader p (length ds) n d h a.0 (omega (arith, value-ge (n * 10 + d) (e ∷ ds)))) a.1
      fits

drop-all : (xs : Bytes) → drop (length xs) xs ≡ []
drop-all [] = refl
drop-all (x ∷ xs) = drop-all xs

payload-skipped :
    (p : ScpiQueryPolicy) (payload : Bytes)
    → p.found ≡ false
    → p.state ≡ scpi_block_data
    → p.remain ≡ length payload
    → 0 < length payload
    → scan p payload ≡ skipped p (length payload)
payload-skipped p payload f s e pos =
    sym (scan-skip p payload (length payload) f s (omega arith) (omega arith))
    ∙ ap (scan (skipped p (length payload))) (drop-all payload)
    ∙ unfold scan in refl

payload-IsReady :
    (p : ScpiQueryPolicy) (payload : Bytes)
    → AtPayload (length payload) p
    → IsReady (scan p payload)
payload-IsReady p [] h = unfold scan in ground arith
payload-IsReady p (c ∷ cs) h =
    rw (payload-skipped p (c ∷ cs) h.unfound (ground arith) (ground arith) (omega arith))
      (ground arith)

block-IsReady :
    (p : ScpiQueryPolicy) (ds : List ℕ) (payload : Bytes)
    → IsReady p
    → IsItem (block ds payload)
    → IsReady (scan p (render (block ds payload)))
unfolding scan
block-IsReady p [] payload r i = absurd (omega arith)
block-IsReady p (d ∷ ds) payload r i =
    let q = scan_byte (scan_byte p b'#') (b'0' + suc (length ds)) in
    rw (scan-append q (ascii (d ∷ ds)) payload) (
      payload-IsReady _ payload (
        subst (λ n. AtPayload n (scan q (ascii (d ∷ ds)))) i.3
          (header-AtPayload q 0 ds d (hash-InHeader p (suc (length ds)) r i.0 i.1) i.2
            (omega arith))))

item-IsReady : (p : ScpiQueryPolicy) (i : Item) → IsReady p → IsItem i → IsReady (scan p (render i))
item-IsReady p (text c) r i = unfold scan in text-IsReady p c r i
item-IsReady p (quoted q body) r i = quoted-IsReady p q body r i
item-IsReady p (block ds payload) r i = block-IsReady p ds payload r i

message-IsReady :
    (p : ScpiQueryPolicy) (is : List Item)
    → IsReady p
    → All IsItem is
    → IsReady (scan p (message is))
message-IsReady p [] r a = unfold scan in r
message-IsReady p (i ∷ is) r a =
    rw (scan-append p (render i) (message is))
      (message-IsReady (scan p (render i)) is (item-IsReady p i r a.0) a.1)

marker-found : (p : ScpiQueryPolicy) → IsReady p → (scan_byte p b'?').found ≡ true
unfolding scan_byte
marker-found p r = ground arith

marker_then : (p : ScpiQueryPolicy) (rest : Bytes) → IsReady p → (scan p (b'?' ∷ rest)).found ≡ true
unfolding scan
marker_then p rest r =
    ap (λ (q : ScpiQueryPolicy). q.found) (scan-found (scan_byte p b'?') rest (marker-found p r))
    ∙ marker-found p r

-- A program message of text, quoted strings and definite-length blocks expects no response, whatever
-- question marks the strings and blocks contain; with a query marker behind such a beginning it
-- expects one, whatever follows.
pub disposition-message :
    (is : List Item) (rest : Bytes)
    → All IsItem is
    → (disposition (feed new_policy (message is)) ≡ no_response_expected)
      × (disposition (feed new_policy (message is ++ b'?' ∷ rest)) ≡ response_expected)
unfolding disposition
disposition-message is rest a =
    let r = message-IsReady new_policy is (ground arith) a in
    (
      ground (arith, feed-scan new_policy (message is), r.unfound),
      ground (
        arith,
        feed-scan new_policy (message is ++ b'?' ∷ rest),
        scan-append new_policy (message is) (b'?' ∷ rest),
        marker_then (scan new_policy (message is)) rest r,
      ),
    )
