-- ===== src/Protocol/Header/BigEndian.antt =====
-- Big-endian numbers: binary.BigEndian of protocol/header.go, putUint64 and decodeMaxSize of
-- server/serve.go.
use native.Mathlib.Nat.{pow-suc}
use hislip.Prelude.{
  ℕ, zero, suc, ◌+◌, ◌*◌, ◌/◌, ◌%◌, ◌^◌, ◌<◌, ◌≡◌, refl, ◌∙◌, [], ◌∷◌, ◌++◌, Bytes, length,
  length-append, All, All-append, arith,
}

-- `for i := n-1; i >= 0; i-- { b[i] = byte(v); v >>= 8 }`
unfoldable pub put_be : ℕ → ℕ → Bytes
put_be zero v = []
put_be (suc n) v = put_be n (v / 256) ++ (v % 256) ∷ []

-- `v = v<<8 | uint64(b[i])`, from the left.
unfoldable pub get_from : ℕ → Bytes → ℕ
get_from v [] = v
get_from v (b ∷ bs) = get_from (v * 256 + b) bs

unfoldable pub get_be : Bytes → ℕ
unfolding get_from
get_be b = get_from 0 b

get_from-append : (v : ℕ) (xs : Bytes) (b : ℕ) → get_from v (xs ++ b ∷ []) ≡ get_from v xs * 256 + b
unfolding get_from
get_from-append v [] b = refl
get_from-append v (x ∷ xs) b = get_from-append (v * 256 + x) xs b

pub length-put_be : (n v : ℕ) → length (put_be n v) ≡ n
unfolding put_be
length-put_be zero v = refl
length-put_be (suc n) v =
    omega (arith, length-append (put_be n (v / 256)) ((v % 256) ∷ []), length-put_be n (v / 256))

-- A number that fits is read back.
pub get_be-put_be : (n v : ℕ) → v < 256 ^ n → get_be (put_be n v) ≡ v
unfolding put_be get_be get_from
get_be-put_be zero v h = omega arith
get_be-put_be (suc n) v h =
    get_from-append 0 (put_be n (v / 256)) (v % 256)
    ∙ omega (arith, get_be-put_be n (v / 256) (let e = pow-suc 256 n in omega arith))

-- What is written are bytes.
pub put_be-All : (n v : ℕ) → All (λ b. b < 256) (put_be n v)
unfolding put_be
put_be-All zero v = tt
put_be-All (suc n) v =
    All-append (λ b. b < 256) (put_be n (v / 256)) ((v % 256) ∷ []) (put_be-All n (v / 256))
      (omega arith)

-- Bytes that are read as a number are written back.
pub put_be-get_from : (xs : Bytes) (b : ℕ) → b < 256 → put_be 1 (get_be (xs ++ b ∷ [])) ≡ b ∷ []
unfolding put_be get_be
put_be-get_from xs b h = ground (arith, get_from-append 0 xs b)
