-- ===== src/Server/Policy/Strings.antt =====
-- The syntax of IEEE 488.2 program messages (text, quoted strings, definite-length blocks), and what the
-- scanner makes of text and strings.
use hislip.Prelude.{
  ℕ, ◌+◌, ◌*◌, ◌^◌, ◌≤◌, ◌<◌, ◌≡◌, ◌≢◌, ◌⊎◌, inl, inr, false, List, [], ◌∷◌, ◌++◌, Bytes, All,
  length, ◌==◌, if◌then◌else◌, Bool-cases, arith,
}
use hislip.Server.Policy.{ScpiQueryPolicy, scpi_normal, scpi_string, scpi_string_quote}
use hislip.Server.Policy.Chunks.{scan, scan_byte, scan-append}

abbrev pub IsQuote : ℕ → Type 0
IsQuote q = (q ≡ b'\'') ⊎ (q ≡ b'"')

-- The digits of a number, each below ten, as a number.
abbrev pub value : ℕ → List ℕ → ℕ
value n [] = n
value n (d ∷ ds) = value (n * 10 + d) ds

-- A byte of text, a string with its quote and contents, a block with the digits of its length.
pub data Item : Type 0 where
  text : ℕ → Item
  quoted : ℕ → Bytes → Item
  block : List ℕ → Bytes → Item

-- A text byte opens nothing and is no query marker; a block declares its length in one to nine digits.
abbrev pub IsItem : Item → Type 0
IsItem (text c) = (c ≢ b'?') × (c ≢ b'#') × (c ≢ b'\'') × (c ≢ b'"')
IsItem (quoted q body) = IsQuote q
IsItem (block ds payload) =
    (1 ≤ length ds)
    × (length ds ≤ 9)
    × All (λ d. d < 10) ds
    × (value 0 ds ≡ length payload)
    × (length payload < 2 ^ 64)

-- A quote inside a string is doubled.
abbrev pub escape : ℕ → Bytes → Bytes
escape q [] = []
escape q (c ∷ cs) = let rest = escape q cs in if c == q then q ∷ q ∷ rest else c ∷ rest

abbrev pub ascii : List ℕ → Bytes
ascii [] = []
ascii (d ∷ ds) = (b'0' + d) ∷ ascii ds

abbrev pub render : Item → Bytes
render (text c) = c ∷ []
render (quoted q body) = q ∷ (escape q body ++ q ∷ [])
render (block ds payload) = b'#' ∷ (b'0' + length ds) ∷ (ascii ds ++ payload)

abbrev pub message : List Item → Bytes
message [] = []
message (i ∷ is) = render i ++ message is

-- Between items. Behind a string the closing quote has not been told from a doubled one yet.
pub record IsReady (p : ScpiQueryPolicy) : Type 0 where
  pub unfound : p.found ≡ false
  pub between : (p.state ≡ scpi_normal) ⊎ ((p.state ≡ scpi_string_quote) × IsQuote p.quote)

-- Inside a string with quote `q`.
pub record IsInside (q : ℕ) (p : ScpiQueryPolicy) : Type 0 where
  pub unfound : p.found ≡ false
  pub inside : p.state ≡ scpi_string
  pub quote : p.quote ≡ q

pub text-IsReady :
    (p : ScpiQueryPolicy) (c : ℕ) → IsReady p → IsItem (text c) → IsReady (scan_byte p c)
unfolding scan_byte
text-IsReady p c r i = ground arith

pub open-IsInside :
    (p : ScpiQueryPolicy) (q : ℕ) → IsReady p → IsQuote q → IsInside q (scan_byte p q)
unfolding scan_byte
open-IsInside p q r i = ground arith

pub close-IsReady :
    (p : ScpiQueryPolicy) (q : ℕ) → IsInside q p → IsQuote q → IsReady (scan_byte p q)
unfolding scan_byte
close-IsReady p q r i = ground arith

pub other-IsInside :
    (p : ScpiQueryPolicy) (q c : ℕ) → IsInside q p → c ≢ q → IsInside q (scan_byte p c)
unfolding scan_byte
other-IsInside p q c r ne = ground arith

pub doubled-IsInside :
    (p : ScpiQueryPolicy) (q : ℕ) → IsInside q p → IsInside q (scan_byte (scan_byte p q) q)
unfolding scan_byte
doubled-IsInside p q r = ground arith

pub body-IsInside :
    (p : ScpiQueryPolicy) (q : ℕ) (body : Bytes)
    → IsInside q p
    → IsInside q (scan p (escape q body))
unfolding scan
body-IsInside p q [] r = r
body-IsInside p q (c ∷ cs) r = elim (Bool-cases (c == q)) [
  | inl e ↦ rw e (body-IsInside (scan_byte (scan_byte p q) q) q cs (doubled-IsInside p q r))
  | inr e ↦ rw e (body-IsInside (scan_byte p c) q cs (other-IsInside p q c r (ground arith)))
]

pub quoted-IsReady :
    (p : ScpiQueryPolicy) (q : ℕ) (body : Bytes)
    → IsReady p
    → IsQuote q
    → IsReady (scan p (render (quoted q body)))
unfolding scan
quoted-IsReady p q body r i =
    rw (scan-append (scan_byte p q) (escape q body) (q ∷ []))
      (close-IsReady _ q (body-IsInside (scan_byte p q) q body (open-IsInside p q r i)) i)
