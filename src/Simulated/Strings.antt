-- ===== src/Simulated/Strings.antt =====
-- The functions of Go's strings and strconv that examples/server/main.go uses, on ASCII.
use hislip.Prelude.{
  ℕ, zero, suc, ◌+◌, ◌-◌, ◌/◌, ◌%◌, Bool, true, false, ◌&&◌, ◌||◌, List, [], ◌∷◌, Bytes, ltb, leb,
  ◌==◌, if◌then◌else◌,
}

-- The ASCII characters of unicode.IsSpace.
abbrev pub is_space : ℕ → Bool
is_space c = c == 32 || (leb 9 c && leb c 13)

abbrev is_line_end : ℕ → Bool
is_line_end c = c == 13 || c == 10

abbrev is_nil : Bytes → Bool
is_nil [] = true
is_nil (c ∷ cs) = false

-- A text without the characters at its end for which the test holds.
abbrev pub trim_right : (ℕ → Bool) → Bytes → Bytes
trim_right test [] = []
trim_right test (c ∷ cs) =
    let rest = trim_right test cs in if is_nil rest && test c then [] else c ∷ rest

abbrev pub trim_left : (ℕ → Bool) → Bytes → Bytes
trim_left test [] = []
trim_left test (c ∷ cs) = let rest = trim_left test cs in if test c then rest else c ∷ cs

-- strings.TrimRight with "\r\n".
unfoldable pub trim_line_end : Bytes → Bytes
trim_line_end s = trim_right is_line_end s

unfoldable pub trim_space : Bytes → Bytes
trim_space s = trim_left is_space (trim_right is_space s)

-- `c` before the first of the pieces.
abbrev pub in_front : ℕ → List Bytes → List Bytes
in_front c [] = (c ∷ []) ∷ []
in_front c (p ∷ ps) = (c ∷ p) ∷ ps

-- strings.SplitSeq at ";".
unfoldable pub split : Bytes → List Bytes
split [] = [] ∷ []
split (c ∷ cs) = let rest = split cs in if c == b';' then [] ∷ rest else in_front c rest

abbrev upper : ℕ → ℕ
upper c = if leb b'a' c && leb c b'z' then c - 32 else c

unfoldable pub to_upper : Bytes → Bytes
to_upper [] = []
to_upper (c ∷ cs) = upper c ∷ to_upper cs

-- strings.HasPrefix, the prefix first.
unfoldable pub starts_with : Bytes → Bytes → Bool
starts_with [] s = true
starts_with (x ∷ xs) [] = false
starts_with (x ∷ xs) (c ∷ cs) = x == c && starts_with xs cs

abbrev words : Bytes → List Bytes
words [] = [] ∷ []
words (c ∷ cs) = let rest = words cs in if is_space c then [] ∷ rest else in_front c rest

abbrev not_empty : List Bytes → List Bytes
not_empty [] = []
not_empty ([] ∷ ps) = not_empty ps
not_empty ((c ∷ cs) ∷ ps) = (c ∷ cs) ∷ not_empty ps

-- strings.Fields: the words between runs of space.
unfoldable pub fields : Bytes → List Bytes
fields s = not_empty (words s)

-- The decimal digits of `n` before `acc`; each takes a unit of the fuel.
abbrev decimal : ℕ → ℕ → Bytes → Bytes
decimal zero n acc = acc
decimal (suc fuel) n acc =
    let c = 48 + n % 10 in
    let rest = decimal fuel (n / 10) (c ∷ acc) in if ltb n 10 then c ∷ acc else rest

-- strconv.Itoa of a number that is not negative.
unfoldable pub itoa : ℕ → Bytes
itoa n = decimal (suc n) n []
