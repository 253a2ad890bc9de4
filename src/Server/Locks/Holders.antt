-- ===== src/Server/Locks/Holders.antt =====
-- The holders of the shared lock as a set: the keys of the map, up to order and repetition.
use mathlib.Core.Quot
use mathlib.Core.Quot.{Quot, Quot-set}
use hislip.Prelude.{ℕ, ◌≡◌, refl, Bool, List, [], ◌∷◌, ◌==◌, if◌then◌else◌, arith}
use hislip.Server.Locks.{holds, without, is_empty}
use hislip.Server.Locks.Invariant.{holds-without}

-- Two lists name the same sessions.
abbrev pub SameHolders : List ℕ → List ℕ → Type 0
SameHolders xs ys = (id : ℕ) → holds xs id ≡ holds ys id

abbrev pub Holders : Type 0
Holders = Quot SameHolders

abbrev pub holders : List ℕ → Holders
holders = Quot.mk

unfoldable pub has : ℕ → Holders → Bool
has id = Quot.lift (hlevel) (λ xs. holds xs id) (λ xs ys h. h id)

pub is_empty-SameHolders : (xs ys : List ℕ) → SameHolders xs ys → is_empty xs ≡ is_empty ys
is_empty-SameHolders [] [] h = refl
is_empty-SameHolders [] (y ∷ ys) h = ground (arith, h y)
is_empty-SameHolders (x ∷ xs) [] h = ground (arith, h x)
is_empty-SameHolders (x ∷ xs) (y ∷ ys) h = refl

unfoldable pub nobody : Holders → Bool
nobody = Quot.lift (hlevel) is_empty is_empty-SameHolders

pub SameHolders-cons :
    (id : ℕ) (xs ys : List ℕ) → SameHolders xs ys → SameHolders (id ∷ xs) (id ∷ ys)
SameHolders-cons id xs ys h a = ground (arith, h a)

pub SameHolders-without :
    (id : ℕ) (xs ys : List ℕ) → SameHolders xs ys → SameHolders (without xs id) (without ys id)
SameHolders-without id xs ys h a = ground (arith, h a, holds-without xs id a, holds-without ys id a)

unfoldable pub joined : ℕ → Holders → Holders
joined id =
    Quot.lift Quot-set (λ xs. holders (id ∷ xs))
      (λ xs ys h. Quot.sound (SameHolders-cons id xs ys h))

unfoldable pub left : ℕ → Holders → Holders
left id =
    Quot.lift Quot-set (λ xs. holders (without xs id))
      (λ xs ys h. Quot.sound (SameHolders-without id xs ys h))

pub joined_comm : (a b : ℕ) (s : Holders) → joined a (joined b s) ≡ joined b (joined a s)
unfolding joined
joined_comm a b = Quot.ind (λ s. Quot-set _ _) (λ xs. Quot.sound (λ id. ground arith))

pub left_comm : (a b : ℕ) (s : Holders) → left a (left b s) ≡ left b (left a s)
unfolding left
left_comm a b =
    Quot.ind (λ s. Quot-set _ _)
      (λ xs. Quot.sound (λ id. ground (
        arith,
        holds-without (without xs b) a id,
        holds-without xs b id,
        holds-without (without xs a) b id,
        holds-without xs a id,
      )))

-- A session that leaves takes nobody else along, whenever they joined.
pub left-joined :
    (a b : ℕ) (s : Holders)
    → left a (joined b s) ≡ (if b == a then left a s else joined b (left a s))
unfolding left joined
left-joined a b = Quot.ind (λ s. Quot-set _ _) (λ xs. ground arith)

pub holders-ext : (s t : Holders) → ((id : ℕ) → has id s ≡ has id t) → s ≡ t
unfolding has
holders-ext = Quot.ind (λ _. hlevel Quot-set) λ xs. Quot.ind (λ _. hlevel Quot-set) λ ys. Quot.sound
