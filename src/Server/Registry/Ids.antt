-- ===== src/Server/Registry/Ids.antt =====
-- allocateIDLocked: the ID it gives, and that it gives one while one is free.
use hislip.Prelude.{
  ℕ, zero, suc, ◌+◌, ◌-◌, ◌%◌, ◌^◌, ◌<◌, ◌≡◌, ap, ◌∙◌, sym, true, false, none, some, List, arith,
}
use hislip.Server.Session.{Session}
use hislip.Server.Registry.{in_use, following, scan_ids, allocate_id}

scan-fresh :
    (rounds : ℕ) (sessions : List Session) (next id next' : ℕ)
    → next < 2 ^ 16
    → scan_ids rounds sessions next ≡ (some id, next')
    → (in_use sessions id ≡ false) × (0 < id) × (id < 2 ^ 16) × (0 < next') × (next' < 2 ^ 16)
unfolding scan_ids
scan-fresh zero sessions next id next' h e = ground arith
scan-fresh (suc rounds) sessions next id next' h e =
    ground (arith, scan-fresh rounds sessions (following next) id next')

-- The ID tried in round `k`.
abbrev tried : ℕ → ℕ → ℕ
tried zero next = next
tried (suc k) next = tried k (following next)

tried-cycle : (k next : ℕ) → 0 < next → next < 2 ^ 16 → tried k next ≡ 1 + (next - 1 + k) % 65535
tried-cycle zero next p h = omega arith
tried-cycle (suc k) next p h = ground (arith, tried-cycle k (following next))

scan-exhausted :
    (rounds : ℕ) (sessions : List Session) (next next' : ℕ)
    → scan_ids rounds sessions next ≡ (none, next')
    → (k : ℕ) → k < rounds
    → 0 < tried k next
    → in_use sessions (tried k next) ≡ true
unfolding scan_ids
scan-exhausted zero sessions next next' e k h p = absurd (omega arith)
scan-exhausted (suc rounds) sessions next next' e zero h p = ground arith
scan-exhausted (suc rounds) sessions next next' e (suc k) h p =
    scan-exhausted rounds sessions (following next) next' (ground arith) k (omega arith) p

cycle-hits :
    (next id : ℕ)
    → 0 < next
    → next < 2 ^ 16
    → 0 < id
    → id < 2 ^ 16
    → 1 + (next - 1 + (id + 65535 - next) % 65535) % 65535 ≡ id
cycle-hits next id p h q g = omega arith

-- From a next ID that is a nonzero 16-bit number, the ID that is given is nonzero, fits 16 bits and is no
-- session's, and the next ID to try is again such a number. None is given only if all the IDs from 1
-- to 65535 are in use.
pub allocate_id-fresh :
    (sessions : List Session) (next : ℕ)
    → 0 < next
    → next < 2 ^ 16
    → ((id next' : ℕ)
        → allocate_id sessions next ≡ (some id, next')
        → (in_use sessions id ≡ false) × (0 < id) × (id < 2 ^ 16) × (0 < next') × (next' < 2 ^ 16))
      × ((next' id : ℕ)
          → allocate_id sessions next ≡ (none, next')
          → 0 < id
          → id < 2 ^ 16
          → in_use sessions id ≡ true)
unfolding allocate_id
allocate_id-fresh sessions next p h = (
  λ id next' e. scan-fresh (2 ^ 16) sessions next id next' h e,
  λ next' id e pos fits.
      let k = (id + 65535 - next) % 65535 in
      let here : tried k next ≡ id = tried-cycle k next p h ∙ cycle-hits next id p h pos fits in
      ap (in_use sessions) (sym here)
      ∙ scan-exhausted (2 ^ 16) sessions next next' e k (omega arith) (omega arith),
)

scan-next :
    (rounds : ℕ) (sessions : List Session) (next : ℕ)
    → 0 < next
    → next < 2 ^ 16
    → (0 < (scan_ids rounds sessions next).1) × ((scan_ids rounds sessions next).1 < 2 ^ 16)
unfolding scan_ids
scan-next zero sessions next p h = (p, h)
scan-next (suc rounds) sessions next p h =
    ground (arith, scan-next rounds sessions (following next))

-- The next ID to try stays a nonzero 16-bit number, also when none is free.
pub allocate_id-next :
    (sessions : List Session) (next : ℕ)
    → 0 < next
    → next < 2 ^ 16
    → (0 < (allocate_id sessions next).1) × ((allocate_id sessions next).1 < 2 ^ 16)
unfolding allocate_id
allocate_id-next sessions next p h = scan-next (2 ^ 16) sessions next p h
