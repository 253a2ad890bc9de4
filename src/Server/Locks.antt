-- ===== src/Server/Locks.antt =====
-- server/locks.go: the lock manager. A session ID is a number and a lock string a byte string.
-- `shared` lists the keys of the map; the map's values are all true. The channel `changed` is
-- modelled by whether it is there and by how often such a channel has been closed.
pub mod Abstract
pub mod Holders
pub mod Invariant
pub mod Table
pub mod Waiting
use hislip.Prelude.{
  ℕ, suc, ◌+◌, Bool, true, false, not, ◌&&◌, ◌||◌, List, [], ◌∷◌, Bytes, same, length, ltb, ◌==◌,
  if◌then◌else◌,
}

pub data LockResult : Type 0 where
  lock_failure lock_granted lock_released_shared lock_error : LockResult

-- The control code of an AsyncLockResponse.
abbrev pub code : LockResult → ℕ
code lock_failure = 0
code lock_granted = 1
code lock_released_shared = 2
code lock_error = 3

pub data LockState : Type 0 where
  unlocked exclusive_locked shared_locked both_locked : LockState

pub record LockManager : Type 0 where
  pub exclusive : ℕ
  pub has_exclusive : Bool
  pub key : Bytes
  pub shared : List ℕ
  pub changed : Bool
  pub wakes : ℕ

-- The zero LockManager.
abbrev pub no_locks : LockManager
no_locks = record {
  exclusive = 0;
  has_exclusive = false;
  key = [];
  shared = [];
  changed = false;
  wakes = 0;
}

-- `m.shared[id]`
abbrev pub holds : List ℕ → ℕ → Bool
holds [] id = false
holds (x ∷ xs) id = x == id || holds xs id

-- `delete(m.shared, id)`
abbrev pub without : List ℕ → ℕ → List ℕ
without [] id = []
without (x ∷ xs) id = let rest = without xs id in if x == id then rest else x ∷ rest

-- `len(xs) > 0`
abbrev pub is_empty : List ℕ → Bool
is_empty [] = true
is_empty (x ∷ xs) = false

-- `m.hasExclusive && m.exclusive == sessionID`
abbrev pub has_lock : LockManager → ℕ → Bool
has_lock m id = m.has_exclusive && m.exclusive == id

unfoldable pub state : LockManager → LockState
state m =
    if m.has_exclusive && not (is_empty m.shared)
    then both_locked
    else if m.has_exclusive
    then exclusive_locked
    else if not (is_empty m.shared)
    then shared_locked
    else unlocked

-- notifyLocked.
unfoldable pub notify : LockManager → LockManager
notify m = if m.changed then record m { changed = false; wakes = suc m.wakes } else m

-- waiterLocked.
unfoldable pub waiter : LockManager → LockManager
waiter m = record m { changed = true }

unfoldable pub try_exclusive : LockManager → ℕ → LockResult × LockManager
unfolding notify
try_exclusive m session_id =
    if m.has_exclusive
    then if m.exclusive == session_id then (lock_error, m) else (lock_failure, m)
    else if not (is_empty m.shared) && not (holds m.shared session_id)
    then (lock_failure, m)
    else (lock_granted, notify (record m { has_exclusive = true; exclusive = session_id }))

unfoldable pub try_shared : LockManager → ℕ → Bytes → LockResult × LockManager
unfolding notify
try_shared m session_id key =
    if holds m.shared session_id
    then (lock_error, m)
    else if not (is_empty m.shared)
    then if not (same m.key key)
      then (lock_failure, m)
      else (lock_granted, notify (record m { shared = session_id ∷ m.shared }))
    else if m.has_exclusive && not (m.exclusive == session_id)
    then (lock_failure, m)
    else if has_lock m session_id
    then (lock_error, m)
    else (lock_granted, notify (record m { key = key; shared = session_id ∷ m.shared }))

unfoldable pub try_request : LockManager → ℕ → Bytes → LockResult × LockManager
unfolding try_exclusive try_shared
try_request m session_id [] = try_exclusive m session_id
try_request m session_id (c ∷ cs) = try_shared m session_id (c ∷ cs)

-- `delete`, and the key goes with the last holder.
abbrev pub drop_shared : LockManager → ℕ → LockManager
drop_shared m id = record m {
  shared = without m.shared id;
  key = if is_empty (without m.shared id) then [] else m.key;
}

abbrev pub drop_exclusive : LockManager → LockManager
drop_exclusive m = record m { has_exclusive = false; exclusive = 0 }

unfoldable pub release : LockManager → ℕ → LockResult × LockManager
unfolding notify
release m session_id =
    if has_lock m session_id
    then (lock_granted, notify (drop_exclusive m))
    else if holds m.shared session_id
    then (lock_released_shared, notify (drop_shared m session_id))
    else (lock_error, m)

unfoldable pub release_all : LockManager → ℕ → LockManager
unfolding notify
release_all m session_id =
    let first = if has_lock m session_id then drop_exclusive m else m in
    let second = if holds first.shared session_id then drop_shared first session_id else first in
    if has_lock m session_id || holds m.shared session_id then notify second else second

-- The holders gathered into a map: the shared ones, and the exclusive one if it is not among them.
unfoldable pub info : LockManager → Bool × ℕ
info m = (
  m.has_exclusive,
  if m.has_exclusive && not (holds m.shared m.exclusive)
      then suc (length m.shared)
      else length m.shared,
)

unfoldable pub held : LockManager → ℕ → Bool
held m session_id = has_lock m session_id || holds m.shared session_id
