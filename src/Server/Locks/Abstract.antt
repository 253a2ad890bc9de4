-- ===== src/Server/Locks/Abstract.antt =====
-- The lock table of IVI-6.1 as a specification, and that the lock manager implements it: a table is who
-- has the exclusive lock, and the key and the set of the sessions that share the other one.
use hislip.Prelude.{
  ℕ, ◌≡◌, refl, Bool, true, false, not, ◌&&◌, ◌||◌, Option, none, some, List, [], ◌∷◌, Bytes, same,
  same_iff, ap, sym, ◌∙◌, ◌==◌, if◌then◌else◌, arith,
}
use hislip.Server.Locks.{
  holds, has_lock, drop_exclusive, drop_shared, LockManager, LockResult, lock_failure, lock_granted,
  lock_released_shared, lock_error, try_request, release, release_all, notify,
}
use hislip.Server.Locks.Holders.{Holders, holders, has, nobody, joined, left}
use hislip.Server.Locks.Invariant.{LockCall, requests, releases, releases_all}

pub record LockTable : Type 0 where
  pub owner : Option ℕ
  pub key : Bytes
  pub sharers : Holders

abbrev pub owns : LockTable → ℕ → Bool
owns t id = elim t.owner [ none ↦ false | some o ↦ o == id ]

abbrev pub unowned : LockTable → Bool
unowned t = elim t.owner [ none ↦ true | some o ↦ false ]

-- A session that asks for what it has, or for the shared lock alone while it has the exclusive one.
abbrev pub is_redundant : LockTable → ℕ → Bytes → Bool
is_redundant t id [] = owns t id
is_redundant t id (c ∷ cs) = has id t.sharers || (nobody t.sharers && owns t id)

-- The exclusive lock is to be had while nobody owns it, and only sharers may while some session shares;
-- the shared lock by its key, or with any key while nobody has a lock.
abbrev pub is_available : LockTable → ℕ → Bytes → Bool
is_available t id [] = unowned t && (nobody t.sharers || has id t.sharers)
is_available t id (c ∷ cs) = if nobody t.sharers then unowned t else same t.key (c ∷ cs)

unfoldable pub answer : LockTable → ℕ → Bytes → LockResult
answer t id key =
    if is_redundant t id key
    then lock_error
    else if is_available t id key
    then lock_granted
    else lock_failure

abbrev pub grant : LockTable → ℕ → Bytes → LockTable
grant t id [] = record t { owner = some id }
grant t id (c ∷ cs) = record t { key = c ∷ cs; sharers = joined id t.sharers }

abbrev pub disown : LockTable → LockTable
disown t = record t { owner = none }

abbrev pub unshare : ℕ → LockTable → LockTable
unshare id t = record t {
  key = if nobody (left id t.sharers) then [] else t.key;
  sharers = left id t.sharers;
}

-- A session gives up the exclusive lock before the shared one.
unfoldable pub surrender : LockTable → ℕ → LockResult × LockTable
surrender t id =
    if owns t id
    then (lock_granted, disown t)
    else if has id t.sharers
    then (lock_released_shared, unshare id t)
    else (lock_error, t)

-- A session that goes gives up both locks.
abbrev pub cleared : LockTable → ℕ → LockTable
cleared t id =
    let rest = if owns t id then disown t else t in
    if has id rest.sharers then unshare id rest else rest

-- What a call gives back, if it gives anything, and what it leaves.
abbrev pub table_call : LockTable → LockCall → Option LockResult × LockTable
table_call t (requests id key) = (
  some (answer t id key),
  if not (is_redundant t id key) && is_available t id key then grant t id key else t,
)
table_call t (releases id) = (some (surrender t id).0, (surrender t id).1)
table_call t (releases_all id) = (none, cleared t id)

abbrev pub manager_call : LockManager → LockCall → Option LockResult × LockManager
manager_call m (requests id key) = (some (try_request m id key).0, (try_request m id key).1)
manager_call m (releases id) = (some (release m id).0, (release m id).1)
manager_call m (releases_all id) = (none, release_all m id)

-- The calls in turn, on anything that answers them.
abbrev pub answers :
    {S : Type 0}
    → (S → LockCall → Option LockResult × S)
    → S
    → List LockCall
    → List (Option LockResult) × S
answers call s [] = ([], s)
answers call s (c ∷ cs) = let rest = answers call (call s c).1 cs in ((call s c).0 ∷ rest.0, rest.1)

-- What of a manager counts: not the order of the map, not the field of an owner that is gone, and not
-- who has been woken.
abbrev pub table : LockManager → LockTable
table m = record {
  owner = if m.has_exclusive then some m.exclusive else none;
  key = m.key;
  sharers = holders m.shared;
}

owns-table : (m : LockManager) (id : ℕ) → owns (table m) id ≡ has_lock m id
owns-table m id = ground arith

table-drop_exclusive :
    (b : Bool) (m : LockManager)
    → table (if b then drop_exclusive m else m) ≡ (if b then disown (table m) else table m)
table-drop_exclusive true m = refl
table-drop_exclusive false m = refl

table-drop_shared :
    (b : Bool) (m : LockManager) (id : ℕ)
    → table (if b then drop_shared m id else m) ≡ (if b then unshare id (table m) else table m)
unfolding nobody left
table-drop_shared true m id = refl
table-drop_shared false m id = refl

table-notify : (b : Bool) (m : LockManager) → table (if b then notify m else m) ≡ table m
unfolding notify
table-notify true m = ground arith
table-notify false m = refl

table-release_all : (m : LockManager) (id : ℕ) → table (release_all m id) ≡ cleared (table m) id
unfolding release_all has
table-release_all m id =
    let first = if has_lock m id then drop_exclusive m else m in
    let second = if holds first.shared id then drop_shared first id else first in
    table-notify (has_lock m id || holds m.shared id) second
    ∙ table-drop_shared (holds first.shared id) first id
    ∙ ap (λ t. if has id t.sharers then unshare id t else t)
        (table-drop_exclusive (has_lock m id) m)
    ∙ ap
        (λ b.
          let rest = if b then disown (table m) else table m in
          if has id rest.sharers then unshare id rest else rest)
        (sym (owns-table m id))

call_agrees :
    (m : LockManager) (c : LockCall)
    → table_call (table m) c ≡ ((manager_call m c).0, table (manager_call m c).1)
unfolding try_request release release_all notify answer surrender has nobody joined left
call_agrees m (requests id []) = ground arith
call_agrees m (requests id (k ∷ ks)) = ground (arith, same_iff m.key (k ∷ ks))
call_agrees m (releases id) = ground arith
call_agrees m (releases_all id) = ap (λ t. (none, t)) (sym (table-release_all m id))

-- The lock manager implements the lock table: over any calls, from any state, each call gets the answer
-- that the table gives, and the table in the end is that of the manager in the end.
pub manager_implements :
    (m : LockManager) (cs : List LockCall)
    → answers table_call (table m) cs
      ≡ ((answers manager_call m cs).0, table (answers manager_call m cs).1)
manager_implements m [] = refl
manager_implements m (c ∷ cs) = cc (call_agrees m c, manager_implements (manager_call m c).1 cs)

-- Managers with the same table cannot be told apart: whatever calls follow, both give the same answers.
pub same_table :
    (m n : LockManager) (cs : List LockCall)
    → table m ≡ table n
    → (answers manager_call m cs).0 ≡ (answers manager_call n cs).0
same_table m n cs e =
    ap (λ r. r.0) (sym (manager_implements m cs))
    ∙ ap (λ t. (answers table_call t cs).0) e
    ∙ ap (λ r. r.0) (manager_implements n cs)
