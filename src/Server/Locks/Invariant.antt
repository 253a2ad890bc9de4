-- ===== src/Server/Locks/Invariant.antt =====
-- The invariant of the lock manager, kept by every operation, and who holds what after it.
use hislip.Prelude.{
  ℕ, ◌≡◌, ◌≢◌, refl, ◌⊎◌, true, false, List, [], ◌∷◌, Bytes, ◌==◌, if◌then◌else◌, arith,
}
use hislip.Server.Locks.{
  LockManager, lock_granted, holds, without, is_empty, no_locks, try_request, release, release_all,
  held, notify, drop_shared,
}

-- No ID occurs twice.
abbrev pub Distinct : List ℕ → Type 0
Distinct [] = Unit
Distinct (x ∷ xs) = (holds xs x ≡ false) × Distinct xs

-- The shared holders are distinct; without one there is no key; and while some session holds the shared
-- lock, only such a session can hold the exclusive one.
pub record IsValid (m : LockManager) : Type 0 where
  pub distinct : Distinct m.shared
  pub keyless : is_empty m.shared ≡ true → m.key ≡ []
  pub holder_shares :
      m.has_exclusive ≡ true → is_empty m.shared ≡ false → holds m.shared m.exclusive ≡ true

pub holds-without :
    (xs : List ℕ) (a b : ℕ) → holds (without xs a) b ≡ (if a == b then false else holds xs b)
holds-without [] a b = ground arith
holds-without (x ∷ xs) a b = ground (arith, holds-without xs a b)

pub Distinct-without : (xs : List ℕ) (a : ℕ) → Distinct xs → Distinct (without xs a)
Distinct-without [] a d = tt
Distinct-without (x ∷ xs) a d = ground (arith, Distinct-without xs a d.1, holds-without xs a x)

pub is_empty-holds : (xs : List ℕ) (a : ℕ) → is_empty xs ≡ true → holds xs a ≡ false
is_empty-holds [] a e = refl
is_empty-holds (x ∷ xs) a e = cc

-- Whoever is still there, the list is not empty.
pub is_empty-without :
    (xs : List ℕ) (a b : ℕ) → holds (without xs a) b ≡ true → is_empty (without xs a) ≡ false
is_empty-without xs a b h = ground (arith, is_empty-holds (without xs a) b)

pub try_request-IsValid :
    (m : LockManager) (id : ℕ) (key : Bytes) → IsValid m → IsValid (try_request m id key).1
unfolding try_request
try_request-IsValid m id [] v = ground (arith, is_empty-holds m.shared id)
try_request-IsValid m id (c ∷ cs) v = ground (arith, is_empty-holds m.shared id)

drop_shared-IsValid :
    (m : LockManager) (id : ℕ)
    → m.has_exclusive ≡ false ⊎ (m.exclusive ≢ id)
    → IsValid m
    → IsValid (drop_shared m id)
drop_shared-IsValid m id other v = record {
  distinct = Distinct-without m.shared id v.distinct;
  keyless = λ e. ground arith;
  holder_shares = λ h e. ground (arith, holds-without m.shared id m.exclusive, v.holder_shares h);
}

release-IsValid : (m : LockManager) (id : ℕ) → IsValid m → IsValid (release m id).1
unfolding release notify
release-IsValid m id v = record {
  distinct = ground (arith, v.distinct, Distinct-without m.shared id v.distinct);
  keyless = λ e. ground (arith, v.keyless);
  holder_shares = λ h e. ground (
    arith,
    v.holder_shares,
    holds-without m.shared id m.exclusive,
    is_empty-without m.shared id m.exclusive,
    is_empty-holds m.shared id,
  );
}

release_all-IsValid : (m : LockManager) (id : ℕ) → IsValid m → IsValid (release_all m id)
unfolding release_all notify
release_all-IsValid m id v = record {
  distinct = ground (arith, v.distinct, Distinct-without m.shared id v.distinct);
  keyless = λ e. ground (arith, v.keyless);
  holder_shares = λ h e. ground (
    arith,
    v.holder_shares,
    holds-without m.shared id m.exclusive,
    is_empty-without m.shared id m.exclusive,
    is_empty-holds m.shared id,
  );
}

-- The operations of the manager.
pub data LockCall : Type 0 where
  requests : ℕ → Bytes → LockCall
  releases releases_all : ℕ → LockCall

unfoldable pub lock_call : LockManager → LockCall → LockManager
unfolding try_request release release_all
lock_call m (requests id key) = (try_request m id key).1
lock_call m (releases id) = (release m id).1
lock_call m (releases_all id) = release_all m id

unfoldable pub lock_calls : LockManager → List LockCall → LockManager
unfolding lock_call
lock_calls m [] = m
lock_calls m (c ∷ cs) = lock_calls (lock_call m c) cs

pub lock_call-IsValid : (m : LockManager) (c : LockCall) → IsValid m → IsValid (lock_call m c)
unfolding lock_call
lock_call-IsValid m (requests id key) v = try_request-IsValid m id key v
lock_call-IsValid m (releases id) v = release-IsValid m id v
lock_call-IsValid m (releases_all id) v = release_all-IsValid m id v

calls-IsValid : (m : LockManager) (cs : List LockCall) → IsValid m → IsValid (lock_calls m cs)
unfolding lock_calls
calls-IsValid m [] v = v
calls-IsValid m (c ∷ cs) v = calls-IsValid (lock_call m c) cs (lock_call-IsValid m c v)

-- In every state that requests and releases of any sessions reach from the unlocked one, the shared
-- holders are distinct, no key is kept without a shared holder, and the holder of the exclusive lock
-- also holds the shared lock if anyone does.
pub lock_calls-IsValid : (cs : List LockCall) → IsValid (lock_calls no_locks cs)
lock_calls-IsValid cs =
    calls-IsValid no_locks cs
      (record { distinct = tt; keyless = λ e. refl; holder_shares = λ e h. cc })

-- When a session's connection closes, all its locks go, and nobody else's.
pub held-release_all :
    (m : LockManager) (id other : ℕ)
    → held (release_all m id) other ≡ (if id == other then false else held m other)
unfolding held release_all notify
held-release_all m id other = ground (arith, holds-without m.shared id other)

-- A request changes the locks only if it is granted: then the session holds a lock, and what the other
-- sessions hold is as it was. Any other answer leaves the manager as it was.
pub held-try_request :
    (m : LockManager) (id other : ℕ) (key : Bytes)
    → (((try_request m id key).0 ≡ lock_granted)
        × (held (try_request m id key).1 other ≡ (if id == other then true else held m other)))
      ⊎ (((try_request m id key).0 ≢ lock_granted) × ((try_request m id key).1 ≡ m))
unfolding held try_request notify
held-try_request m id other [] = ground arith
held-try_request m id other (c ∷ cs) = ground arith
