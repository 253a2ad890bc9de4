-- ===== src/Server/Locks/Table.antt =====
-- What the answers of a lock request promise: an error is final as long as the session itself does
-- nothing, a failure is not; and what AsyncLockInfo counts.
use hislip.Prelude.{
  ℕ, zero, suc, ◌+◌, ◌<◌, ◌≡◌, ◌≢◌, refl, ap, ◌⊎◌, inl, inr, Bool, true, false, not, ◌&&◌, ◌||◌,
  List, [], ◌∷◌, Bytes, All, length, leb, ==_iff, ◌==◌, if◌then◌else◌, Bool-cases, arith,
}
use hislip.Server.Locks.{
  LockManager, lock_failure, lock_granted, lock_error, holds, without, is_empty, has_lock,
  try_request, held, info, notify,
}
use hislip.Server.Locks.Invariant.{
  IsValid, Distinct, LockCall, requests, releases, releases_all, lock_call, lock_calls,
  lock_call-IsValid, holds-without, is_empty-holds,
}

-- The session that makes a call.
abbrev pub caller : LockCall → ℕ
caller (requests id key) = id
caller (releases id) = id
caller (releases_all id) = id

error_step :
    (m : LockManager) (id : ℕ) (key : Bytes) (c : LockCall)
    → IsValid m
    → caller c ≢ id
    → (try_request m id key).0 ≡ lock_error
    → (try_request (lock_call m c) id key).0 ≡ lock_error
unfolding try_request lock_call notify
error_step m id [] (requests other []) v ne h = ground arith
error_step m id [] (requests other (x ∷ xs)) v ne h = ground arith
error_step m id (k ∷ ks) (requests other []) v ne h = ground (arith, is_empty-holds m.shared id)
error_step m id (k ∷ ks) (requests other (x ∷ xs)) v ne h =
    ground (arith, is_empty-holds m.shared id)
error_step m id [] (releases other) v ne h = ground arith
error_step m id (k ∷ ks) (releases other) v ne h = ground (
  arith,
  holds-without m.shared other id,
  is_empty-holds m.shared other,
  is_empty-holds m.shared id,
)
error_step m id [] (releases_all other) v ne h = ground arith
error_step m id (k ∷ ks) (releases_all other) v ne h = ground (
  arith,
  holds-without m.shared other id,
  is_empty-holds m.shared other,
  is_empty-holds m.shared id,
)

-- Waiting does not help a request that was answered with an error: whatever calls the other sessions
-- make, the same request is answered with an error again.
pub error_is_final :
    (m : LockManager) (id : ℕ) (key : Bytes) (cs : List LockCall)
    → IsValid m
    → All (λ c. caller c ≢ id) cs
    → (try_request m id key).0 ≡ lock_error
    → (try_request (lock_calls m cs) id key).0 ≡ lock_error
unfolding lock_calls
error_is_final m id key [] v others h = h
error_is_final m id key (c ∷ cs) v others h =
    error_is_final (lock_call m c) id key cs (lock_call-IsValid m c v) others.1
      (error_step m id key c v others.0 h)

-- The connections of the sessions listed close, one after the other.
abbrev pub closes : List ℕ → List LockCall
closes [] = []
closes (x ∷ xs) = releases_all x ∷ closes xs

held-close :
    (m : LockManager) (id other : ℕ)
    → (holds (lock_call m (releases_all id)).shared other
        ≡ (if id == other then false else holds m.shared other))
      × (has_lock (lock_call m (releases_all id)) other
          ≡ (if id == other then false else has_lock m other))
unfolding lock_call notify
held-close m id other = ground (arith, holds-without m.shared id other)

-- Closing takes the locks of the sessions listed.
held-closes :
    (m : LockManager) (ids : List ℕ) (other : ℕ)
    → (holds (lock_calls m (closes ids)).shared other
        ≡ (if holds ids other then false else holds m.shared other))
      × (has_lock (lock_calls m (closes ids)) other
          ≡ (if holds ids other then false else has_lock m other))
unfolding lock_calls
held-closes m [] other = ground arith
held-closes m (x ∷ xs) other =
    ground (arith, held-closes (lock_call m (releases_all x)) xs other, held-close m x other)

-- The sessions other than `id` that hold a lock.
abbrev pub others : LockManager → ℕ → List ℕ
others m id = without (m.exclusive ∷ m.shared) id

alone :
    (xs : List ℕ) (id : ℕ)
    → ((z : ℕ) → z ≢ id → holds xs z ≡ false)
    → (is_empty xs ≡ true) ⊎ (holds xs id ≡ true)
alone [] id h = inl refl
alone (x ∷ xs) id h = ground (arith, h x)

-- What is left when the others have gone: at most the session itself, with what it held.
record IsAlone (m n : LockManager) (id : ℕ) : Type 0 where
  mine : (is_empty n.shared ≡ true) ⊎ (holds n.shared id ≡ true)
  shared_kept : holds n.shared id ≡ holds m.shared id
  exclusive_kept : n.has_exclusive ≡ true → has_lock m id ≡ true

others_gone : (m : LockManager) (id : ℕ) → IsAlone m (lock_calls m (closes (others m id))) id
others_gone m id = record {
  mine = alone (lock_calls m (closes (others m id))).shared id (λ z ne.
      ground (arith, held-closes m (others m id) z, holds-without (m.exclusive ∷ m.shared) id z));
  shared_kept =
      ground (arith, held-closes m (others m id) id, holds-without (m.exclusive ∷ m.shared) id id);
  exclusive_kept = λ e.
      let n = lock_calls m (closes (others m id)) in
      ground (
        arith,
        held-closes m (others m id) n.exclusive,
        holds-without (m.exclusive ∷ m.shared) id n.exclusive,
      );
}

-- Waiting can help a request that was answered with a failure: once the other sessions that hold locks
-- have closed, and this one is not among them, the same request is granted.
pub failure_can_resolve :
    (m : LockManager) (id : ℕ) (key : Bytes)
    → IsValid m
    → (try_request m id key).0 ≡ lock_failure
    → (holds (others m id) id ≡ false)
      × ((try_request (lock_calls m (closes (others m id))) id key).0 ≡ lock_granted)
unfolding try_request notify
failure_can_resolve m id [] v h =
    (ground (arith, holds-without (m.exclusive ∷ m.shared) id id), ground (arith, others_gone m id))
failure_can_resolve m id (k ∷ ks) v h = (
  ground (arith, holds-without (m.exclusive ∷ m.shared) id id),
  ground (arith, others_gone m id, is_empty-holds m.shared id),
)

-- The sessions with an ID below `n` of which the test holds.
abbrev pub count_below : ℕ → (ℕ → Bool) → ℕ
count_below zero p = 0
count_below (suc n) p = (if p n then 1 else 0) + count_below n p

count_below-none : (n : ℕ) (p : ℕ → Bool) → ((i : ℕ) → p i ≡ false) → count_below n p ≡ 0
count_below-none zero p h = refl
count_below-none (suc n) p h = ground (arith, h n, count_below-none n p h)

-- One more ID, that was not there.
count_below-insert :
    (n x : ℕ) (p q : ℕ → Bool)
    → p x ≡ false
    → ((i : ℕ) → q i ≡ (x == i || p i))
    → count_below n q ≡ (if leb (suc x) n then 1 else 0) + count_below n p
count_below-insert zero x p q new h = ground arith
count_below-insert (suc n) x p q new h = elim (Bool-cases (x == n)) [
  | inl e ↦
      let same_id = (==_iff x n).0 e in
      ground (arith, h n, count_below-insert n x p q new h, ap p same_id)
  | inr e ↦ ground (arith, h n, count_below-insert n x p q new h)
]

count_below-holds :
    (n : ℕ) (xs : List ℕ) → Distinct xs → All (λ x. x < n) xs → count_below n (holds xs) ≡ length xs
count_below-holds n [] d b = count_below-none n (λ i. false) (λ i. refl)
count_below-holds n (x ∷ xs) d b = ground (
  arith,
  count_below-insert n x (holds xs) (holds (x ∷ xs)) d.0 (λ i. refl),
  count_below-holds n xs d.1 b.1,
)

count_below-ext :
    (n : ℕ) (p q : ℕ → Bool) → ((i : ℕ) → p i ≡ q i) → count_below n p ≡ count_below n q
count_below-ext zero p q h = refl
count_below-ext (suc n) p q h = ground (arith, h n, count_below-ext n p q h)

held_among :
    (m : LockManager) (i : ℕ)
    → (m.has_exclusive && not (holds m.shared m.exclusive)) ≡ false
    → held m i ≡ holds m.shared i
unfolding held
held_among m i among = elim (Bool-cases (m.exclusive == i)) [
  | inl here ↦ ground (arith, ap (holds m.shared) ((==_iff m.exclusive i).0 here))
  | inr elsewhere ↦ ground arith
]

-- AsyncLockInfo reports whether some session holds the exclusive lock, and the number of sessions that
-- hold any lock: one that holds both is counted once.
pub info-held :
    (m : LockManager) (n : ℕ)
    → IsValid m
    → All (λ x. x < n) m.shared
    → m.exclusive < n
    → info m ≡ (m.has_exclusive, count_below n (held m))
unfolding info held
info-held m n v b e = elim (Bool-cases (m.has_exclusive && not (holds m.shared m.exclusive))) [
  | inl apart ↦ ground (
    arith,
    count_below-holds n m.shared v.distinct b,
    count_below-insert n m.exclusive (holds m.shared) (held m) (ground arith) (λ i. ground arith),
  )
  | inr among ↦ ground (
    arith,
    count_below-holds n m.shared v.distinct b,
    count_below-ext n (held m) (holds m.shared) (λ i. held_among m i among),
  )
]
