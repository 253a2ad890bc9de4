-- ===== src/Server/Locks/Waiting.antt =====
-- LockManager.Request of server/locks.go: a request that waits for the locks to change.
-- Other sessions run between its critical sections. A round gives their calls between the failed
-- attempt and the registration, their calls while it waits, and what ends the wait.
use hislip.Prelude.{
  ℕ, suc, ◌≡◌, ◌≢◌, refl, ◌⊎◌, inr, Bool, true, false, not, ◌||◌, Option, none, some, List, [], ◌∷◌,
  Bytes, ◌==◌, if◌then◌else◌, arith,
}
use hislip.Server.Locks.{
  LockManager, LockResult, lock_failure, lock_granted, waiter, notify, try_request, state, unlocked,
  held,
}
use hislip.Server.Locks.Invariant.{
  LockCall, requests, releases, releases_all, lock_call, lock_calls,
}

-- `case <-wait`, `case <-timer.C`, `case <-ctx.Done()`.
pub data Wake : Type 0 where
  changes timer_fires cancelled : Wake

-- `time_left` is the test on `time.Until(deadline)` behind a failed attempt.
pub record Round : Type 0 where
  pub before : List LockCall
  pub during : List LockCall
  pub wake : Wake
  pub time_left : Bool

-- Whether the channel that a waiter took is closed by the calls made since.
abbrev pub is_woken : LockManager → Bool
is_woken m = not m.changed

-- `none` is a request that still waits where the rounds end, or whose channel is not closed.
pub record Waiting : Type 0 where
  pub result : Option LockResult
  pub manager : LockManager

abbrev is_failure : LockResult → Bool
is_failure lock_failure = true
is_failure _ = false

-- Behind `select`: the answer, or another attempt and the next round.
abbrev after_wake :
    Wake → LockManager → LockResult × LockManager → Bool → (LockManager → Waiting) → Waiting
after_wake timer_fires m attempt left again = record { result = some lock_failure; manager = m }
after_wake cancelled m attempt left again = record { result = some lock_failure; manager = m }
after_wake changes m (result, m') left again =
    if not (is_woken m)
    then record { result = none; manager = m }
    else if not (is_failure result)
    then record { result = some result; manager = m' }
    else if not left
    then record { result = some lock_failure; manager = m' }
    else again m'

unfoldable pub wait_loop : LockManager → ℕ → Bytes → List Round → Waiting
unfolding waiter lock_calls try_request
wait_loop m session_id lock_string [] = record { result = none; manager = m }
wait_loop m session_id lock_string (r ∷ rs) =
    let registered = waiter (lock_calls m r.before) in
    let m' = lock_calls registered r.during in
    after_wake r.wake m' (try_request m' session_id lock_string) r.time_left
      (λ n. wait_loop n session_id lock_string rs)

-- LockManager.Request, with the timeout in milliseconds.
unfoldable pub request : LockManager → ℕ → Bytes → ℕ → List Round → Waiting
unfolding wait_loop try_request
request m session_id lock_string timeout rounds =
    let (result, m') = try_request m session_id lock_string in
    if not (is_failure result) || timeout == 0
    then record { result = some result; manager = m' }
    else wait_loop m' session_id lock_string rounds

-- A request with no timeout answers at once, as TryRequest does, whatever the others do.
pub request_now :
    (m : LockManager) (id : ℕ) (key : Bytes) (rounds : List Round)
    → request m id key 0 rounds
      ≡ record { result = some (try_request m id key).0; manager = (try_request m id key).1 }
unfolding request
request_now m id key rounds = ground arith

granted_held :
    (m : LockManager) (id : ℕ) (key : Bytes)
    → (try_request m id key).0 ≡ lock_granted
    → held (try_request m id key).1 id ≡ true
unfolding held try_request notify
granted_held m id [] h = ground arith
granted_held m id (c ∷ cs) h = ground arith

wait-granted :
    (m : LockManager) (id : ℕ) (key : Bytes) (rounds : List Round)
    → (wait_loop m id key rounds).result ≡ some lock_granted
    → held (wait_loop m id key rounds).manager id ≡ true
unfolding wait_loop
wait-granted m id key [] h = cc
wait-granted m id key (r ∷ rs) h =
    let m' = lock_calls (waiter (lock_calls m r.before)) r.during in
    ground (arith, granted_held m' id key, wait-granted (try_request m' id key).1 id key rs)

-- A request that is answered as granted, at once or after any rounds of waiting, has left its session
-- with a lock.
pub request-held :
    (m : LockManager) (id timeout : ℕ) (key : Bytes) (rounds : List Round)
    → (request m id key timeout rounds).result ≡ some lock_granted
    → held (request m id key timeout rounds).manager id ≡ true
unfolding request
request-held m id timeout key rounds h =
    ground (arith, granted_held m id key, wait-granted (try_request m id key).1 id key rounds)

call-wakes :
    (m : LockManager) (c : LockCall) → (lock_call m c ≡ m) ⊎ ((lock_call m c).changed ≡ false)
unfolding lock_call notify
call-wakes m (requests id []) = ground arith
call-wakes m (requests id (x ∷ xs)) = ground arith
call-wakes m (releases id) = ground arith
call-wakes m (releases_all id) = ground arith

call-stays : (m : LockManager) (c : LockCall) → m.changed ≡ false → (lock_call m c).changed ≡ false
unfolding lock_call notify
call-stays m (requests id []) h = ground arith
call-stays m (requests id (x ∷ xs)) h = ground arith
call-stays m (releases id) h = ground arith
call-stays m (releases_all id) h = ground arith

calls-stay :
    (m : LockManager) (cs : List LockCall) → m.changed ≡ false → (lock_calls m cs).changed ≡ false
unfolding lock_calls
calls-stay m [] h = h
calls-stay m (c ∷ cs) h = calls-stay (lock_call m c) cs (call-stays m c h)

calls-wake :
    (m : LockManager) (cs : List LockCall)
    → (is_woken (lock_calls m cs) ≡ true) ⊎ (lock_calls m cs ≡ m)
unfolding lock_calls
calls-wake m [] = inr refl
calls-wake m (c ∷ cs) =
    ground (arith, call-wakes m c, calls-wake (lock_call m c) cs, calls-stay (lock_call m c) cs)

-- Once a waiter is registered, no change escapes it: behind any calls of other sessions its channel is
-- closed, or the locks are as they were when it registered.
pub registered_wakes :
    (m : LockManager) (cs : List LockCall)
    → (is_woken (lock_calls (waiter m) cs) ≡ true) ⊎ (lock_calls (waiter m) cs ≡ waiter m)
registered_wakes m cs = calls-wake (waiter m) cs

-- A change before the registration does escape. While `holder` has the exclusive lock and nobody the
-- shared one, another session asks for the exclusive lock with a timeout, and between its failed attempt
-- and its registration the holder releases, and nothing else: the request goes on waiting, or is answered
-- with a failure when its timer fires or its context ends, though nobody holds a lock and an attempt
-- would succeed. If nobody was waiting before, no channel has been closed by then, and else one, the
-- channel of those who were.
pub lost_wakeup :
    (m : LockManager) (holder id timeout : ℕ) (wake : Wake) (left : Bool)
    → m.has_exclusive ≡ true
    → m.exclusive ≡ holder
    → m.shared ≡ []
    → holder ≢ id
    → timeout ≢ 0
    → let gap : Round = record {
      before = releases holder ∷ [];
      during = [];
      wake = wake;
      time_left = left;
    } in
      let w = request m id [] timeout (gap ∷ []) in
      (state w.manager ≡ unlocked)
      × ((try_request w.manager id []).0 ≡ lock_granted)
      × ((w.result ≡ none) ⊎ (w.result ≡ some lock_failure))
      × (m.changed ≡ false → w.manager.wakes ≡ m.wakes)
      × (m.changed ≡ true → w.manager.wakes ≡ suc m.wakes)
unfolding request lock_call notify state
lost_wakeup m holder id timeout changes left h e s ne t = ground arith
lost_wakeup m holder id timeout timer_fires left h e s ne t = ground arith
lost_wakeup m holder id timeout cancelled left h e s ne t = ground arith
