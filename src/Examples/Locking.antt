-- ===== src/Examples/Locking.antt =====
-- The theorems on locks at concrete inputs.
use hislip.Prelude.{
  Bool, Bytes, List, [], arith, false, none, refl, some, suc, true, ℕ, ◌∷◌, ◌≡◌, ◌⊎◌,
}
use hislip.Prelude.Text.{codes}
use hislip.Server.Locks.{
  LockManager, held, holds, lock_error, lock_failure, lock_granted, no_locks, notify, release,
  state, try_request, unlocked, waiter,
}
use hislip.Server.Locks.Abstract.{answers, manager_call, manager_implements, table, table_call}
use hislip.Server.Locks.Invariant.{
  IsValid, LockCall, lock_calls, lock_calls-IsValid, releases, releases_all, requests,
}
use hislip.Server.Locks.Table.{closes, error_is_final, failure_can_resolve, others}
use hislip.Server.Locks.Waiting.{
  Round, Wake, changes, is_woken, lost_wakeup, registered_wakes, request, request-held, timer_fires,
}

-- Session 1 holds the exclusive lock.
abbrev by_one : LockManager
by_one = record no_locks { has_exclusive = true; exclusive = 1 }

by_one-IsValid : IsValid by_one
by_one-IsValid = record { distinct = tt; keyless = λ e. refl; holder_shares = λ e h. ground arith }

granted_late :
    (request by_one 2 [] 100 (
      (record { before = []; during = releases 1 ∷ []; wake = changes; time_left = true })
      ∷ [])).result
    ≡ some lock_granted
unfolding request try_request waiter lock_calls release notify
granted_late = refl

lock_calls-IsValid_example :
    let cs : List LockCall =
      requests 1 (codes "k") ∷ requests 1 [] ∷ requests 2 (codes "k") ∷ releases_all 1 ∷ [] in
    IsValid (lock_calls no_locks cs)
lock_calls-IsValid_example =
    lock_calls-IsValid
      (requests 1 (codes "k") ∷ requests 1 [] ∷ requests 2 (codes "k") ∷ releases_all 1 ∷ [])

error_is_final_example :
    let m : LockManager = by_one in
    let id : ℕ = 1 in
    let key : Bytes = [] in
    let cs : List LockCall = releases 2 ∷ requests 3 [] ∷ [] in
    (try_request (lock_calls m cs) id key).0 ≡ lock_error
error_is_final_example =
    error_is_final by_one 1 [] (releases 2 ∷ requests 3 [] ∷ []) by_one-IsValid
      ((λ e. omega arith, (λ e. omega arith, tt))) (unfold try_request in refl)

failure_can_resolve_example :
    let m : LockManager = by_one in
    let id : ℕ = 2 in
    let key : Bytes = [] in
    (holds (others m id) id ≡ false)
    × ((try_request (lock_calls m (closes (others m id))) id key).0 ≡ lock_granted)
failure_can_resolve_example =
    failure_can_resolve by_one 2 [] by_one-IsValid (unfold try_request in refl)

request-held_example :
    let m : LockManager = by_one in
    let id : ℕ = 2 in
    let timeout : ℕ = 100 in
    let key : Bytes = [] in
    let rounds : List Round =
      (record { before = []; during = releases 1 ∷ []; wake = changes; time_left = true }) ∷ [] in
    held (request m id key timeout rounds).manager id ≡ true
request-held_example =
    request-held by_one 2 100 []
      ((record { before = []; during = releases 1 ∷ []; wake = changes; time_left = true }) ∷ [])
      granted_late

manager_implements_example :
    let m : LockManager = by_one in
    let cs : List LockCall =
      releases 1
      ∷ requests 2 (codes "k")
      ∷ requests 1 (codes "k")
      ∷ requests 1 []
      ∷ releases_all 1
      ∷ [] in
    answers table_call (table m) cs
    ≡ ((answers manager_call m cs).0, table (answers manager_call m cs).1)
manager_implements_example = manager_implements by_one (
    releases 1
    ∷ requests 2 (codes "k")
    ∷ requests 1 (codes "k")
    ∷ requests 1 []
    ∷ releases_all 1
    ∷ [])

lost_wakeup_example :
    let m : LockManager = by_one in
    let holder : ℕ = 1 in
    let id : ℕ = 2 in
    let timeout : ℕ = 100 in
    let wake : Wake = timer_fires in
    let left : Bool = false in
    let gap : Round = record {
      before = releases holder ∷ [];
      during = [];
      wake = wake;
      time_left = left;
    } in
    let w = request m id [] timeout (gap ∷ []) in
    (state w.manager ≡ unlocked)
    × ((try_request w.manager id []).0 ≡ lock_granted)
    × ((w.result ≡ none) ⊎ (w.result ≡ some lock_failure))
    × (m.changed ≡ false → w.manager.wakes ≡ m.wakes)
    × (m.changed ≡ true → w.manager.wakes ≡ suc m.wakes)
lost_wakeup_example =
    lost_wakeup by_one 1 2 100 timer_fires false refl refl refl (omega arith) (omega arith)

registered_wakes_example :
    let m : LockManager = by_one in
    let cs : List LockCall = releases 1 ∷ [] in
    (is_woken (lock_calls (waiter m) cs) ≡ true) ⊎ (lock_calls (waiter m) cs ≡ waiter m)
registered_wakes_example = registered_wakes by_one (releases 1 ∷ [])
