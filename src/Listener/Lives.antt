-- ===== src/Listener/Lives.antt =====
-- What every event but the end of its task leaves to a connection: that it is tracked or about to be, and
-- that no Close under way finds it with a session.
use hislip.Prelude.{
  ℕ, ◌≡◌, ◌≢◌, refl, ap, ◌∙◌, ◌⊎◌, inl, inr, true, false, not, ◌&&◌, ◌||◌, Option, none, some, List,
  [], ◌∷◌, ◌==◌, if◌then◌else◌, if-both, if-true, if-false, arith,
}
use hislip.Errors.{Error}
use hislip.Listener.{
  Phase, accepting, waiting, holding, returned, Listener, among, without, begin_close,
  accept_failed, start_task, end_task, Event, accepts, accept_fails, starts, task_ends, cancels,
  close_begins, close_ends, wait_ends, registers, unregisters, happens, at_accept, at_failure,
  at_start, at_wait, end_close, no_tasks, register,
}
use hislip.Listener.Closes.{other-Keeps}

-- The connection is still to be tracked, or its task runs, so that Serve waits for it.
abbrev pub Lives : ℕ → Listener → Type 0
Lives k l = (l.phase ≡ holding k) ⊎ ((among l.tasks k ≡ true) × (l.phase ≢ returned none))

-- No Close is under way that would find `k` with a session.
abbrev pub Unregistered : ℕ → Listener → Type 0
Unregistered k l = (l.closing ≡ none) ⊎ (among l.registered k ≡ false)

accept-Lives :
    (k : ℕ) (p : Phase) (l : Listener) (j : ℕ) → l.phase ≡ p → Lives k l → Lives k (at_accept p l j)
accept-Lives k accepting l j e (inl h) = absurd (cc)
accept-Lives k accepting l j e (inr (t, n)) =
    if-both (Lives k) (l.ln_open && not (among l.tasks j || l.shut j)) _ l (inr (t, λ h. cc))
      (inr (t, n))
accept-Lives k waiting l j e a = a
accept-Lives k (holding i) l j e a = a
accept-Lives k (returned x) l j e a = a

failure-Lives :
    (k : ℕ) (p : Phase) (l : Listener) (x : Error)
    → l.phase ≡ p
    → Lives k l
    → Lives k (at_failure p l x)
unfolding accept_failed
failure-Lives k accepting l x e (inl h) = absurd (cc)
failure-Lives k accepting l x e (inr (t, n)) =
    if-both (Lives k) (l.closed || l.cancelled) _ _ (inr (t, λ h. cc)) (inr (t, λ h. ground arith))
failure-Lives k waiting l x e a = a
failure-Lives k (holding i) l x e a = a
failure-Lives k (returned y) l x e a = a

start-Lives : (k : ℕ) (p : Phase) (l : Listener) → l.phase ≡ p → Lives k l → Lives k (at_start p l)
unfolding start_task
start-Lives k accepting l e a = a
start-Lives k waiting l e a = a
start-Lives k (holding j) l e (inl h) = inr (ground arith, λ h. cc)
start-Lives k (holding j) l e (inr (t, n)) = inr (ground arith, λ h. cc)
start-Lives k (returned y) l e a = a

some_task : (xs : List ℕ) (k : ℕ) → among xs k ≡ true → no_tasks xs ≡ false
some_task [] k h = cc
some_task (x ∷ xs) k h = refl

wait-Lives : (k : ℕ) (p : Phase) (l : Listener) → l.phase ≡ p → Lives k l → Lives k (at_wait p l)
wait-Lives k accepting l e a = a
wait-Lives k waiting l e (inl h) = absurd (cc)
wait-Lives k waiting l e (inr (t, n)) = rw (if-false _ _ _ (some_task l.tasks k t)) (inr (t, n))
wait-Lives k (holding j) l e a = a
wait-Lives k (returned y) l e a = a

among-without :
    (xs : List ℕ) (j k : ℕ) → among (without xs j) k ≡ (if j == k then false else among xs k)
among-without [] j k = ground arith
among-without (x ∷ xs) j k = ground (arith, among-without xs j k)

end-Lives :
    (k j : ℕ) (e : Option Error) (l : Listener)
    → (j == k) ≡ false
    → Lives k l
    → Lives k (end_task l j e)
unfolding end_task
end-Lives k j none l ne (inl h) = inl h
end-Lives k j none l ne (inr (t, n)) = inr (ground (arith, among-without l.tasks j k), n)
end-Lives k j (some x) l ne (inl h) = inl h
end-Lives k j (some x) l ne (inr (t, n)) = inr (ground (arith, among-without l.tasks j k), n)

-- The event is not the end of the task of `k`, and it does not make `k` a connection of a session while
-- a Close is under way.
abbrev pub Spares : ℕ → Event → Listener → Type 0
Spares k (task_ends j e) l = (j == k) ≡ false
Spares k (registers j) l = ((j == k) ≡ false) ⊎ (l.closing ≡ none)
Spares k _ l = Unit {0}

kept-Unregistered :
    (k : ℕ) (l t : Listener)
    → t.closing ≡ l.closing
    → t.registered ≡ l.registered
    → Unregistered k l
    → Unregistered k t
kept-Unregistered k l t c r (inl done) = inl (c ∙ done)
kept-Unregistered k l t c r (inr free) = inr (ap (λ xs. among xs k) r ∙ free)

register-Unregistered :
    (k j : ℕ) (l : Listener)
    → Spares k (registers j) l
    → Unregistered k l
    → Unregistered k (register l j)
register-Unregistered k j l s u = ground arith

same_registered :
    (e : Event) (l : Listener)
    → e ≢ close_ends
    → ((j : ℕ) → e ≢ registers j)
    → ((j : ℕ) → e ≢ unregisters j)
    → (happens e l).registered ≡ l.registered
unfolding happens begin_close accept_failed start_task end_task
same_registered (accepts k) l a b c = ground arith
same_registered (accept_fails e) l a b c = ground arith
same_registered starts l a b c = ground arith
same_registered (task_ends k none) l a b c = ground arith
same_registered (task_ends k (some e)) l a b c = ground arith
same_registered cancels l a b c = refl
same_registered close_begins l a b c = ground arith
same_registered close_ends l a b c = absurd (a refl)
same_registered wait_ends l a b c = ground arith
same_registered (registers j) l a b c = absurd (b j refl)
same_registered (unregisters j) l a b c = absurd (c j refl)

pub happens-Unregistered :
    (k : ℕ) (e : Event) (l : Listener)
    → e ≢ close_ends
    → l.closed ≡ true
    → Spares k e l
    → Unregistered k l
    → Unregistered k (happens e l)
happens-Unregistered k (registers j) l n c s u = unfold happens in register-Unregistered k j l s u
happens-Unregistered k (unregisters j) l n c s u =
    unfold happens in ground (arith, among-without l.registered j k)
happens-Unregistered k e l n c s u =
    kept-Unregistered k l (happens e l) (other-Keeps e l n c).closing
      (same_registered e l n (λ j h. ground arith) (λ j h. ground arith)) u

pub happens-Lives :
    (k : ℕ) (e : Event) (l : Listener)
    → Spares k e l
    → l.closed ≡ true
    → Lives k l
    → Lives k (happens e l)
unfolding happens begin_close
happens-Lives k (accepts j) l s c a = accept-Lives k l.phase l j refl a
happens-Lives k (accept_fails x) l s c a = failure-Lives k l.phase l x refl a
happens-Lives k starts l s c a = start-Lives k l.phase l refl a
happens-Lives k (task_ends j e) l s c a =
    if-both (Lives k) (among l.tasks j) (end_task l j e) l (end-Lives k j e l s a) a
happens-Lives k cancels l s c a = a
happens-Lives k close_begins l s c a = rw (if-true _ _ _ c) a
happens-Lives k close_ends l s c a = ended l.closing l a
  where
    ended : (o : Option (List ℕ)) (l : Listener) → Lives k l → Lives k (end_close o l)
    ended none l a = a
    ended (some conns) l a = a
happens-Lives k wait_ends l s c a = wait-Lives k l.phase l refl a
happens-Lives k (registers j) l s c a =
    if-both (Lives k) (among l.tasks j) (record l { registered = j ∷ l.registered }) l a a
happens-Lives k (unregisters j) l s c a = a
