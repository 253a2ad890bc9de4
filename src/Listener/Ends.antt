-- ===== src/Listener/Ends.antt =====
-- How Serve of a listener ends, and what Close closes.
use hislip.Prelude.{
  ℕ, ◌≡◌, refl, ap, ◌∙◌, inl, inr, true, not, ◌&&◌, ◌||◌, Option, none, some, List, [], ◌∷◌,
  Bool-cases, if-both, if-true, if-false, subst, arith,
}
use hislip.Errors.{Error}
use hislip.Listener.{
  Phase, accepting, waiting, holding, returned, Listener, new_listener, among, without, begin_close,
  accept_failed, start_task, end_task, Event, accepts, accept_fails, starts, task_ends, cancels,
  close_begins, close_ends, wait_ends, registers, unregisters, at_accept, at_failure, at_start,
  at_wait, end_close, no_tasks, happens, history,
}

-- What is known where the loop stands.
abbrev pub Stands : Phase → Listener → Type 0
Stands (returned none) l = (l.tasks ≡ []) × (l.closed || l.cancelled ≡ true)
Stands waiting l = l.closed || l.cancelled ≡ true
Stands _ l = Unit {0}

pub record IsConsistent (l : Listener) : Type 0 where
  pub tracked : l.conns ≡ l.tasks
  pub stands : Stands l.phase l

start-IsConsistent : (l : Listener) (k : ℕ) → IsConsistent l → IsConsistent (start_task l k)
unfolding start_task
start-IsConsistent l k v = record { tracked = ap (◌∷◌ k) v.tracked; stands = tt }

-- Only returned listeners have no tasks by their phase.
Stands-without :
    (p : Phase) (l t : Listener) (k : ℕ)
    → t.tasks ≡ without l.tasks k
    → t.closed ≡ l.closed
    → t.cancelled ≡ l.cancelled
    → Stands p l
    → Stands p t
Stands-without accepting l t k a b c s = tt
Stands-without waiting l t k a b c s = ground arith
Stands-without (holding j) l t k a b c s = tt
Stands-without (returned none) l t k a b c s = ground arith
Stands-without (returned (some e)) l t k a b c s = tt

end-IsConsistent :
    (l : Listener) (k : ℕ) (e : Option Error) → IsConsistent l → IsConsistent (end_task l k e)
unfolding end_task
end-IsConsistent l k none v = record {
  tracked = ap (λ xs. without xs k) v.tracked;
  stands = Stands-without l.phase l (end_task l k none) k refl refl refl v.stands;
}
end-IsConsistent l k (some e) v = record {
  tracked = ap (λ xs. without xs k) v.tracked;
  stands = Stands-without l.phase l (end_task l k (some e)) k refl refl refl v.stands;
}

-- A step that leaves the tasks and the connections, and closes or cancels at most.
Stands-more :
    (p : Phase) (l t : Listener)
    → t.tasks ≡ l.tasks
    → (l.closed || l.cancelled ≡ true → t.closed || t.cancelled ≡ true)
    → Stands p l
    → Stands p t
Stands-more accepting l t a c s = tt
Stands-more waiting l t a c s = c s
Stands-more (holding j) l t a c s = tt
Stands-more (returned none) l t a c s = (a ∙ s.0, c s.1)
Stands-more (returned (some e)) l t a c s = tt

accept-IsConsistent :
    (p : Phase) (l : Listener) (k : ℕ) → IsConsistent l → IsConsistent (at_accept p l k)
accept-IsConsistent accepting l k v =
    if-both IsConsistent (l.ln_open && not (among l.tasks k || l.shut k))
      (record l { phase = holding k }) l (record { tracked = v.tracked; stands = tt }) v
accept-IsConsistent waiting l k v = v
accept-IsConsistent (holding j) l k v = v
accept-IsConsistent (returned e) l k v = v

failure-IsConsistent :
    (p : Phase) (l : Listener) (e : Error) → IsConsistent l → IsConsistent (at_failure p l e)
unfolding accept_failed
failure-IsConsistent accepting l e v = elim (Bool-cases (l.closed || l.cancelled)) [
  | inl over ↦ rw (if-true _ _ _ over) (record { tracked = v.tracked; stands = over })
  | inr on ↦ rw (if-false _ _ _ on) (record { tracked = v.tracked; stands = tt })
]
failure-IsConsistent waiting l e v = v
failure-IsConsistent (holding j) l e v = v
failure-IsConsistent (returned x) l e v = v

at_start-IsConsistent : (p : Phase) (l : Listener) → IsConsistent l → IsConsistent (at_start p l)
at_start-IsConsistent accepting l v = v
at_start-IsConsistent waiting l v = v
at_start-IsConsistent (holding k) l v = start-IsConsistent l k v
at_start-IsConsistent (returned e) l v = v

no_tasks-empty : (xs : List ℕ) → no_tasks xs ≡ true → xs ≡ []
no_tasks-empty [] h = refl
no_tasks-empty (x ∷ xs) h = cc

wait-IsConsistent :
    (p : Phase) (l : Listener) → l.phase ≡ p → IsConsistent l → IsConsistent (at_wait p l)
wait-IsConsistent accepting l e v = v
wait-IsConsistent waiting l e v =
    let stood : Stands waiting l = subst (λ p. Stands p l) e v.stands in
    elim (Bool-cases (no_tasks l.tasks)) [
      | inl over ↦
          rw (if-true _ _ _ over)
            (record { tracked = v.tracked; stands = (no_tasks-empty l.tasks over, stood) })
      | inr on ↦ rw (if-false _ _ _ on) v
    ]
wait-IsConsistent (holding k) l e v = v
wait-IsConsistent (returned x) l e v = v

close-IsConsistent : (l : Listener) → IsConsistent l → IsConsistent (begin_close l)
unfolding begin_close
close-IsConsistent l v =
    if-both IsConsistent l.closed l (record l { closed = true; closing = some l.conns }) v
      (record { tracked = v.tracked; stands = Stands-more l.phase l _ refl (λ h. refl) v.stands })

closed-IsConsistent :
    (c : Option (List ℕ)) (l : Listener) → IsConsistent l → IsConsistent (end_close c l)
closed-IsConsistent none l v = v
closed-IsConsistent (some conns) l v = record {
  tracked = v.tracked;
  stands = Stands-more l.phase l (end_close (some conns) l) refl (λ h. h) v.stands;
}

happens-IsConsistent : (e : Event) (l : Listener) → IsConsistent l → IsConsistent (happens e l)
unfolding happens
happens-IsConsistent (accepts k) l v = accept-IsConsistent l.phase l k v
happens-IsConsistent (accept_fails e) l v = failure-IsConsistent l.phase l e v
happens-IsConsistent starts l v = at_start-IsConsistent l.phase l v
happens-IsConsistent (task_ends k e) l v =
    if-both IsConsistent (among l.tasks k) (end_task l k e) l (end-IsConsistent l k e v) v
happens-IsConsistent cancels l v = record {
  tracked = v.tracked;
  stands = Stands-more l.phase l (record l { cancelled = true }) refl (λ h. ground arith) v.stands;
}
happens-IsConsistent close_begins l v = close-IsConsistent l v
happens-IsConsistent close_ends l v = closed-IsConsistent l.closing l v
happens-IsConsistent wait_ends l v = wait-IsConsistent l.phase l refl v
happens-IsConsistent (registers k) l v =
    if-both IsConsistent (among l.tasks k) (record l { registered = k ∷ l.registered }) l
      (record { tracked = v.tracked; stands = Stands-more l.phase l _ refl (λ h. h) v.stands }) v
happens-IsConsistent (unregisters k) l v = record {
  tracked = v.tracked;
  stands = Stands-more l.phase l (happens (unregisters k) l) refl (λ h. h) v.stands;
}

history-IsConsistent :
    (es : List Event) (l : Listener) → IsConsistent l → IsConsistent (history es l)
unfolding history
history-IsConsistent [] l v = v
history-IsConsistent (e ∷ es) l v =
    history-IsConsistent es (happens e l) (happens-IsConsistent e l v)

-- Whatever happens to a listener: the connections that it tracks are those whose tasks run, and if its
-- Serve returns nil, then it has been closed or its context cancelled, no task runs any more, and no
-- connection is tracked.
pub serve_returns :
    (es : List Event)
    → let t = history es new_listener in
      (t.conns ≡ t.tasks)
      × (t.phase ≡ returned none
          → (t.closed || t.cancelled ≡ true) × (t.tasks ≡ []) × (t.conns ≡ []))
serve_returns es =
    let t = history es new_listener in
    let v = history-IsConsistent es new_listener (record { tracked = refl; stands = tt }) in
    (
      v.tracked,
      λ p.
          let s : Stands (returned none) t = subst (λ q. Stands q t) p v.stands in
          (s.1, s.0, v.tracked ∙ s.0),
    )
