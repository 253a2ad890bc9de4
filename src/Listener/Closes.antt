-- ===== src/Listener/Closes.antt =====
-- Which connections a Close of the listener closes, and which it misses.
use hislip.Prelude.{
  ℕ, ◌≡◌, ◌≢◌, refl, ap, ◌∙◌, sym, subst, ◌⊎◌, inl, inr, Bool, true, false, not, ◌&&◌, ◌||◌, Option,
  none, some, List, [], ◌∷◌, if-both, if-true, arith,
}
use hislip.Errors.{Error}
use hislip.Listener.{
  Phase, accepting, waiting, holding, returned, Listener, among, begin_close, accept_failed,
  start_task, end_task, Event, accepts, accept_fails, starts, task_ends, cancels, close_begins,
  close_ends, wait_ends, registers, unregisters, happens, history, at_accept, at_failure, at_start,
  at_wait, end_close, no_tasks,
}

-- A Close has connection `k` on its list, or has closed it.
abbrev IsListed : Option (List ℕ) → ℕ → Type 0
IsListed none k = ⊥
IsListed (some conns) k = among conns k ≡ true

record IsClosing (k : ℕ) (l : Listener) : Type 0 where
  is_closed : l.closed ≡ true
  covered : (l.shut k ≡ true) ⊎ IsListed l.closing k

-- A step that touches neither the flag nor what is closed.
same-IsClosing :
    (k : ℕ) (l t : Listener)
    → t.closed ≡ l.closed
    → t.shut ≡ l.shut
    → t.closing ≡ l.closing
    → IsClosing k l
    → IsClosing k t
same-IsClosing k l t a b c v = record {
  is_closed = a ∙ v.is_closed;
  covered = elim v.covered [
    | inl done ↦ inl (ap (λ (f : ℕ → Bool). f k) b ∙ done)
    | inr due ↦ inr (subst (λ o. IsListed o k) (sym c) due)
  ];
}

-- What a step other than a Close keeps.
pub record KeepsClosing (l t : Listener) : Type 0 where
  pub closed : t.closed ≡ l.closed
  pub shut : t.shut ≡ l.shut
  pub closing : t.closing ≡ l.closing

accept-Keeps : (p : Phase) (l : Listener) (k : ℕ) → KeepsClosing l (at_accept p l k)
accept-Keeps accepting l k =
    if-both (KeepsClosing l) (l.ln_open && not (among l.tasks k || l.shut k)) _ l
      (record { closed = refl; shut = refl; closing = refl })
      (record { closed = refl; shut = refl; closing = refl })
accept-Keeps waiting l k = record { closed = refl; shut = refl; closing = refl }
accept-Keeps (holding j) l k = record { closed = refl; shut = refl; closing = refl }
accept-Keeps (returned e) l k = record { closed = refl; shut = refl; closing = refl }

failure-Keeps : (p : Phase) (l : Listener) (e : Error) → KeepsClosing l (at_failure p l e)
unfolding accept_failed
failure-Keeps accepting l e =
    if-both (KeepsClosing l) (l.closed || l.cancelled) _ _
      (record { closed = refl; shut = refl; closing = refl })
      (record { closed = refl; shut = refl; closing = refl })
failure-Keeps waiting l e = record { closed = refl; shut = refl; closing = refl }
failure-Keeps (holding j) l e = record { closed = refl; shut = refl; closing = refl }
failure-Keeps (returned x) l e = record { closed = refl; shut = refl; closing = refl }

start-Keeps : (p : Phase) (l : Listener) → KeepsClosing l (at_start p l)
unfolding start_task
start-Keeps accepting l = record { closed = refl; shut = refl; closing = refl }
start-Keeps waiting l = record { closed = refl; shut = refl; closing = refl }
start-Keeps (holding j) l = record { closed = refl; shut = refl; closing = refl }
start-Keeps (returned x) l = record { closed = refl; shut = refl; closing = refl }

wait-Keeps : (p : Phase) (l : Listener) → KeepsClosing l (at_wait p l)
wait-Keeps accepting l = record { closed = refl; shut = refl; closing = refl }
wait-Keeps waiting l =
    if-both (KeepsClosing l) (no_tasks l.tasks) _ l
      (record { closed = refl; shut = refl; closing = refl })
      (record { closed = refl; shut = refl; closing = refl })
wait-Keeps (holding j) l = record { closed = refl; shut = refl; closing = refl }
wait-Keeps (returned x) l = record { closed = refl; shut = refl; closing = refl }

end-Keeps : (l : Listener) (k : ℕ) (e : Option Error) → KeepsClosing l (end_task l k e)
unfolding end_task
end-Keeps l k none = record { closed = refl; shut = refl; closing = refl }
end-Keeps l k (some e) = record { closed = refl; shut = refl; closing = refl }

-- A listener that is closed is not closed again, and every other event but the end of the Close keeps
-- what is closed.
pub other-Keeps :
    (e : Event) (l : Listener) → e ≢ close_ends → l.closed ≡ true → KeepsClosing l (happens e l)
unfolding happens begin_close
other-Keeps (accepts k) l n c = accept-Keeps l.phase l k
other-Keeps (accept_fails e) l n c = failure-Keeps l.phase l e
other-Keeps starts l n c = start-Keeps l.phase l
other-Keeps (task_ends k e) l n c =
    if-both (KeepsClosing l) (among l.tasks k) (end_task l k e) l (end-Keeps l k e)
      (record { closed = refl; shut = refl; closing = refl })
other-Keeps cancels l n c = record { closed = refl; shut = refl; closing = refl }
other-Keeps close_begins l n c =
    rw (if-true _ _ _ c) (record { closed = refl; shut = refl; closing = refl })
other-Keeps close_ends l n c = absurd (n refl)
other-Keeps wait_ends l n c = wait-Keeps l.phase l
other-Keeps (registers k) l n c =
    if-both (KeepsClosing l) (among l.tasks k) _ l
      (record { closed = refl; shut = refl; closing = refl })
      (record { closed = refl; shut = refl; closing = refl })
other-Keeps (unregisters k) l n c = record { closed = refl; shut = refl; closing = refl }

end_close-IsClosing :
    (k : ℕ) (o : Option (List ℕ)) (l : Listener)
    → l.closing ≡ o
    → IsClosing k l
    → IsClosing k (end_close o l)
end_close-IsClosing k none l e v = v
end_close-IsClosing k (some conns) l e v = record {
  is_closed = v.is_closed;
  covered = inl (elim v.covered [
    | inl done ↦ ground arith
    | inr due ↦ let listed : among conns k ≡ true = subst (λ o. IsListed o k) e due in ground arith
  ]);
}

happens-IsClosing : (k : ℕ) (e : Event) (l : Listener) → IsClosing k l → IsClosing k (happens e l)
happens-IsClosing k close_ends l v = unfold happens in end_close-IsClosing k l.closing l refl v
happens-IsClosing k e l v =
    let kept = other-Keeps e l (λ h. ground arith) v.is_closed in
    same-IsClosing k l (happens e l) kept.closed kept.shut kept.closing v

history-IsClosing :
    (k : ℕ) (es : List Event) (l : Listener) → IsClosing k l → IsClosing k (history es l)
unfolding history
history-IsClosing k [] l v = v
history-IsClosing k (e ∷ es) l v = history-IsClosing k es (happens e l) (happens-IsClosing k e l v)

begun-IsClosing :
    (k : ℕ) (l : Listener)
    → l.closed ≡ false
    → among l.conns k ≡ true
    → IsClosing k (happens close_begins l)
unfolding happens begin_close
begun-IsClosing k l c m = ground arith

none_listed : (o : Option (List ℕ)) (k : ℕ) → o ≡ none → IsListed o k → ⊥
none_listed none k e d = d
none_listed (some conns) k e d = cc

-- Every connection that is tracked when the first Close begins is closed once that Close has ended,
-- whatever else happens.
pub close_reaches :
    (l : Listener) (k : ℕ) (es : List Event)
    → l.closed ≡ false
    → among l.conns k ≡ true
    → let t = history es (happens close_begins l) in t.closing ≡ none → t.shut k ≡ true
close_reaches l k es c m done =
    let v = history-IsClosing k es (happens close_begins l) (begun-IsClosing k l c m) in
    elim v.covered [ inl shut ↦ shut | inr due ↦ absurd (none_listed _ k done due) ]
