-- ===== src/Listener/Late.antt =====
-- A connection that Accept has given but that is not tracked yet when the listener is closed.
use hislip.Prelude.{
  ℕ, ◌≡◌, ◌≢◌, refl, ap, ◌∙◌, sym, subst, inl, inr, Bool, true, false, Option, none, some, List, [],
  ◌∷◌, if-false, arith,
}
use hislip.Listener.{
  holding, returned, Listener, among, begin_close, Event, close_begins, close_ends, happens,
  history, end_close,
}
use hislip.Listener.Closes.{other-Keeps}
use hislip.Listener.Lives.{Lives, Unregistered, Spares, happens-Lives, happens-Unregistered}

abbrev IsUnlisted : Option (List ℕ) → ℕ → Type 0
IsUnlisted none k = Unit {0}
IsUnlisted (some conns) k = among conns k ≡ false

record IsLate (k : ℕ) (l : Listener) : Type 0 where
  is_closed : l.closed ≡ true
  left_open : l.shut k ≡ false
  unlisted : IsUnlisted l.closing k
  unregistered : Unregistered k l
  lives : Lives k l

end_close-IsLate :
    (k : ℕ) (o : Option (List ℕ)) (l : Listener)
    → l.closing ≡ o
    → IsLate k l
    → IsLate k (end_close o l)
end_close-IsLate k none l e v = v
end_close-IsLate k (some conns) l e v =
    let other : among conns k ≡ false = subst (λ o. IsUnlisted o k) e v.unlisted in
    let open_ = v.left_open in
    let free : among l.registered k ≡ false = elim v.unregistered [
      | inl done ↦ ground (arith, done, e)
      | inr free ↦ free
    ] in
    record {
      is_closed = v.is_closed;
      left_open = ground arith;
      unlisted = tt;
      unregistered = inl refl;
      lives = v.lives;
    }

happens-IsLate :
    (k : ℕ) (e : Event) (l : Listener) → Spares k e l → IsLate k l → IsLate k (happens e l)
happens-IsLate k close_ends l s v = unfold happens in end_close-IsLate k l.closing l refl v
happens-IsLate k e l s v =
    let kept = other-Keeps e l (λ h. ground arith) v.is_closed in
    record {
      is_closed = kept.closed ∙ v.is_closed;
      left_open = ap (λ (f : ℕ → Bool). f k) kept.shut ∙ v.left_open;
      unlisted = subst (λ o. IsUnlisted o k) (sym kept.closing) v.unlisted;
      unregistered = happens-Unregistered k e l (λ h. ground arith) v.is_closed s v.unregistered;
      lives = happens-Lives k e l s v.is_closed v.lives;
    }

abbrev pub AllSpare : ℕ → List Event → Listener → Type 0
AllSpare k [] l = Unit
AllSpare k (e ∷ es) l = Spares k e l × AllSpare k es (happens e l)

history-IsLate :
    (k : ℕ) (es : List Event) (l : Listener)
    → AllSpare k es l
    → IsLate k l
    → IsLate k (history es l)
unfolding history
history-IsLate k [] l s v = v
history-IsLate k (e ∷ es) l s v = history-IsLate k es (happens e l) s.1 (happens-IsLate k e l s.0 v)

begun-IsLate :
    (k : ℕ) (l : Listener)
    → l.phase ≡ holding k
    → l.closed ≡ false
    → among l.conns k ≡ false
    → among l.registered k ≡ false
    → l.shut k ≡ false
    → IsLate k (happens close_begins l)
unfolding happens begin_close
begun-IsLate k l p c m r o =
    rw (if-false _ _ _ c) (record {
      is_closed = refl;
      left_open = o;
      unlisted = m;
      unregistered = inr r;
      lives = inl p;
    })

-- If the listener is closed between an Accept and the tracking of the new connection that it gave, one
-- that is not tracked, not closed and no session's, and the connection does not join a session while that
-- Close is under way, whose CloseAll would close it, then no Close ever closes that connection, and Serve
-- does not return nil, until the connection's own Serve ends, whatever else happens, and though it may
-- join a session behind that Close. Once it is tracked its task runs.
pub late_connection :
    (k : ℕ) (l : Listener) (es : List Event)
    → l.phase ≡ holding k
    → l.closed ≡ false
    → among l.conns k ≡ false
    → among l.registered k ≡ false
    → l.shut k ≡ false
    → AllSpare k es (happens close_begins l)
    → let t = history es (happens close_begins l) in
      (t.shut k ≡ false)
      × (t.phase ≢ returned none)
      × (t.phase ≢ holding k → among t.tasks k ≡ true)
late_connection k l es p c m r o s =
    let v = history-IsLate k es (happens close_begins l) s (begun-IsLate k l p c m r o) in
    (
      v.left_open,
      elim v.lives [ inl h ↦ λ r. ground (arith, h, r) | inr a ↦ a.1 ],
      elim v.lives [ inl h ↦ λ ne. absurd (ne h) | inr a ↦ λ ne. a.0 ],
    )
