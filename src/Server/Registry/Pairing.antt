-- ===== src/Server/Registry/Pairing.antt =====
-- How sessions come, are paired and go.
use hislip.Prelude.{
  ℕ, ◌%◌, ◌^◌, ◌<◌, ◌≡◌, ◌≢◌, refl, ap, ◌∙◌, sym, inl, inr, true, false, Option, none, some, List,
  [], ◌∷◌, length, ◌==◌, if◌then◌else◌, Bool-cases, if-false, arith,
}
use hislip.Errors.{Error, Result, ok, err, err_invalid_session, err_max_clients}
use hislip.Protocol.Version.{Version}
use hislip.Protocol.MessageType
use hislip.Protocol.MessageType.{legal_on, channel_asynchronous}
use hislip.Protocol.Header.{Header}
use hislip.Server.Locks.{held}
use hislip.Server.Locks.Invariant.{held-release_all}
use hislip.Server.Session.{
  Session, new_session, close_session, attach_async, state_pairing, state_ready,
}
use hislip.Server.Registry.{
  Registry, session, in_use, replace, remove, allocate_session, allocate_id, at_least,
  async_initialize, remove_session, add_session,
}
use hislip.Server.Registry.Ids.{allocate_id-fresh}

pub session-in_use : (xs : List Session) (id : ℕ) → in_use xs id ≡ false → session xs id ≡ none
session-in_use [] id h = refl
session-in_use (x ∷ xs) id h = ground (arith, session-in_use xs id)

-- The session that is added has the ID that was allocated.
added :
    (g : Registry) (version : Version) (stream : ℕ) (found : Option ℕ × ℕ) (sess : Session)
    → (add_session g version stream found).0 ≡ ok sess
    → (found ≡ (some sess.id, found.1))
      × (sess.state ≡ state_pairing)
      × (sess.sync ≡ some stream)
      × ((add_session g version stream found).1.sessions ≡ sess ∷ g.sessions)
unfolding new_session
added g version stream (none, next) sess e = ground arith
added g version stream (some id, next) sess e = ground arith

refused_add :
    (g : Registry) (version : Version) (stream : ℕ) (found : Option ℕ × ℕ) (x : Error)
    → (add_session g version stream found).0 ≡ err x
    → (x ≡ err_max_clients) × ((add_session g version stream found).1.sessions ≡ g.sessions)
refused_add g version stream (none, next) x e = ground arith
refused_add g version stream (some id, next) x e = ground arith

-- An allocation within the limit gives a session with a nonzero 16-bit ID that no other session has, in
-- the pairing state; it is found under that ID, the other sessions are as they were, and there is one
-- more of them. Beyond the limit, or without a free ID, the error is that of too many clients and the
-- sessions are as they were.
pub allocate_session_lem :
    (g : Registry) (version : Version) (stream : ℕ)
    → 0 < g.next_id
    → g.next_id < 2 ^ 16
    → ((sess : Session)
        → (allocate_session g version stream).0 ≡ ok sess
        → (in_use g.sessions sess.id ≡ false)
          × (0 < sess.id)
          × (sess.id < 2 ^ 16)
          × (sess.state ≡ state_pairing)
          × (sess.sync ≡ some stream)
          × ((allocate_session g version stream).1.sessions ≡ sess ∷ g.sessions)
          × (at_least (length g.sessions) g.cfg.max_sessions ≡ false))
      × ((e : Error)
          → (allocate_session g version stream).0 ≡ err e
          → (e ≡ err_max_clients) × ((allocate_session g version stream).1.sessions ≡ g.sessions))
unfolding allocate_session
allocate_session_lem g version stream p h =
    let found = allocate_id g.sessions g.next_id in
    elim (Bool-cases (at_least (length g.sessions) g.cfg.max_sessions)) [
      | inl full ↦ (λ sess e. ground arith, λ x e. ground arith)
      | inr room ↦ (
        λ sess e.
            let a =
              added g version stream found sess
                (ap (λ (y : Result Session × Registry). y.0) (sym (if-false _ _ _ room)) ∙ e) in
            let f = (allocate_id-fresh g.sessions g.next_id p h).0 sess.id found.1 a.0 in
            ground arith,
        λ x e. ground (arith, refused_add g version stream found x),
      )
    ]

pub session-replace :
    (xs : List Session) (s : Session) (id : ℕ)
    → session (replace xs s) id
      ≡ (if s.id == id then (if in_use xs id then some s else none) else session xs id)
session-replace [] s id = ground arith
session-replace (x ∷ xs) s id = ground (arith, session-replace xs s id)

pub session-id :
    (xs : List Session) (id : ℕ) (s : Session)
    → session xs id ≡ some s
    → (s.id ≡ id) × (in_use xs id ≡ true)
session-id [] id s e = ground arith
session-id (x ∷ xs) id s e = ground (arith, session-id xs id s)

-- The asynchronous channel joins the session that its header names, if that is being paired: the session
-- becomes ready with this channel and no other session changes. A session that is already paired
-- refuses a second channel, as does an ID that is no session's, and nothing changes.
pub async_initialize-pairs :
    (g : Registry) (h : Header) (stream : ℕ)
    → h.type ≡ MessageType.async_initialize
    → let id = h.parameter % 2 ^ 16 in
      let r = async_initialize g h stream in
      ((s : Session)
        → session g.sessions id ≡ some s
        → s.state ≡ state_pairing
        → s.async ≡ none
        → (session (r.1.sessions) id ≡ some (record s { async = some stream; state = state_ready }))
          × ((other : ℕ) → other ≢ id → session (r.1.sessions) other ≡ session g.sessions other))
      × ((s : Session)
          → session g.sessions id ≡ some s
          → s.state ≢ state_pairing
          → r ≡ (err err_invalid_session, g))
      × (session g.sessions id ≡ none → r ≡ (err err_invalid_session, g))
unfolding async_initialize attach_async legal_on
async_initialize-pairs g h stream t =
    let id = h.parameter % 2 ^ 16 in
    (
      λ s f st no.
          let here = session-id g.sessions id s f in
          let s' = record s { async = some stream; state = state_ready } in
          (
            ground (arith, session-replace g.sessions s' id),
            λ other ne. ground (arith, session-replace g.sessions s' other),
          ),
      λ s f st. ground arith,
      λ f. ground arith,
    )

session-remove :
    (xs : List Session) (id other : ℕ)
    → session (remove xs id) other ≡ (if id == other then none else session xs other)
session-remove [] id other = ground arith
session-remove (x ∷ xs) id other = ground (arith, session-remove xs id other)

-- Removing a session takes it out of the map and all its locks with it; the other sessions and their
-- locks stay, and both its streams are forgotten.
pub remove_session_lem :
    (g : Registry) (sess : Session) (other : ℕ)
    → let r = remove_session g sess in
      (session r.2.sessions other ≡ (if sess.id == other then none else session g.sessions other))
      × (held r.2.locks other ≡ (if sess.id == other then false else held g.locks other))
      × (r.1.sync ≡ none)
      × (r.1.async ≡ none)
unfolding remove_session
remove_session_lem g sess other = (
  session-remove g.sessions sess.id other,
  held-release_all g.locks sess.id other,
  unfold close_session in refl,
  unfold close_session in refl,
)
