-- ===== src/Server/Lifetimes.antt =====
-- server/serve.go, server/server.go: the connections of a server from their first message to their end.
-- Serve runs for each connection in a task of its own, so what they do to the registry comes in any
-- order; each of the steps below is made under the server's mutex, or by one connection on its own
-- streams.
pub mod Valid
pub mod Writes
pub mod Stale
pub mod Accounts
use hislip.Prelude.{ℕ, ◌≡◌, ◌⊎◌, false, some, List, [], ◌∷◌}
use hislip.Server.Locks.Invariant.{LockCall, lock_call}
use hislip.Server.Session.{Session}
use hislip.Server.Registry.{session, in_use, remove_session, close_all}
use hislip.Server.Channels.{Serving, serve}

-- A connection is set up; the synchronous loop of a session ends; CloseAll is called; a handler asks for a lock or gives one up.
pub data Event : Type 0 where
  connects : ℕ → Event
  leaves : Session → Event
  closes_all : Event
  calls : LockCall → Event

-- The deferred call of removeSession behind the synchronous loop, with the session that the loop holds. It
-- runs whatever the server has under that session's ID by then.
unfoldable pub leave : Session → Serving → Serving
unfolding remove_session
leave sess g = record g { reg = (remove_session g.reg sess).2 }

-- The server has that session under its ID, or none: its loop did not end so late behind a CloseAll that
-- the ID is another session's.
abbrev pub IsTimely : Session → List Session → Type 0
IsTimely sess sessions = (session sessions sess.id ≡ some sess) ⊎ (in_use sessions sess.id ≡ false)

unfoldable pub happens : Event → Serving → Serving
unfolding serve leave close_all lock_call
happens (connects k) g = (serve k g).1
happens (leaves sess) g = leave sess g
happens closes_all g = record g { reg = (close_all g.reg).1 }
happens (calls c) g = record g { reg = record (g.reg) { locks = lock_call g.reg.locks c } }

unfoldable pub history : List Event → Serving → Serving
unfolding happens
history [] g = g
history (e ∷ es) g = history es (happens e g)

-- Every session of the history that leaves does so in time.
abbrev pub AllTimely : List Event → Serving → Type 0
AllTimely [] g = Unit {0}
AllTimely (leaves sess ∷ es) g = IsTimely sess g.reg.sessions × AllTimely es (leave sess g)
AllTimely (e ∷ es) g = AllTimely es (happens e g)
