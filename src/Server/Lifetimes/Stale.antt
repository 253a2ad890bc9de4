-- ===== src/Server/Lifetimes/Stale.antt =====
-- server/server.go: a removal that comes when the session's ID is another session's.
use hislip.Prelude.{ℕ, ◌≡◌, false, ==-self, arith}
use hislip.Server.Locks.{held}
use hislip.Server.Locks.Invariant.{held-release_all}
use hislip.Server.Session.{Session}
use hislip.Server.Registry.{Registry, in_use, close_streams, remove_session}
use hislip.Server.Registry.Invariant.{in_use-remove}
use hislip.Server.Registry.Owners.{owns}

-- Whatever session is registered under the ID of the session that is removed: the ID is not in use any
-- more, it holds no lock, and a connection that was not the removed session's is as it was.
pub stale_removal :
    (g : Registry) (old : Session) (k : ℕ)
    → owns old k ≡ false
    → let r = (remove_session g old).2 in
      (in_use r.sessions old.id ≡ false) × (held r.locks old.id ≡ false) × (r.conns k ≡ g.conns k)
unfolding remove_session close_streams
stale_removal g old k o = ground (
  arith,
  in_use-remove g.sessions old.id old.id,
  held-release_all g.locks old.id old.id,
  ==-self old.id,
)
