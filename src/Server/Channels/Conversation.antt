-- ===== src/Server/Channels/Conversation.antt =====
-- What goes out on the two connections of a session, whatever comes in on them, as long as the handlers
-- of its two channels run one behind the other. In the source they are tasks of their own, and only the
-- synchronous connection has a single writer: on the asynchronous one a handler of either writes, with
-- no mutex between them (Channels/Torn).
use hislip.Prelude.{ℕ, ◌≡◌, Bool, false, List, [], ◌∷◌, ◌==◌}
use hislip.Protocol.Stream.{Stream}
use hislip.Server.State.{State}
use hislip.Server.Channels.Framing.{IsFramed, IsFramed-IsStable}
use hislip.Server.Locks.Waiting.{Round}
use hislip.Server.Config.{Config}
use hislip.Server.Device.{Device}
use hislip.Server.Reader.{Message}
use hislip.Server.Serve.{handle_sync, handle_async}
use hislip.Server.Serve.SyncKeeps.{handle_sync-P}
use hislip.Server.Serve.AsyncKeeps.{handle_async-P}

-- A message that one of the two loops handles.
pub data Turn : Type 0 where
  sync_turn : (msg : Message) (fuel : ℕ) (queued : Bool) → Turn
  async_turn : (msg : Message) (rounds : List Round) → Turn

module _ {D : Type 0} where
  unfoldable pub turn : Device D → Config → Turn → State D → State D
  unfolding handle_sync handle_async
  turn dev cfg (sync_turn msg fuel queued) s = (handle_sync dev cfg msg fuel queued s).1
  turn dev cfg (async_turn msg rounds) s = (handle_async dev cfg msg rounds s).1

  -- The messages of both channels, in the order in which they are handled, none before the handler of
  -- the one before has returned.
  unfoldable pub turns : Device D → Config → List Turn → State D → State D
  unfolding turn
  turns dev cfg [] s = s
  turns dev cfg (t ∷ ts) s = turns dev cfg ts (turn dev cfg t s)

  turn-IsFramed :
      (dev : Device D) (cfg : Config) (t : Turn) (k l : ℕ) (f : ℕ → Stream) (s : State D)
      → (k == l) ≡ false
      → IsFramed k l f s
      → IsFramed k l f (turn dev cfg t s)
  unfolding turn
  turn-IsFramed dev cfg (sync_turn msg fuel queued) k l f s apart o =
      handle_sync-P (IsFramed-IsStable k l f apart) dev cfg msg fuel queued s o
  turn-IsFramed dev cfg (async_turn msg rounds) k l f s apart o =
      handle_async-P (IsFramed-IsStable k l f apart) dev cfg msg rounds s o

  turns-IsFramed :
      (dev : Device D) (cfg : Config) (ts : List Turn) (k l : ℕ) (f : ℕ → Stream) (s : State D)
      → (k == l) ≡ false
      → IsFramed k l f s
      → IsFramed k l f (turns dev cfg ts s)
  unfolding turns
  turns-IsFramed dev cfg [] k l f s apart o = o
  turns-IsFramed dev cfg (t ∷ ts) k l f s apart o =
      turns-IsFramed dev cfg ts k l f (turn dev cfg t s) apart
        (turn-IsFramed dev cfg t k l f s apart o)

  -- A session whose two writers write on different connections that take every write, and whose handlers
  -- do not run at the same time, which the source does not ensure: whatever messages come on its two
  -- channels, in whatever order they are handled and however the instrument behaves, what goes out on
  -- each connection stays a sequence of whole messages, each legal on its channel, and no other
  -- connection is touched.
  pub session-IsFramed :
      (dev : Device D) (cfg : Config) (ts : List Turn) (k l : ℕ) (s : State D)
      → (k == l) ≡ false
      → IsFramed k l s.conns s
      → IsFramed k l s.conns (turns dev cfg ts s)
  session-IsFramed dev cfg ts k l s apart o = turns-IsFramed dev cfg ts k l s.conns s apart o
