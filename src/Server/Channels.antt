-- ===== src/Server/Channels.antt =====
-- server/serve.go: how a new connection becomes a channel of a session, and the loops over messages.
pub mod Causes
pub mod Conversation
pub mod Framing
pub mod Initializes
pub mod Outcomes
pub mod Refusals
pub mod Torn
use hislip.Prelude.{
  ℕ, zero, suc, ◌+◌, Bool, true, false, Option, none, some, List, Bytes, [], ◌∷◌, ◌++◌, ◌==◌,
  if◌then◌else◌,
}
use hislip.Prelude.Text.{codes}
use hislip.Errors.{Error, Result, ok, err, err_max_clients, err_invalid_init_sequence, text, ◌>>=◌}
use hislip.Protocol.ErrorCode.{fatal_poorly_formed_header, fatal_invalid_init_sequence}
use hislip.Protocol.MessageType
use hislip.Protocol.MessageType.{Channel, channel_synchronous, channel_asynchronous}
use hislip.Protocol.Header.{Header, no_header}
use hislip.Protocol.Stream.{Stream, close}
use hislip.Protocol.Codec.{Reading, read_header, read_payload, check_length}
use hislip.Server.WireError.{wire_error_for}
use hislip.Server.Locks.Waiting.{Round}
use hislip.Server.Session.{
  Session, Writer, new_writer, set_sync_writer, set_async_writer, set_sync_pending,
}
use hislip.Server.Config.{Config}
use hislip.Server.Device.{Device}
use hislip.Server.Reader.{Message}
use hislip.Server.State.{Counters, State, update, writer_write}
use hislip.Server.Registry.{Registry, initialize, async_initialize, remove_session, replace}
use hislip.Server.Serve.{Handled, handle_sync, handle_async}
use hislip.Server.Reports.{one_fatal}

-- A server between messages: its sessions, locks and connections, and its counters.
pub record Serving : Type 0 where
  pub reg : Registry
  pub counts : Counters

abbrev zeros : ℕ → Bytes
zeros zero = []
zeros (suc n) = 0 ∷ zeros n

abbrev sub_address_read : Reading (Unit {0}) → Result Bytes × Stream
sub_address_read r = elim r.error [ some e ↦ (err e, r.stream) | none ↦ (ok r.scratch, r.stream) ]

abbrev after_check : Result (Unit {0}) → Header → Stream → Result Bytes × Stream
after_check (err e) h s = (err e, s)
after_check (ok _) h s =
    if h.length == 0
    then (ok [], s)
    else sub_address_read (read_payload none h.length (zeros h.length) tt s)

-- readSubAddress: the payload of an Initialize, within the limit.
unfoldable pub read_sub_address : Header → ℕ → Stream → Result Bytes × Stream
unfolding check_length read_payload
read_sub_address h limit s = after_check (check_length h.length limit) h s

abbrev pub with_conns : Serving → (ℕ → Stream) → Serving
with_conns g conns = record g { reg = record (g.reg) { conns = conns } }

abbrev counted : (Counters → Counters) → Serving → Serving
counted f g = record g { counts = f g.counts }

-- WriteFatalError through a fresh writer of the connection, and Close; neither result is looked at.
unfoldable pub refuse : ℕ → ℕ → Bytes → Serving → Serving
unfolding writer_write close
refuse k code description g =
    let w = new_writer k channel_synchronous in
    let h = record no_header { type = MessageType.fatal_error; control = code } in
    let conns = (writer_write g.reg.conns w h description).1 in
    with_conns g (update conns k (close (conns k)).1)

abbrev is_max_clients : Error → Bool
is_max_clients err_max_clients = true
is_max_clients _ = false

abbrev one_refused : Error → Counters → Counters
one_refused e c =
    if is_max_clients e then record c { sessions_refused = c.sessions_refused + 1 } else c

-- The session with its writer, or what is left when the response could not be written.
abbrev pub sync_opened :
    Session → Option Error × (ℕ → Stream) × Writer → Serving → Result Session × Serving
sync_opened sess (some e, conns, w) g =
    (err e, record g { reg = (remove_session (record (g.reg) { conns = conns }) sess).2 })
sync_opened sess (none, conns, w) g =
    let sess' = set_sync_writer sess w in
    (
      ok sess',
      record g {
        reg = record (g.reg) { conns = conns; sessions = replace g.reg.sessions sess' };
        counts = record (g.counts) { sessions_opened = g.counts.sessions_opened + 1 };
      },
    )

abbrev pub initialized :
    ℕ → Result (Session × Header) × Registry → Serving → Result Session × Serving
initialized k (err e, reg) g = (
  err e,
  counted (λ c. one_fatal (one_refused e c))
      (refuse k (wire_error_for e).fatal_code (text e) (record g { reg = reg })),
)
initialized k (ok (sess, resp), reg) g =
    sync_opened sess (writer_write reg.conns (new_writer k channel_synchronous) resp [])
      (record g { reg = reg })

abbrev pub addressed : ℕ → Header → Result Bytes × Stream → Serving → Result Session × Serving
addressed k h (err e, s) g = (
  err e,
  refuse k fatal_poorly_formed_header (codes "bad sub-address")
      (with_conns g (update g.reg.conns k s)),
)
addressed k h (ok sub, s) g =
    let g' = with_conns g (update g.reg.conns k s) in initialized k (initialize g'.reg h sub k) g'

-- serveSyncChannel, up to the loop.
unfoldable pub open_sync : ℕ → Header → Serving → Result Session × Serving
unfolding read_sub_address initialize writer_write remove_session wire_error_for refuse text
open_sync k h g = addressed k h (read_sub_address h g.reg.cfg.max_rx_payload (g.reg.conns k)) g

abbrev pub async_opened :
    Session → Option Error × (ℕ → Stream) × Writer → Serving → Result Session × Serving
async_opened sess (some e, conns, w) g = (err e, with_conns g conns)
async_opened sess (none, conns, w) g =
    let sess' = set_async_writer sess w in
    (
      ok sess',
      record g { reg = record (g.reg) { conns = conns; sessions = replace g.reg.sessions sess' } },
    )

abbrev pub async_initialized :
    ℕ → Result (Session × Header) × Registry → Serving → Result Session × Serving
async_initialized k (err e, reg) g = (
  err e,
  counted one_fatal (refuse k (wire_error_for e).fatal_code (text e) (record g { reg = reg })),
)
async_initialized k (ok (sess, resp), reg) g =
    async_opened sess (writer_write reg.conns (new_writer k channel_asynchronous) resp [])
      (record g { reg = reg })

-- serveAsyncChannel, up to the loop.
unfoldable pub open_async : ℕ → Header → Serving → Result Session × Serving
unfolding async_initialize writer_write wire_error_for refuse text
open_async k h g = async_initialized k (async_initialize g.reg h k) g

abbrev pub by_type : ℕ → Result Header × Stream → Serving → Result Session × Serving
by_type k (err e, s) g = (err e, with_conns g (update g.reg.conns k (close s).1))
by_type k (ok h, s) g =
    let g' = with_conns g (update g.reg.conns k s) in
    if h.type == MessageType.initialize
    then open_sync k h g'
    else if h.type == MessageType.async_initialize
    then open_async k h g'
    else (
      err err_invalid_init_sequence,
      counted one_fatal (
          refuse k fatal_invalid_init_sequence (codes "expected Initialize or AsyncInitialize") g'),
    )

-- Serve, up to the loop: the session that the connection joined, or the error.
unfoldable pub serve : ℕ → Serving → Result Session × Serving
unfolding read_header close open_sync open_async refuse
serve k g = by_type k (read_header (g.reg.conns k)) g

-- What a loop finds when it goes on: its context is done, or a message has come, with what the handler
-- does not decide itself.
pub data SyncTurn : Type 0 where
  sync_done : Error → SyncTurn
  sync_message : (msg : Message) (fuel : ℕ) (queued : Bool) → SyncTurn

pub data AsyncTurn : Type 0 where
  async_done : Error → AsyncTurn
  async_message : (msg : Message) (rounds : List Round) → AsyncTurn

module _ {D : Type 0} where
  -- The loop goes on behind a handler that succeeded.
  abbrev goes_on : Handled D → (State D → Handled D) → Handled D
  goes_on (some (ok _), s) rest = rest s
  goes_on (some (err e), s) rest = (some (err e), s)
  goes_on (none, s) rest = (none, s)

  -- runSync and runAsync, over the turns that the environment gives them; behind the last one the
  -- reader has ended.
  unfoldable pub sync_loop : Device D → Config → List SyncTurn → State D → Handled D
  unfolding handle_sync
  sync_loop dev cfg [] s = (some (ok tt), s)
  sync_loop dev cfg (sync_done e ∷ turns) s = (some (err e), s)
  sync_loop dev cfg (sync_message msg fuel queued ∷ turns) s =
      goes_on (handle_sync dev cfg msg fuel queued s) (λ t. sync_loop dev cfg turns t)

  unfoldable pub run_sync : Device D → Config → List SyncTurn → State D → Handled D
  unfolding sync_loop
  run_sync dev cfg turns s = sync_loop dev cfg turns (record s { sess = set_sync_pending s.sess })

  unfoldable pub run_async : Device D → Config → List AsyncTurn → State D → Handled D
  unfolding handle_async
  run_async dev cfg [] s = (some (ok tt), s)
  run_async dev cfg (async_done e ∷ turns) s = (some (err e), s)
  run_async dev cfg (async_message msg rounds ∷ turns) s =
      goes_on (handle_async dev cfg msg rounds s) (λ t. run_async dev cfg turns t)
