-- ===== src/Server/State.antt =====
-- What the handlers of one session work on, and the writers of server/writer.go: the state of the
-- server and of the session, passed from step to step.
pub mod Keeps
pub mod Sends
use hislip.Prelude.{
  ℕ, suc, ◌+◌, ◌%◌, ◌^◌, Bool, true, false, not, Option, none, some, List, [], ◌∷◌, ◌++◌, Bytes,
  length, ◌==◌, if◌then◌else◌,
}
use hislip.Errors.{Error, Result, ok, err, err_wrong_channel, nil_dereference}
use hislip.Protocol.MessageType
use hislip.Protocol.MessageType.{legal_on, channel_synchronous, channel_asynchronous}
use hislip.Protocol.Header.{Header, header_size, no_header}
use hislip.Protocol.Stream.{Stream}
use hislip.Protocol.Codec.{write_message}
use hislip.Server.Locks.{LockManager}
use hislip.Server.Session.{Session, Writer}

-- The counters of server/serve.go. They are 64 bits wide, and are taken not to overflow.
pub record Counters : Type 0 where
  pub sessions_opened : ℕ
  pub sessions_refused : ℕ
  pub fatal_errors : ℕ
  pub non_fatal_errors : ℕ
  pub wrong_channel : ℕ
  pub silent_interrupted : ℕ
  pub interrupted_sent : ℕ
  pub queries_without_answer : ℕ
  pub truncated_responses : ℕ
  pub device_clears : ℕ
  pub triggers : ℕ
  pub serial_polls : ℕ
  pub service_requests : ℕ
  pub oversized_messages : ℕ

abbrev pub no_counts : Counters
no_counts = record {
  sessions_opened = 0;
  sessions_refused = 0;
  fatal_errors = 0;
  non_fatal_errors = 0;
  wrong_channel = 0;
  silent_interrupted = 0;
  interrupted_sent = 0;
  queries_without_answer = 0;
  truncated_responses = 0;
  device_clears = 0;
  triggers = 0;
  serial_polls = 0;
  service_requests = 0;
  oversized_messages = 0;
}

-- The instrument's state, the transport connections, and what the server and the session keep.
pub record State (D : Type 0) : Type 0 where
  pub dev : D
  pub conns : ℕ → Stream
  pub locks : LockManager
  pub counters : Counters
  pub sess : Session

-- A step that may fail keeps the changes that it made before.
abbrev pub M : Type 0 → Type 0 → Type 0
M D A = State D → Result A × State D

abbrev pub and_then : {D A B : Type 0} → Result A × State D → (A → M D B) → Result B × State D
and_then (ok a, s) f = f a s
and_then (err e, s) f = (err e, s)

infixl 5 ◌>>=◌ ◌>>◌
abbrev pub ◌>>=◌ : {D A B : Type 0} → M D A → (A → M D B) → M D B
◌>>=◌ m f s = and_then (m s) f

abbrev pub ◌>>◌ : {D B : Type 0} → M D (Unit {0}) → M D B → M D B
m >> k = m >>= λ _. k

module _ {D : Type 0} where
  abbrev pub pure : {A : Type 0} → A → M D A
  pure a s = (ok a, s)

  abbrev pub fail : {A : Type 0} → Error → M D A
  fail e s = (err e, s)

  abbrev pub get_session : M D Session
  get_session s = (ok s.sess, s)

  -- A change of the session.
  abbrev pub change : (Session → Session) → M D (Unit {0})
  change f s = (ok tt, record s { sess = f s.sess })

  abbrev pub count : (Counters → Counters) → M D (Unit {0})
  count f s = (ok tt, record s { counters = f s.counters })

  -- A step on a part of the session that may refuse.
  abbrev pub lift : {A : Type 0} → Result A → M D A
  lift r s = (r, s)

-- `f[k] = v`
abbrev pub update : (ℕ → Stream) → ℕ → Stream → ℕ → Stream
update f k v j = if k == j then v else f j

-- MessageWriter.Write on a connection: the error, the connections, and the bytes it counts.
abbrev pub written_more :
    Option Error × Stream → (ℕ → Stream) → Writer → Bytes → Option Error × (ℕ → Stream) × Writer
written_more (some e, s) conns w payload = (some e, update conns w.conn s, w)
written_more (none, s) conns w payload = (
  none,
  update conns w.conn s,
  record w { written = (w.written + header_size + length payload) % 2 ^ 64 },
)

unfoldable pub writer_write :
    (ℕ → Stream) → Writer → Header → Bytes → Option Error × (ℕ → Stream) × Writer
unfolding legal_on write_message
writer_write conns w h payload =
    if not (legal_on h.type w.channel)
    then (some err_wrong_channel, conns, w)
    else written_more (write_message (conns w.conn) h payload) conns w payload

-- Which of the session's two writers.
pub data Side : Type 0 where
  on_sync on_async : Side

abbrev pub writer_of : Side → Session → Option Writer
writer_of on_sync s = s.sync_w
writer_of on_async s = s.async_w

abbrev pub with_writer : Side → Session → Writer → Session
with_writer on_sync s w = record s { sync_w = some w }
with_writer on_async s w = record s { async_w = some w }

abbrev to_result : Option Error → Result (Unit {0})
to_result none = ok tt
to_result (some e) = err e

module _ {D : Type 0} where
  abbrev write_with : Side → Option Writer → Header → Bytes → M D (Unit {0})
  write_with side none h payload s = (err nil_dereference, s)
  write_with side (some w) h payload s =
      let r = writer_write s.conns w h payload in
      (to_result r.0, record s { conns = r.1; sess = with_writer side s.sess r.2 })

  -- Write through the session's writer of one side. A writer that is not there would be a nil
  -- dereference in the source.
  unfoldable pub send : Side → Header → Bytes → M D (Unit {0})
  unfolding writer_write
  send side h payload s = write_with side (writer_of side s.sess) h payload s

  -- WriteError and WriteFatalError.
  unfoldable pub send_error : Side → ℕ → Bytes → M D (Unit {0})
  unfolding send
  send_error side code description =
      send side (record no_header { type = MessageType.error; control = code }) description

  unfoldable pub send_fatal_error : Side → ℕ → Bytes → M D (Unit {0})
  unfolding send
  send_fatal_error side code description =
      send side (record no_header { type = MessageType.fatal_error; control = code }) description
