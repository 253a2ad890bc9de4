-- ===== src/Server/Registry.antt =====
-- server/server.go and server/initialize.go: the sessions of a server, and how they come and go.
-- `sessions` lists the values of the map; a session's key is its ID.
pub mod Ids
pub mod Pairing
pub mod Invariant
pub mod Owners
use hislip.Prelude.{
  ℕ, zero, suc, ◌+◌, ◌*◌, ◌%◌, ◌^◌, Bool, true, false, not, ◌&&◌, ◌||◌, Option, none, some, List,
  [], ◌∷◌, Bytes, length, leb, ltb, ◌==◌, if◌then◌else◌,
}
use hislip.Prelude.Int.{ℤ, pos, negsuc}
use hislip.Errors.{
  Error, Result, ok, err, err_max_clients, err_invalid_init_sequence, err_wrong_channel,
  err_invalid_sub_address, err_protocol_version, err_invalid_session, ◌>>=◌, ◌>>◌, fail_if,
}
use hislip.Protocol.Version.{
  Version, version10, less, negotiate, decode_initialize_parameter,
  encode_initialize_response_parameter,
}
use hislip.Protocol.MessageType
use hislip.Protocol.MessageType.{legal_on, channel_synchronous, channel_asynchronous}
use hislip.Protocol.Header.{Header, no_header}
use hislip.Protocol.Stream.{Stream, close}
use hislip.Server.Locks.{LockManager, no_locks, release_all}
use hislip.Server.Policy.{Policy, scpi_query, new_policy}
use hislip.Server.Session.{Session, new_session, attach_async, close_session}
use hislip.Server.Config.{Config, with_defaults, validate, accepts_sub_address, prefer_overlap_bit}
use hislip.Server.State.{update}

pub record Registry : Type 0 where
  pub cfg : Config
  pub sessions : List Session
  pub next_id : ℕ
  pub locks : LockManager
  pub conns : ℕ → Stream

abbrev policy_or_default : Option Policy → Option Policy
policy_or_default none = some (scpi_query new_policy)
policy_or_default (some p) = some p

-- New, for a device that is there.
unfoldable pub new_server : Config → (ℕ → Stream) → Result Registry
unfolding with_defaults validate
new_server c conns = do
  let cfg = with_defaults c
  validate cfg
  ok (record {
    cfg = record cfg { policy = policy_or_default cfg.policy };
    sessions = [];
    next_id = 1;
    locks = no_locks;
    conns = conns;
  })

-- `s.sessions[id]`
abbrev pub session : List Session → ℕ → Option Session
session [] id = none
session (x ∷ xs) id = if x.id == id then some x else session xs id

abbrev pub in_use : List Session → ℕ → Bool
in_use [] id = false
in_use (x ∷ xs) id = x.id == id || in_use xs id

-- `s.nextID++`, where zero is skipped.
abbrev pub following : ℕ → ℕ
following n = if (n + 1) % 2 ^ 16 == 0 then 1 else (n + 1) % 2 ^ 16

-- The loop of allocateIDLocked over the rounds left: the ID found, and the next ID to try.
unfoldable pub scan_ids : ℕ → List Session → ℕ → Option ℕ × ℕ
scan_ids zero sessions next = (none, next)
scan_ids (suc rounds) sessions next =
    let rest = scan_ids rounds sessions (following next) in
    if not (in_use sessions next) && not (next == 0) then (some next, following next) else rest

unfoldable pub allocate_id : List Session → ℕ → Option ℕ × ℕ
unfolding scan_ids
allocate_id sessions next = scan_ids (2 ^ 16) sessions next

-- `n >= m` for an int `m`.
abbrev pub at_least : ℕ → ℤ → Bool
at_least n (pos m) = leb m n
at_least n (negsuc m) = true

abbrev pub add_session : Registry → Version → ℕ → Option ℕ × ℕ → Result Session × Registry
add_session g version stream (none, next) = (err err_max_clients, record g { next_id = next })
add_session g version stream (some id, next) =
    let sess = record (new_session id version stream g.cfg) { policy = g.cfg.policy } in
    (ok sess, record g { sessions = sess ∷ g.sessions; next_id = next })

unfoldable pub allocate_session : Registry → Version → ℕ → Result Session × Registry
unfolding new_session
allocate_session g version stream =
    if at_least (length g.sessions) g.cfg.max_sessions
    then (err err_max_clients, g)
    else add_session g version stream (allocate_id g.sessions g.next_id)

-- What Initialize tests before it allocates: the version that it negotiates.
unfoldable pub check_initialize : Config → Header → Bytes → Result Version
unfolding legal_on accepts_sub_address less negotiate decode_initialize_parameter
check_initialize cfg h sub_address = do
  fail_if (not (h.type == MessageType.initialize)) err_invalid_init_sequence
  fail_if (not (legal_on h.type channel_synchronous)) err_wrong_channel
  fail_if (not (accepts_sub_address cfg sub_address)) err_invalid_sub_address
  let client_version = (decode_initialize_parameter h.parameter).0
  fail_if (less client_version version10) err_protocol_version
  ok (negotiate client_version cfg.max_version)

abbrev pub respond_initialize :
    Config → Version → Result Session × Registry → Result (Session × Header) × Registry
respond_initialize cfg negotiated (err e, g) = (err e, g)
respond_initialize cfg negotiated (ok sess, g) = (
  ok (
    sess,
    record no_header {
      type = MessageType.initialize_response;
      control = prefer_overlap_bit cfg;
      parameter = encode_initialize_response_parameter negotiated sess.id;
    },
  ),
  g,
)

abbrev pub initialize_checked : Result Version → Registry → ℕ → Result (Session × Header) × Registry
initialize_checked (err e) g stream = (err e, g)
initialize_checked (ok negotiated) g stream =
    respond_initialize g.cfg negotiated (allocate_session g negotiated stream)

-- Server.Initialize.
unfoldable pub initialize : Registry → Header → Bytes → ℕ → Result (Session × Header) × Registry
unfolding check_initialize allocate_session prefer_overlap_bit encode_initialize_response_parameter
initialize g h sub_address stream =
    initialize_checked (check_initialize g.cfg h sub_address) g stream

-- The session with an ID, changed in place.
abbrev pub replace : List Session → Session → List Session
replace [] s = []
replace (x ∷ xs) s = let rest = replace xs s in if x.id == s.id then s ∷ xs else x ∷ rest

-- asyncInitializeResponse. The control code is zero for every version.
unfoldable pub async_initialize_response : Config → Header
async_initialize_response cfg = record no_header {
  type = MessageType.async_initialize_response;
  parameter = cfg.vendor_id.0 * 2 ^ 8 + cfg.vendor_id.1;
}

abbrev pub attach_result : Registry → Result Session → Result (Session × Header) × Registry
attach_result g (err e) = (err e, g)
attach_result g (ok sess) =
    (ok (sess, async_initialize_response g.cfg), record g { sessions = replace g.sessions sess })

abbrev pub attach_found : Registry → Option Session → ℕ → Result (Session × Header) × Registry
attach_found g none stream = (err err_invalid_session, g)
attach_found g (some sess) stream = attach_result g (attach_async sess stream)

-- Server.AsyncInitialize.
unfoldable pub async_initialize : Registry → Header → ℕ → Result (Session × Header) × Registry
unfolding legal_on attach_async async_initialize_response
async_initialize g h stream =
    if not (h.type == MessageType.async_initialize)
    then (err err_invalid_init_sequence, g)
    else if not (legal_on h.type channel_asynchronous)
    then (err err_wrong_channel, g)
    else attach_found g (session g.sessions (h.parameter % 2 ^ 16)) stream

-- `delete(s.sessions, id)`
abbrev pub remove : List Session → ℕ → List Session
remove [] id = []
remove (x ∷ xs) id = let rest = remove xs id in if x.id == id then rest else x ∷ rest

-- Closing one of a session's streams; the first error counts.
abbrev close_stream : Option ℕ → Option Error × (ℕ → Stream) → Option Error × (ℕ → Stream)
close_stream none r = r
close_stream (some k) (none, conns) = let (e, s) = close (conns k) in (e, update conns k s)
close_stream (some k) (some e, conns) = let (_, s) = close (conns k) in (some e, update conns k s)

-- Session.close: both streams are closed, the synchronous one first.
unfoldable pub close_streams : Session → (ℕ → Stream) → Option Error × (ℕ → Stream)
unfolding close
close_streams sess conns = close_stream sess.async (close_stream sess.sync (none, conns))

-- removeSession: the locks, the map, the session.
unfoldable pub remove_session : Registry → Session → Option Error × Session × Registry
unfolding release_all close_session close_streams
remove_session g sess =
    let (e, conns) = close_streams sess g.conns in
    (
      e,
      close_session sess,
      record g {
        locks = release_all g.locks sess.id;
        sessions = remove g.sessions sess.id;
        conns = conns;
      },
    )

abbrev first_error : Option Error → Option Error → Option Error
first_error none e = e
first_error (some x) e = some x

abbrev pub close_each :
    List Session
    → Option Error × LockManager × (ℕ → Stream)
    → Option Error × LockManager × (ℕ → Stream)
close_each [] r = r
close_each (x ∷ xs) (e, locks, conns) =
    let (e', conns') = close_streams x conns in
    close_each xs (first_error e e', release_all locks x.id, conns')

-- CloseAll, over the sessions in the order of the list.
unfoldable pub close_all : Registry → Option Error × Registry
unfolding release_all close_streams
close_all g =
    let (e, locks, conns) = close_each g.sessions (none, g.locks, g.conns) in
    (e, record g { sessions = []; locks = locks; conns = conns })
