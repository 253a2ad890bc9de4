-- ===== src/Examples/Instrument.antt =====
-- A scripted instrument, and the states of a session that the examples start from.
use hislip.Prelude.{
  ℕ, ◌≤◌, true, false, Option, none, some, List, [], ◌∷◌, ◌++◌, Bytes, length, take, length-take,
  arith,
}
use hislip.Prelude.Int.{pos}
use hislip.Prelude.Text.{codes}
use hislip.Errors.{Error, external, eof, Result, ok, err}
use hislip.Protocol.Version.{version11}
use hislip.Protocol.MessageType.{channel_synchronous, channel_asynchronous}
use hislip.Protocol.Header.{Header, no_header}
use hislip.Protocol.Stream.{Stream}
use hislip.Server.Locks.{no_locks}
use hislip.Server.Policy.{scpi_query, new_policy}
use hislip.Server.Status.{new_status}
use hislip.Server.Transaction.{TxState}
use hislip.Server.Config.{Config}
use hislip.Server.Session.{Session, SessionState, Writer, new_writer}
use hislip.Server.Device.{Device, Chunk}
use hislip.Server.State.{State, no_counts}

-- What it has received, the chunks that it will answer with, the error that its next call gives.
pub record Bench : Type 0 where
  pub received : Bytes
  pub answers : List Chunk
  pub fails : Option Error

abbrev pub next_chunk : List Chunk → ℕ → Bench → Chunk × Bench
next_chunk [] n d = (record { bytes = []; end = false; error = some eof }, d)
next_chunk (c ∷ cs) n d = (record c { bytes = take n c.bytes }, record d { answers = cs })

pub next_fits : (cs : List Chunk) (n : ℕ) (d : Bench) → length (next_chunk cs n d).0.bytes ≤ n
next_fits [] n d = omega arith
next_fits (c ∷ cs) n d = omega (arith, length-take n c.bytes)

abbrev pub status_of : Option Error → Result ℕ
status_of none = ok 0x24
status_of (some e) = err e

abbrev pub bench : Device Bench
bench = record {
  write = λ d p end. (d.fails, record d { received = d.received ++ p });
  read = λ d n. next_chunk d.answers n d;
  clear = λ d. (d.fails, record d { received = [] });
  trigger = λ d. (d.fails, d);
  read_status_byte = λ d. (status_of d.fails, d);
  remote_local = λ d m. (d.fails, d);
  read_fits = λ d n. next_fits d.answers n d;
}

abbrev pub part : Bytes → Chunk
part b = record { bytes = b; end = false; error = none }

abbrev pub last : Bytes → Chunk
last b = record { bytes = b; end = true; error = none }

abbrev pub broken : Chunk
broken = record { bytes = []; end = false; error = some (external (codes "timeout")) }

abbrev pub answering : List Chunk → Bench
answering cs = record { received = []; answers = cs; fails = none }

abbrev pub failing : Bench
failing = record { received = []; answers = []; fails = some (external (codes "no bus")) }

abbrev pub quiet : Stream
quiet = record {
  inbox = [];
  ending = eof;
  written = [];
  outcomes = [];
  closed = false;
  close_error = none;
}

abbrev pub config : Config
config = record {
  sub_addresses = codes "hislip0" ∷ [];
  max_version = version11;
  supports_overlap = false;
  max_sessions = pos 2;
  max_rx_payload = 1024;
  max_tx_payload = 1024;
  policy = some (scpi_query new_policy);
  vendor_id = (b'X', b'Y');
}

abbrev pub sync_writer : Writer
sync_writer = new_writer 0 channel_synchronous

abbrev pub async_writer : Writer
async_writer = new_writer 1 channel_asynchronous

-- A paired session with its writers.
abbrev pub paired : SessionState → TxState → Session
paired state tx = record {
  id = 1;
  version = version11;
  overlap = false;
  state = state;
  sync = some 0;
  async = some 1;
  rmt = record { expected = false };
  status = new_status;
  last_tx = 0xffff_ffff;
  max_rx = 1024;
  max_tx = 1024;
  op_cancel = none;
  next_op = 0;
  cancelled = [];
  tx = record { state = tx; id = 0 };
  sync_w = some sync_writer;
  async_w = some async_writer;
  pending = true;
  policy = some (scpi_query new_policy);
}

abbrev pub at : Bench → SessionState → TxState → State Bench
at d state tx = record {
  dev = d;
  conns = λ k. quiet;
  locks = no_locks;
  counters = no_counts;
  sess = paired state tx;
}

abbrev pub header : ℕ → Header
header t = record no_header { type = t; parameter = 0xffff_ff00 }
