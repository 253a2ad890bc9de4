-- ===== src/Server/Reader/Pool.antt =====
-- server/reader.go: the pool of buffers and the queue between a channel's reading task and its loop. The
-- two run side by side; an event is a step of one of them, up to where it would wait. A buffer is named
-- by a number, and `mem` holds what is in it, so that a message's payload is a slice of its buffer.
pub mod Owned
pub mod Order
use hislip.Prelude.{
  ℕ, zero, suc, ◌+◌, ◌<◌, Bool, true, false, not, ◌&&◌, ◌||◌, Option, none, some, List, [], ◌∷◌,
  ◌++◌, Bytes, length, take, drop, ltb, ◌==◌, if◌then◌else◌,
}
use hislip.Errors.{Error}
use hislip.Protocol.Stream.{Stream}
use hislip.Server.Reader.{Message, read_one, ends}

abbrev pub read_ahead_slots : ℕ
read_ahead_slots = 2

-- A message with its buffer. `message.payload` is what the payload was when it was read; what the
-- handler sees is the slice.
pub record Slot : Type 0 where
  pub message : Message
  pub buf : ℕ

-- The reading task: it waits for a buffer, or has a message to send, or has closed the queue.
pub data Stage : Type 0 where
  at_free finished : Stage
  sending : Slot → Stage

-- `free` and `msgs` are the two channels, oldest first, and `held` is the message that the loop works
-- on. `delivered` are the messages as the loop saw them, `used` the contents of the buffers that were
-- taken for reading.
pub record Pool : Type 0 where
  pub free : List ℕ
  pub msgs : List Slot
  pub done : Bool
  pub stage : Stage
  pub held : Option Slot
  pub mem : ℕ → Bytes
  pub stream : Stream
  pub delivered : List Message
  pub used : List Bytes

abbrev zeros : ℕ → Bytes
zeros zero = []
zeros (suc n) = 0 ∷ zeros n

-- newReader: two buffers of `limit` bytes.
unfoldable pub new_reader : Stream → ℕ → Pool
new_reader s limit = record {
  free = 0 ∷ 1 ∷ [];
  msgs = [];
  done = false;
  stage = at_free;
  held = none;
  mem = λ b. zeros limit;
  stream = s;
  delivered = [];
  used = [];
}

abbrev pub put : (ℕ → Bytes) → ℕ → Bytes → ℕ → Bytes
put mem b content c = if b == c then content else mem c

-- A buffer behind a read: the payload in front of what was there; where the read gave an error, bytes
-- of the stream that the model does not fix.
abbrev pub refilled : Bytes → Message → Bytes → Bytes
refilled old m junk = elim m.error [
  | none ↦ m.payload ++ drop (length m.payload) old
  | some e ↦ take (length old) junk ++ drop (length junk) old
]

abbrev pub read_into : Pool → ℕ → List ℕ → Bytes → Message × Stream → Pool
read_into p b rest junk (m, s) = record p {
  free = rest;
  stage = sending (record { message = m; buf = b });
  mem = put p.mem b (refilled (p.mem b) m junk);
  stream = s;
  used = p.used ++ p.mem b ∷ [];
}

-- The task takes a buffer and reads a message into it.
abbrev pub take_buffer : Stage → List ℕ → Pool → Bytes → Pool
take_buffer at_free (b ∷ rest) p junk = read_into p b rest junk (read_one (p.mem b) p.stream)
take_buffer _ _ p junk = p

-- It sends its message when the queue has room, and ends behind an error that cannot be recovered from.
abbrev pub send_message : Stage → List Slot → Pool → Pool
send_message (sending q) [] p = record p {
  msgs = q ∷ [];
  stage = if ends q.message.error then finished else at_free;
}
send_message _ _ p = p

-- Where it would wait it looks at `done` too.
abbrev pub notice_done : Stage → Bool → Pool → Pool
notice_done finished _ p = p
notice_done _ true p = record p { stage = finished }
notice_done _ false p = p

-- What the loop sees of a message: the slice of its buffer.
abbrev pub seen : (ℕ → Bytes) → Slot → Message
seen mem q = record (q.message) { payload = take (length q.message.payload) (mem q.buf) }

-- next, for a loop that has released the message before.
abbrev pub next : Option Slot → List Slot → Pool → Pool
next none (q ∷ rest) p = record p {
  msgs = rest;
  held = some q;
  delivered = p.delivered ++ seen p.mem q ∷ [];
}
next _ _ p = p

-- release: the buffer goes back, unless the pool is full already.
abbrev pub release : Option Slot → Pool → Pool
release none p = p
release (some q) p = record p {
  held = none;
  free = if ltb (length p.free) read_ahead_slots then p.free ++ q.buf ∷ [] else p.free;
}

-- pending.
unfoldable pub pending : Pool → Bool
pending p = ltb 0 (length p.msgs)

-- stop.
unfoldable pub stop : Pool → Pool
stop p = record p { done = true }

pub data Event : Type 0 where
  takes_buffer : (junk : Bytes) → Event
  sends_message notices_done takes_next releases stops : Event

unfoldable pub happens : Event → Pool → Pool
unfolding read_one stop
happens (takes_buffer junk) p = take_buffer p.stage p.free p junk
happens sends_message p = send_message p.stage p.msgs p
happens notices_done p = notice_done p.stage p.done p
happens takes_next p = next p.held p.msgs p
happens releases p = release p.held p
happens stops p = stop p

unfoldable pub history : List Event → Pool → Pool
unfolding happens
history [] p = p
history (e ∷ es) p = history es (happens e p)
