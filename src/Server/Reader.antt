-- ===== src/Server/Reader.antt =====
-- server/reader.go: reading a message from a channel.
pub mod Synchronised
pub mod Pool
use hislip.Prelude.{
  ℕ, Bool, true, false, not, Option, none, some, List, Bytes, [], ◌∷◌, length, take, ltb,
  if◌then◌else◌,
}
use hislip.Errors.{Error, Result, ok, err, err_message_too_large}
use hislip.Protocol.Header.{Header, no_header}
use hislip.Protocol.Stream.{Stream}
use hislip.Protocol.Codec.{Reading, read_header, read_payload, discard_payload}

-- The buffer that the payload lies in is left out: the payload is a copy of its bytes.
pub record Message : Type 0 where
  pub header : Header
  pub payload : Bytes
  pub error : Option Error

-- max64 in a slice bound: `buf[:max64(n, 1)]`.
abbrev pub max64 : ℕ → ℕ → ℕ
max64 a b = if ltb b a then a else b

-- Behind an oversized payload: drained, or not.
abbrev pub oversized : Header → Reading (Unit {0}) → Message × Stream
oversized h r = elim r.error [
  | some e ↦ (record { header = h; payload = []; error = some e }, r.stream)
  | none ↦ (record { header = h; payload = []; error = some err_message_too_large }, r.stream)
]

abbrev pub received : Header → Reading (Unit {0}) → Message × Stream
received h r = elim r.error [
  | some e ↦ (record { header = h; payload = []; error = some e }, r.stream)
  | none ↦ (record { header = h; payload = take h.length r.scratch; error = none }, r.stream)
]

abbrev pub after_header : Bytes → Result Header × Stream → Message × Stream
after_header buf (err e, s) = (record { header = no_header; payload = []; error = some e }, s)
after_header buf (ok h, s) =
    if ltb (length buf) h.length
    then oversized h (discard_payload h.length buf s)
    else received h (read_payload none h.length (take (max64 h.length 1) buf) tt s)

unfoldable pub read_one : Bytes → Stream → Message × Stream
unfolding read_header read_payload discard_payload
read_one buf s = after_header buf (read_header s)

unfoldable pub recoverable : Error → Bool
recoverable err_message_too_large = true
recoverable _ = false

abbrev pub ends : Option Error → Bool
ends none = false
ends (some e) = not (recoverable e)

abbrev pub followed : Message × Stream → (Stream → List Message × Stream) → List Message × Stream
followed (msg, s) rest = if ends msg.error then (msg ∷ [], s) else (msg ∷ (rest s).0, (rest s).1)

-- run, over the buffers that it finds free, one after the other: the messages that it passes on. The
-- pool hands a buffer out again with whatever an earlier message left in it.
unfoldable pub run : List Bytes → Stream → List Message × Stream
unfolding read_one recoverable
run [] s = ([], s)
run (buf ∷ bufs) s = followed (read_one buf s) (λ t. run bufs t)
