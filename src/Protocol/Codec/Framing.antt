-- ===== src/Protocol/Codec/Framing.antt =====
-- Messages on the wire: what WriteMessage puts there.
use hislip.Prelude.{
  ◌≡◌, ◌≢◌, ◌⊎◌, none, some, Bytes, [], ◌∷◌, ◌++◌, length, append-nil, append_assoc, arith,
}
use hislip.Errors.{err_payload_length}
use hislip.Protocol.Header.{Header, header_bytes}
use hislip.Protocol.Stream.{Stream, write}
use hislip.Protocol.Codec.{write_message, write_header}

-- The header as it is sent: its Length is the payload's.
abbrev pub with_length : Header → Bytes → Header
with_length h payload = record h { length = length payload }

-- The bytes of a whole message.
abbrev pub message_bytes : Header → Bytes → Bytes
message_bytes h payload = header_bytes (with_length h payload) ++ payload

-- On a transport that takes every write, a message whose Length is unset or right is written whole.
pub write_message-written :
    (s : Stream) (h : Header) (payload : Bytes)
    → s.outcomes ≡ []
    → (h.length ≡ 0) ⊎ (h.length ≡ length payload)
    → write_message s h payload
      ≡ (none, record s { written = s.written ++ message_bytes h payload; outcomes = [] })
unfolding write_message write_header write
write_message-written s h [] e fits = ground (arith, append-nil (header_bytes (with_length h [])))
write_message-written s h (x ∷ xs) e fits =
    ground (arith, append_assoc s.written (header_bytes (with_length h (x ∷ xs))) (x ∷ xs))

-- A Length that disagrees is refused, and nothing is written.
pub write_message_refused :
    (s : Stream) (h : Header) (payload : Bytes)
    → h.length ≢ 0
    → h.length ≢ length payload
    → write_message s h payload ≡ (some err_payload_length, s)
unfolding write_message
write_message_refused s h payload p q = ground arith
