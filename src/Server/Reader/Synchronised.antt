-- ===== src/Server/Reader/Synchronised.antt =====
-- The reader stays at message boundaries: it takes one message off the stream, whatever its size.
use hislip.Prelude.{
  ◌<◌, ◌≡◌, refl, ap, ◌∙◌, sym, none, some, List, All, Bytes, [], ◌∷◌, ◌++◌, length, length-append,
  append_assoc, append-nil, take, length-take, take-length-append, drop-length-append, ltb,
  if◌then◌else◌, arith,
}
use hislip.Errors.{ok, err_message_too_large}
use hislip.Protocol.Header.{Header, IsHeader, header_bytes, decode_header}
use hislip.Protocol.Header.Wire.{length-header_bytes, decode-header_bytes}
use hislip.Protocol.Stream.{Stream}
use hislip.Protocol.Stream.Reads.{read_full-append}
use hislip.Protocol.Codec.{read_header, discard_payload}
use hislip.Protocol.Codec.Payload.{read_payload-drains, read_payload-fits}
use hislip.Protocol.Codec.Framing.{with_length, message_bytes}
use hislip.Server.Reader.{Message, max64, read_one, after_header, run, recoverable}

header-read :
    (h : Header) (s : Stream) (rest : Bytes)
    → IsHeader h
    → s.inbox ≡ header_bytes h ++ rest
    → read_header s ≡ (ok h, record s { inbox = rest })
unfolding read_header
header-read h s rest w e =
    rw (sym (length-header_bytes h), read_full-append s (header_bytes h) rest e)
      (ground
        (arith, ap decode_header (sym (append-nil (header_bytes h))), decode-header_bytes h [] w))

-- Behind the header: the payload, or its refusal.
payload-read :
    (h : Header) (buf payload rest : Bytes) (s : Stream)
    → h.length ≡ length payload
    → 0 < length buf
    → s.inbox ≡ payload ++ rest
    → after_header buf (ok h, s) ≡ (
      record {
        header = h;
        payload = if ltb (length buf) (length payload) then [] else payload;
        error = if ltb (length buf) (length payload) then some err_message_too_large else none;
      },
      record s { inbox = rest },
    )
unfolding discard_payload
payload-read h buf payload rest s e pos i = ground (
  arith,
  length-append payload rest,
  take-length-append payload rest,
  drop-length-append payload rest,
  length-take (max64 h.length 1) buf,
  read_payload-drains {C = Unit} none h.length buf tt s (λ c chunk. refl) pos,
  read_payload-drains {C = Unit} none h.length (take (max64 h.length 1) buf) tt s (λ c chunk. refl),
  read_payload-fits h.length (take (max64 h.length 1) buf) s,
)

-- A message on the stream, complete and with a header that fits its fields, is taken off it whole, and
-- what follows it stays, for every buffer that is not empty. The payload is delivered if it fits the
-- buffer; if not, the message is reported as too large.
pub read_one-message :
    (h : Header) (buf payload rest : Bytes) (s : Stream)
    → IsHeader (with_length h payload)
    → 0 < length buf
    → s.inbox ≡ message_bytes h payload ++ rest
    → read_one buf s ≡ (
      record {
        header = with_length h payload;
        payload = if ltb (length buf) (length payload) then [] else payload;
        error = if ltb (length buf) (length payload) then some err_message_too_large else none;
      },
      record s { inbox = rest },
    )
unfolding read_one
read_one-message h buf payload rest s w pos e =
    let h' = with_length h payload in
    rw (header-read h' s (payload ++ rest) w (e ∙ append_assoc (header_bytes h') payload rest))
      (payload-read h' buf payload rest (record s { inbox = payload ++ rest }) refl pos refl)

-- A message that arrives, and the buffer that is free for it.
pub record Arrival : Type 0 where
  pub header : Header
  pub payload : Bytes
  pub buf : Bytes

abbrev pub IsArrival : Arrival → Type 0
IsArrival a = IsHeader (with_length a.header a.payload) × (0 < length a.buf)

abbrev pub buffers : List Arrival → List Bytes
buffers [] = []
buffers (a ∷ as') = a.buf ∷ buffers as'

abbrev pub on_wire : List Arrival → Bytes
on_wire [] = []
on_wire (a ∷ as') = message_bytes a.header a.payload ++ on_wire as'

-- The message as it is passed on.
abbrev pub passed_on : Arrival → Message
passed_on a = record {
  header = with_length a.header a.payload;
  payload = if ltb (length a.buf) (length a.payload) then [] else a.payload;
  error = if ltb (length a.buf) (length a.payload) then some err_message_too_large else none;
}

abbrev pub all_passed : List Arrival → List Message
all_passed [] = []
all_passed (a ∷ as') = passed_on a ∷ all_passed as'

-- Messages that are complete on the stream are passed on one for one and in order, each with its own
-- payload, or as too large where it does not fit the buffer that was free for it; an oversized one
-- costs none of those behind it, and what follows the last one stays on the stream.
pub run-messages :
    (arrivals : List Arrival) (rest : Bytes) (s : Stream)
    → All IsArrival arrivals
    → s.inbox ≡ on_wire arrivals ++ rest
    → run (buffers arrivals) s ≡ (all_passed arrivals, record s { inbox = rest })
unfolding run recoverable
run-messages [] rest s w e = ground arith
run-messages (a ∷ as') rest s w e =
    let one =
      read_one-message a.header a.buf a.payload (on_wire as' ++ rest) s w.0.0 w.0.1
        (e ∙ append_assoc (message_bytes a.header a.payload) (on_wire as') rest) in
    ground (arith, one, run-messages as' rest (record s { inbox = on_wire as' ++ rest }) w.1 refl)
