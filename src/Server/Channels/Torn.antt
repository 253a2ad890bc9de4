-- ===== src/Server/Channels/Torn.antt =====
-- server/writer.go: what becomes of a message when another task writes on the connection between the
-- two writes of the stream that WriteMessage makes, the header and the payload. The synchronous loop
-- does so to the asynchronous one when it sends AsyncInterrupted.
use hislip.Prelude.{◌≡◌, ap, ◌∙◌, sym, inl, none, Bytes, [], ◌∷◌, ◌++◌, append-nil, arith}
use hislip.Protocol.Header.{Header, header_bytes}
use hislip.Protocol.Stream.{Stream, write}
use hislip.Protocol.Codec.{write_header, write_message, write_rest}
use hislip.Protocol.Codec.Framing.{with_length, message_bytes, write_message-written}

begun-written :
    (s : Stream) (b : Bytes)
    → s.outcomes ≡ []
    → ((write s b).1.written ≡ s.written ++ b) × ((write s b).1.outcomes ≡ [])
unfolding write
begun-written s b o = ground arith

rest-written :
    (s : Stream) (payload : Bytes)
    → s.outcomes ≡ []
    → (write_rest payload (none, s)).1.written ≡ s.written ++ payload
unfolding write
rest-written s [] o = sym (append-nil s.written)
rest-written s (x ∷ xs) o = ground arith

-- A connection that takes every write, and a message with a payload: if another message with none goes out
-- behind the header, the payload of the first is written behind the second, so that a reader takes the
-- second message for the beginning of the payload.
pub torn_message :
    (s : Stream) (h h' : Header) (payload : Bytes)
    → s.outcomes ≡ []
    → h'.length ≡ 0
    → let begun = (write_header s (with_length h payload)).1 in
      let between = (write_message begun h' []).1 in
      (write_rest payload (none, between)).1.written
      ≡ ((s.written ++ header_bytes (with_length h payload)) ++ message_bytes h' []) ++ payload
unfolding write_header
torn_message s h h' payload o z =
    let begun = (write_header s (with_length h payload)).1 in
    let b = begun-written s (header_bytes (with_length h payload)) o in
    let w = write_message-written begun h' [] b.1 (inl z) in
    let between = (write_message begun h' []).1 in
    let outcomes : between.outcomes ≡ [] = ap (λ r. r.1.outcomes) w in
    let written : between.written ≡ begun.written ++ message_bytes h' [] =
      ap (λ r. r.1.written) w in
    rest-written between payload outcomes
    ∙ ap (λ x. x ++ payload) (written ∙ ap (λ x. x ++ message_bytes h' []) b.0)
