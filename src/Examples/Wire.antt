-- ===== src/Examples/Wire.antt =====
-- The theorems on the wire format at concrete inputs.
use hislip.Protocol.MessageType
use hislip.Errors.{err_short_buffer, ok}
use hislip.Examples.Instrument.{quiet}
use hislip.Prelude.{
  Bytes, List, [], arith, drop, length, none, refl, some, take, ℕ, ◌++◌, ◌<◌, ◌^◌, ◌∷◌, ◌≡◌, ◌≢◌,
  ◌≤◌,
}
use hislip.Protocol.Codec.{read_payload}
use hislip.Protocol.Codec.Payload.{gather, outcome, read_payload-gather}
use hislip.Protocol.Header.{Header, IsHeader, decode_header, header_bytes}
use hislip.Protocol.Header.Wire.{decode-header_bytes}
use hislip.Protocol.Stream.{Stream}
use hislip.Protocol.Version.{
  Version, decode_initialize_parameter, decode_initialize_response_parameter,
  encode_initialize_parameter, encode_initialize_response_parameter, version11,
}
use hislip.Protocol.Version.Parameter.{decode-encode_initialize}
use hislip.Server.Reader.{run}
use hislip.Server.Reader.Synchronised.{Arrival, all_passed, buffers, on_wire, run-messages}

abbrev delivering : Bytes → Stream
delivering b = record quiet { inbox = b }

abbrev query_header : Header
query_header = record {
  type = MessageType.data_end;
  control = 1;
  parameter = 0xffff_ff00;
  length = 2;
}

-- The first message does not fit its buffer.
abbrev arriving : List Arrival
arriving =
    record { header = query_header; payload = 1 ∷ 2 ∷ []; buf = 0 ∷ [] }
    ∷ record { header = query_header; payload = 3 ∷ 4 ∷ []; buf = 9 ∷ 9 ∷ 9 ∷ [] }
    ∷ []

query_header-IsHeader : IsHeader query_header
query_header-IsHeader = record {
  type_fits = omega arith;
  control_fits = omega arith;
  parameter_fits = omega arith;
  length_fits = omega arith;
}

read_payload-gather_example :
    let n : ℕ = 3 in
    let scratch : Bytes = 0 ∷ 0 ∷ [] in
    let seen : Bytes = [] in
    let s : Stream = delivering (1 ∷ 2 ∷ 3 ∷ 4 ∷ []) in
    let r = read_payload (some gather) n scratch seen s in
    (0 < length scratch
      → n ≤ length s.inbox
      → outcome r ≡ (none, seen ++ take n s.inbox, record s { inbox = drop n s.inbox }))
    × (0 < length scratch
        → length s.inbox < n
        → (r.error ≢ none) × (r.stream ≡ record s { inbox = [] }))
    × (scratch ≡ [] → outcome r ≡ (some err_short_buffer, seen, s))
read_payload-gather_example =
    read_payload-gather 3 (0 ∷ 0 ∷ []) [] (delivering (1 ∷ 2 ∷ 3 ∷ 4 ∷ []))

decode-header_bytes_example :
    let h : Header = query_header in
    let rest : Bytes = 7 ∷ [] in decode_header (header_bytes h ++ rest) ≡ ok h
decode-header_bytes_example = decode-header_bytes query_header (7 ∷ []) query_header-IsHeader

run-messages_example :
    let arrivals : List Arrival = arriving in
    let rest : Bytes = 7 ∷ [] in
    let s : Stream = delivering (on_wire arriving ++ 7 ∷ []) in
    run (buffers arrivals) s ≡ (all_passed arrivals, record s { inbox = rest })
run-messages_example =
    run-messages arriving (7 ∷ []) (delivering (on_wire arriving ++ 7 ∷ []))
      ((query_header-IsHeader, omega arith), ((query_header-IsHeader, omega arith), tt)) refl

decode-encode_initialize_example :
    let v : Version = version11 in
    let a : ℕ = b'X' in
    let b : ℕ = b'Y' in
    let session_id : ℕ = 3 in
    (decode_initialize_parameter (encode_initialize_parameter v (a, b)) ≡ (v, (a, b)))
    × (decode_initialize_response_parameter (encode_initialize_response_parameter v session_id)
        ≡ (v, session_id))
    × (encode_initialize_parameter v (a, b) < 2 ^ 32)
    × (encode_initialize_response_parameter v session_id < 2 ^ 32)
decode-encode_initialize_example =
    decode-encode_initialize version11 b'X' b'Y' 3
      (record { major_fits = omega arith; minor_fits = omega arith }) (omega arith) (omega arith)
      (omega arith)
