-- ===== src/Protocol/Codec.antt =====
-- protocol/codec.go and the stream functions of protocol/header.go: reading and writing messages.
pub mod Payload
pub mod Framing
use mathlib.Core.WellFounded.{Acc, WellFounded}
use mathlib.Core.Logic.{dite}
use native.Mathlib.Decide.{dec_lt}
use hislip.Prelude.{
  ℕ, zero, suc, ◌+◌, ◌-◌, ◌<◌, ◌≤◌, ◌^◌, min, ◌≡◌, Bool, true, false, not, ◌&&◌, Option, none, some,
  List, [], ◌∷◌, ◌++◌, Bytes, length, take, drop, ltb, ◌==◌, if◌then◌else◌, arith,
}
use hislip.Errors.{
  Error, err_short_buffer, err_message_too_large, err_payload_length, Result, ok, err, fail_if,
}
use hislip.Protocol.Header.{Header, header_size, decode_header, header_bytes, encode}
use hislip.Protocol.Stream.{Stream, read_full, write}

-- A maximum of zero means unlimited.
unfoldable pub check_length : ℕ → ℕ → Result (Unit {0})
check_length n max = fail_if (not (max == 0) && ltb max n) err_message_too_large

abbrev decode_read : Result Bytes × Stream → Result Header × Stream
decode_read (ok b, s) = (decode_header b, s)
decode_read (err e, s) = (err e, s)

unfoldable pub read_header : Stream → Result Header × Stream
read_header s = decode_read (read_full header_size s)

-- The `consume` callback of ReadPayload, over a state of its own.
abbrev pub Consume : Type 0 → Type 0
Consume C = C → Bytes → Option Error × C

-- How ReadPayload ended: its error, the scratch buffer, the callback's state and the stream.
pub record Reading (C : Type 0) : Type 0 where
  pub error : Option Error
  pub scratch : Bytes
  pub consumer : C
  pub stream : Stream

-- `if consume != nil { ... }`
abbrev pub run_consume : {C : Type 0} → Option (Consume C) → C → Bytes → Option Error × C
run_consume none c chunk = (none, c)
run_consume (some f) c chunk = f c chunk

-- A chunk takes something off what remains.
pub chunk_falls :
    (remaining size : ℕ) → 0 < remaining → 0 < size → remaining - min remaining size < remaining
chunk_falls remaining size h pos = omega arith

module _ {C : Type 0} where
  abbrev after_consume :
      Option Error × C → Bytes → Stream → (Bytes → C → Stream → Reading C) → Reading C
  after_consume (some e, c) scratch s again = record {
    error = some e;
    scratch = scratch;
    consumer = c;
    stream = s;
  }
  after_consume (none, c) scratch s again = again scratch c s

  -- One round of the loop: read a chunk into the front of `scratch`, pass it on, go on.
  abbrev after_read :
      Option (Consume C)
      → Result Bytes × Stream
      → Bytes
      → C
      → (Bytes → C → Stream → Reading C)
      → Reading C
  after_read consume (err e, s) scratch c again = record {
    error = some e;
    scratch = scratch;
    consumer = c;
    stream = s;
  }
  after_read consume (ok chunk, s) scratch c again =
      after_consume (run_consume consume c chunk) (chunk ++ drop (length chunk) scratch) s again

  -- The loop over `remaining`, which falls in each round.
  unfoldable pub read_chunks :
      (consume : Option (Consume C)) (size : ℕ)
      → 0 < size
      → (remaining : ℕ) → Acc ◌<◌ remaining
      → Bytes
      → C
      → Stream
      → Reading C
  read_chunks consume size pos remaining (Acc.intro _ smaller) scratch c s =
      dite (dec_lt 0 remaining)
        (λ h. after_read consume (read_full (min remaining size) s) scratch c (λ scratch' c' s'.
          read_chunks consume size pos (remaining - min remaining size)
            (smaller (remaining - min remaining size) (chunk_falls remaining size h pos)) scratch'
            c' s'))
        (λ _. record { error = none; scratch = scratch; consumer = c; stream = s })

Acc-below : (k n : ℕ) → n < k → Acc ◌<◌ n
Acc-below zero n h = elim h [ ]
Acc-below (suc k) n h = Acc.intro n (λ m hm. Acc-below k m (omega arith))

lt_acc : (n : ℕ) → Acc ◌<◌ n
unfolding Acc-below
lt_acc n = Acc-below (suc n) n (omega arith)

unfoldable pub read_payload : {C : Type 0} → Option (Consume C) → ℕ → Bytes → C → Stream → Reading C
unfolding read_chunks lt_acc dec_lt
read_payload consume n scratch c s =
    dite (dec_lt 0 (length scratch))
      (λ pos. read_chunks consume (length scratch) pos n (lt_acc n) scratch c s)
      (λ _. record { error = some err_short_buffer; scratch = scratch; consumer = c; stream = s })

unfoldable pub discard_payload : ℕ → Bytes → Stream → Reading (Unit {0})
unfolding read_payload
discard_payload n scratch s = read_payload none n scratch tt s

-- WriteHeader: the header's bytes in one write.
unfoldable pub write_header : Stream → Header → Option Error × Stream
unfolding header_bytes write
write_header s h = write s (header_bytes h)

abbrev pub write_rest : Bytes → Option Error × Stream → Option Error × Stream
write_rest payload (some e, s) = (some e, s)
write_rest [] (none, s) = (none, s)
write_rest (x ∷ xs) (none, s) = write s (x ∷ xs)

-- A Length that is set and disagrees with the payload is refused before anything is written.
unfoldable pub write_message : Stream → Header → Bytes → Option Error × Stream
unfolding write_header
write_message s h payload =
    if not (h.length == 0) && not (h.length == length payload)
    then (some err_payload_length, s)
    else write_rest payload (write_header s (record h { length = length payload }))
