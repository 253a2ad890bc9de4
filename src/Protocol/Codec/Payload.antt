-- ===== src/Protocol/Codec/Payload.antt =====
-- What ReadPayload reads, whatever the size of the scratch buffer.
use mathlib.Core.WellFounded.{Acc}
use mathlib.Core.Logic.{dif_pos, dif_neg}
use native.Mathlib.Bridge.{le_prop}
use native.Mathlib.Decide.{dec_lt, dec_le}
use hislip.Prelude.{
  ℕ, ◌-◌, ◌<◌, ◌≤◌, min, ◌≡◌, ◌≢◌, refl, sym, take-length-append, take-zero, ap, ◌∙◌, Option, none,
  some, Bytes, [], ◌++◌, length, take, drop, length-take, length-drop, append_assoc, append-nil,
  take-take-drop, drop-drop, arith,
}
use hislip.Errors.{Error, err_short_buffer}
use hislip.Protocol.Stream.{Stream}
use hislip.Protocol.Stream.Reads.{read_full-enough, read_full-few}
use hislip.Protocol.Codec.{
  Consume, Reading, read_chunks, read_payload, chunk_falls, run_consume, lt_acc,
}

-- The callback that gathers every chunk that it is given.
abbrev pub gather : Consume Bytes
gather seen chunk = (none, seen ++ chunk)

-- What a reading leaves apart from its scratch buffer.
abbrev pub Outcome : Type 0
Outcome = Option Error × Bytes × Stream

abbrev pub outcome : Reading Bytes → Outcome
outcome r = (r.error, r.consumer, r.stream)

read_chunks-gather :
    (size : ℕ) (pos : 0 < size) (remaining : ℕ) (w : Acc ◌<◌ remaining) (scratch seen : Bytes)
    (s : Stream)
    → remaining ≤ length s.inbox
    → outcome (read_chunks (some gather) size pos remaining w scratch seen s)
      ≡ (none, seen ++ take remaining s.inbox, record s { inbox = drop remaining s.inbox })
unfolding read_chunks
read_chunks-gather size pos remaining (Acc.intro _ smaller) scratch seen s h =
    elim (dec_lt 0 remaining) [
      | yes more ↦
          rw (dif_pos _ le_prop more, read_full-enough (min remaining size) s (omega arith))
            (read_chunks-gather size pos (remaining - min remaining size)
                (smaller _ (chunk_falls remaining size more pos)) _
                (seen ++ take (min remaining size) s.inbox) _
                (omega (arith, length-drop (min remaining size) s.inbox))
              ∙ ground (
                arith,
                append_assoc seen (take (min remaining size) s.inbox)
                    (take (remaining - min remaining size) (drop (min remaining size) s.inbox)),
                take-take-drop (min remaining size) remaining s.inbox,
                drop-drop (min remaining size) remaining s.inbox,
              ))
      | no done ↦ rw (dif_neg _ done) (ground (arith, append-nil seen))
    ]

-- A callback that reports no error; no callback is one.
abbrev pub Accepts : {C : Type 0} → Option (Consume C) → Type 0
Accepts {C} consume = (c : C) (chunk : Bytes) → (run_consume consume c chunk).0 ≡ none

module _ {C : Type 0} (consume : Option (Consume C)) (size : ℕ) (pos : 0 < size) where
  read_chunks-drains :
      (remaining : ℕ) (w : Acc ◌<◌ remaining) (scratch : Bytes) (c : C) (s : Stream)
      → Accepts consume
      → remaining ≤ length s.inbox
      → let r = read_chunks consume size pos remaining w scratch c s in
        (r.error ≡ none) × (r.stream ≡ record s { inbox = drop remaining s.inbox })
  unfolding read_chunks
  read_chunks-drains remaining (Acc.intro _ smaller) scratch c s accepts h =
      elim (dec_lt 0 remaining) [
        | yes more ↦
            let chunk = take (min remaining size) s.inbox in
            let again =
              read_chunks-drains (remaining - min remaining size)
                (smaller _ (chunk_falls remaining size more pos))
                (chunk ++ drop (length chunk) scratch) (run_consume consume c chunk).1
                (record s { inbox = drop (min remaining size) s.inbox }) accepts
                (omega (arith, length-drop (min remaining size) s.inbox)) in
            rw (dif_pos _ le_prop more, read_full-enough (min remaining size) s (omega arith))
              (ground
                (arith, accepts c chunk, again, drop-drop (min remaining size) remaining s.inbox))
        | no done ↦ rw (dif_neg _ done) (ground arith)
      ]

  -- Too few bytes: an error, and nothing is left of the stream.
  read_chunks-short :
      (remaining : ℕ) (w : Acc ◌<◌ remaining) (scratch : Bytes) (c : C) (s : Stream)
      → Accepts consume
      → length s.inbox < remaining
      → let r = read_chunks consume size pos remaining w scratch c s in
        (r.error ≢ none) × (r.stream ≡ record s { inbox = [] })
  unfolding read_chunks
  read_chunks-short remaining (Acc.intro _ smaller) scratch c s accepts h =
      let more : 0 < remaining = omega arith in
      rw (dif_pos (dec_lt 0 remaining) le_prop more)
        (elim (dec_le (min remaining size) (length s.inbox)) [
          | yes enough ↦
              let chunk = take (min remaining size) s.inbox in
              let again =
                read_chunks-short (remaining - min remaining size)
                  (smaller _ (chunk_falls remaining size more pos))
                  (chunk ++ drop (length chunk) scratch) (run_consume consume c chunk).1
                  (record s { inbox = drop (min remaining size) s.inbox }) accepts
                  (omega (arith, length-drop (min remaining size) s.inbox)) in
              rw (read_full-enough (min remaining size) s enough)
                (ground (arith, accepts c chunk, again))
          | no few ↦ rw (read_full-few (min remaining size) s (omega arith)) (ground arith)
        ])

-- ReadPayload hands its callback exactly the next `n` bytes, in order, and leaves what follows them in
-- the stream, whatever the size of the scratch buffer. If the stream ends first it gives an error and
-- the stream is used up. With an empty scratch buffer it gives an error and reads nothing.
pub read_payload-gather :
    (n : ℕ) (scratch seen : Bytes) (s : Stream)
    → let r = read_payload (some gather) n scratch seen s in
      (0 < length scratch
        → n ≤ length s.inbox
        → outcome r ≡ (none, seen ++ take n s.inbox, record s { inbox = drop n s.inbox }))
      × (0 < length scratch
          → length s.inbox < n
          → (r.error ≢ none) × (r.stream ≡ record s { inbox = [] }))
      × (scratch ≡ [] → outcome r ≡ (some err_short_buffer, seen, s))
unfolding read_payload
read_payload-gather n scratch seen s = (
  λ pos h.
      rw (dif_pos (dec_lt 0 (length scratch)) le_prop pos)
        (read_chunks-gather (length scratch) pos n (lt_acc n) scratch seen s h),
  λ pos h. rw (dif_pos (dec_lt 0 (length scratch)) le_prop pos) (
      read_chunks-short (some gather) (length scratch) pos n (lt_acc n) scratch seen s
        (λ c chunk. refl) h),
  λ e. let gone = ap length e in rw (dif_neg (dec_lt 0 (length scratch)) (λ h. omega arith)) refl,
)

pub read_payload-drains :
    {C : Type 0} (consume : Option (Consume C)) (n : ℕ) (scratch : Bytes) (c : C) (s : Stream)
    → Accepts consume
    → 0 < length scratch
    → n ≤ length s.inbox
    → let r = read_payload consume n scratch c s in
      (r.error ≡ none) × (r.stream ≡ record s { inbox = drop n s.inbox })
unfolding read_payload
read_payload-drains consume n scratch c s accepts pos h =
    rw (dif_pos (dec_lt 0 (length scratch)) le_prop pos)
      (read_chunks-drains consume (length scratch) pos n (lt_acc n) scratch c s accepts h)

pub read_payload-short :
    {C : Type 0} (consume : Option (Consume C)) (n : ℕ) (scratch : Bytes) (c : C) (s : Stream)
    → Accepts consume
    → 0 < length scratch
    → length s.inbox < n
    → let r = read_payload consume n scratch c s in
      (r.error ≢ none) × (r.stream ≡ record s { inbox = [] })
unfolding read_payload
read_payload-short consume n scratch c s accepts pos h =
    rw (dif_pos (dec_lt 0 (length scratch)) le_prop pos)
      (read_chunks-short consume (length scratch) pos n (lt_acc n) scratch c s accepts h)

-- With nothing left the loop stops.
read_chunks-done :
    {C : Type 0} (consume : Option (Consume C)) (size : ℕ) (pos : 0 < size) (remaining : ℕ)
    (w : Acc ◌<◌ remaining) (scratch : Bytes) (c : C) (s : Stream)
    → remaining ≡ 0
    → (read_chunks consume size pos remaining w scratch c s).scratch ≡ scratch
unfolding read_chunks
read_chunks-done consume size pos remaining (Acc.intro _ smaller) scratch c s e =
    rw (dif_neg (dec_lt 0 remaining) (λ h. omega arith)) refl

-- A payload that fits into the scratch buffer lies at its front.
read_chunks-fits :
    (size : ℕ) (pos : 0 < size) (remaining : ℕ) (w : Acc ◌<◌ remaining) (scratch : Bytes)
    (s : Stream)
    → remaining ≤ size
    → remaining ≤ length s.inbox
    → take remaining (read_chunks {C = Unit} none size pos remaining w scratch tt s).scratch
      ≡ take remaining s.inbox
unfolding read_chunks
read_chunks-fits size pos remaining (Acc.intro _ smaller) scratch s fits h =
    elim (dec_lt 0 remaining) [
      | yes more ↦
          let chunk = take (min remaining size) s.inbox in
          let long : length chunk ≡ remaining =
            omega (arith, length-take (min remaining size) s.inbox) in
          rw
            (
              dif_pos (dec_lt 0 remaining) le_prop more,
              read_full-enough (min remaining size) s (omega arith),
            )
            (ap (take remaining) (
                read_chunks-done none size pos (remaining - min remaining size)
                  (smaller _ (chunk_falls remaining size more pos))
                  (chunk ++ drop (length chunk) scratch) tt
                  (record s { inbox = drop (min remaining size) s.inbox }) (omega arith))
              ∙ ap (λ k. take k (chunk ++ drop (length chunk) scratch)) (sym long)
              ∙ take-length-append chunk (drop (length chunk) scratch)
              ∙ ap (λ k. take k s.inbox) (omega arith))
      | no done ↦ take-zero remaining _ s.inbox (omega arith)
    ]

pub read_payload-fits :
    (n : ℕ) (scratch : Bytes) (s : Stream)
    → 0 < length scratch
    → n ≤ length scratch
    → n ≤ length s.inbox
    → take n (read_payload {C = Unit} none n scratch tt s).scratch ≡ take n s.inbox
unfolding read_payload
read_payload-fits n scratch s pos fits h =
    rw (dif_pos (dec_lt 0 (length scratch)) le_prop pos)
      (read_chunks-fits (length scratch) pos n (lt_acc n) scratch s fits h)
