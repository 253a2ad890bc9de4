-- ===== src/Protocol/Header.antt =====
-- protocol/header.go: the 16-byte message header. A byte slice is a list of numbers below 256.
pub mod BigEndian
pub mod Wire
use hislip.Prelude.{
  ℕ, zero, suc, ◌+◌, ◌*◌, ◌-◌, ◌/◌, ◌%◌, ◌^◌, ◌<◌, Bool, true, false, not, ◌||◌, List, [], ◌∷◌,
  ◌++◌, Bytes, length, take, drop, get_or, ltb, ◌==◌, if◌then◌else◌,
}
use hislip.Errors.{Result, ok, err, err_short_buffer, err_invalid_prologue}
use BigEndian.{put_be, get_be}

abbrev pub header_size : ℕ
header_size = 16

abbrev pub prologue : ℕ × ℕ
prologue = (b'H', b'S')

-- `type` is the field Type.
pub record Header : Type 0 where
  pub type : ℕ
  pub control : ℕ
  pub parameter : ℕ
  pub length : ℕ

abbrev pub no_header : Header
no_header = record { type = 0; control = 0; parameter = 0; length = 0 }

-- `b[i:j]`
abbrev pub slice : ℕ → ℕ → Bytes → Bytes
slice i j b = take (j - i) (drop i b)

unfoldable pub decode_header : Bytes → Result Header
unfolding get_be
decode_header b =
    if ltb (length b) header_size
    then err err_short_buffer
    else if not (get_or b 0 0 == prologue.0) || not (get_or b 1 0 == prologue.1)
    then err err_invalid_prologue
    else ok (record {
      type = get_or b 2 0;
      control = get_or b 3 0;
      parameter = get_be (slice 4 8 b);
      length = get_be (slice 8 16 b);
    })

-- The sixteen bytes that Encode writes.
unfoldable pub header_bytes : Header → Bytes
unfolding put_be
header_bytes h =
    prologue.0
    ∷ prologue.1
    ∷ (h.type % 256)
    ∷ (h.control % 256)
    ∷ (put_be 4 h.parameter ++ put_be 8 h.length)

-- The buffer after Encode: its first sixteen bytes are written over.
unfoldable pub encode : Header → Bytes → Result Bytes
unfolding header_bytes
encode h b =
    if ltb (length b) header_size
    then err err_short_buffer
    else ok (header_bytes h ++ drop header_size b)

unfoldable pub message_id : Header → ℕ
message_id h = h.parameter

-- Control code bit 0.
unfoldable pub rmt_delivered : Header → Bool
rmt_delivered h = h.control % 2 == 1

-- The fields fit the widths that they have in the source.
pub record IsHeader (h : Header) : Type 0 where
  pub type_fits : h.type < 256
  pub control_fits : h.control < 256
  pub parameter_fits : h.parameter < 2 ^ 32
  pub length_fits : h.length < 2 ^ 64
