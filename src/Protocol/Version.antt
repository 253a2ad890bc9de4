-- ===== src/Protocol/Version.antt =====
-- protocol/version.go: versions, their order, negotiation, and the Initialize parameters.
-- A version's fields are bytes, and a message parameter is a 32-bit number.
pub mod Order
pub mod Parameter
use hislip.Prelude.{ℕ, ◌+◌, ◌*◌, ◌/◌, ◌%◌, ◌^◌, Bool, true, false, not, ltb, ◌==◌, if◌then◌else◌}

pub record Version : Type 0 where
  pub major : ℕ
  pub minor : ℕ

abbrev pub version10 : Version
version10 = record { major = 1; minor = 0 }

abbrev pub version11 : Version
version11 = record { major = 1; minor = 1 }

abbrev pub version20 : Version
version20 = record { major = 2; minor = 0 }

unfoldable pub less : Version → Version → Bool
less v other =
    if not (v.major == other.major) then ltb v.major other.major else ltb v.minor other.minor

unfoldable pub at_least : Version → Version → Bool
unfolding less
at_least v other = not (less v other)

unfoldable pub negotiate : Version → Version → Version
unfolding less
negotiate client server = if less client server then client else server

-- The bits of the parts are disjoint, so `|` is a sum.
unfoldable pub upper_word : Version → ℕ
upper_word v = v.major * 2 ^ 24 + v.minor * 2 ^ 16

unfoldable pub version_from_parameter : ℕ → Version
version_from_parameter p = record { major = p / 2 ^ 24 % 256; minor = p / 2 ^ 16 % 256 }

-- A vendor ID is a pair of bytes.
unfoldable pub encode_initialize_parameter : Version → ℕ × ℕ → ℕ
unfolding upper_word
encode_initialize_parameter v vendor_id = upper_word v + vendor_id.0 * 2 ^ 8 + vendor_id.1

unfoldable pub decode_initialize_parameter : ℕ → Version × (ℕ × ℕ)
unfolding version_from_parameter
decode_initialize_parameter p = (version_from_parameter p, (p / 2 ^ 8 % 256, p % 256))

unfoldable pub encode_initialize_response_parameter : Version → ℕ → ℕ
unfolding upper_word
encode_initialize_response_parameter v session_id = upper_word v + session_id

unfoldable pub decode_initialize_response_parameter : ℕ → Version × ℕ
unfolding version_from_parameter
decode_initialize_response_parameter p = (version_from_parameter p, p % 2 ^ 16)
