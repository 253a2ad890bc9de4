-- ===== src/Protocol/Version/Parameter.antt =====
-- The parameters of Initialize and InitializeResponse come back as they were put in.
use hislip.Prelude.{ℕ, ◌^◌, ◌<◌, ◌≡◌, arith}
use hislip.Protocol.Version.{
  Version, encode_initialize_parameter, decode_initialize_parameter,
  encode_initialize_response_parameter, decode_initialize_response_parameter,
}

-- The two fields fit in a byte each.
pub record IsVersion (v : Version) : Type 0 where
  pub major_fits : v.major < 256
  pub minor_fits : v.minor < 256

-- Decoding inverts encoding, and the encoded parameters are 32-bit numbers.
pub decode-encode_initialize :
    (v : Version) (a b session_id : ℕ)
    → IsVersion v
    → a < 256
    → b < 256
    → session_id < 2 ^ 16
    → (decode_initialize_parameter (encode_initialize_parameter v (a, b)) ≡ (v, (a, b)))
      × (decode_initialize_response_parameter (encode_initialize_response_parameter v session_id)
          ≡ (v, session_id))
      × (encode_initialize_parameter v (a, b) < 2 ^ 32)
      × (encode_initialize_response_parameter v session_id < 2 ^ 32)
unfolding encode_initialize_parameter decode_initialize_parameter
    encode_initialize_response_parameter decode_initialize_response_parameter
decode-encode_initialize v a b session_id w ha hb hs = ground arith
