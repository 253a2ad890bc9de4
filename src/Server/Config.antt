-- ===== src/Server/Config.antt =====
-- server/config.go: a server profile, its defaults and its validation.
pub mod Profile
use hislip.Prelude.{
  ℕ, ◌%◌, Bool, true, false, ◌&&◌, ◌||◌, Option, none, some, List, [], ◌∷◌, Bytes, same, ltb, ◌==◌,
  if◌then◌else◌,
}
use hislip.Prelude.Int.{ℤ, pos, negsuc, below, is_zero}
use hislip.Errors.{
  Result, ok, err, err_invalid_config, err_overlap_not_implemented, ◌>>=◌, ◌>>◌, fail_if,
}
use hislip.Protocol.Version.{Version, version10, less}
use hislip.Protocol.Header.{header_size}
use hislip.Server.Policy.{Policy}

-- The factory Policy makes a policy at the start of a message; it is given here by what it makes.
pub record Config : Type 0 where
  pub sub_addresses : List Bytes
  pub max_version : Version
  pub supports_overlap : Bool
  pub max_sessions : ℤ
  pub max_rx_payload : ℕ
  pub max_tx_payload : ℕ
  pub policy : Option Policy
  pub vendor_id : ℕ × ℕ

abbrev pub default_max_rx_payload : ℕ
default_max_rx_payload = 8192

abbrev pub default_max_tx_payload : ℕ
default_max_tx_payload = 8192

-- The bytes of "hislip0".
abbrev pub default_sub_address : Bytes
default_sub_address = b'h' ∷ b'i' ∷ b's' ∷ b'l' ∷ b'i' ∷ b'p' ∷ b'0' ∷ []

abbrev addresses_or_default : List Bytes → List Bytes
addresses_or_default [] = default_sub_address ∷ []
addresses_or_default (a ∷ as') = a ∷ as'

abbrev version_or_default : Version → Version
version_or_default v = if v.major == 0 && v.minor == 0 then version10 else v

unfoldable pub with_defaults : Config → Config
with_defaults c = record c {
  sub_addresses = addresses_or_default c.sub_addresses;
  max_version = version_or_default c.max_version;
  max_sessions = if is_zero c.max_sessions then pos 1 else c.max_sessions;
  max_rx_payload = if c.max_rx_payload == 0 then default_max_rx_payload else c.max_rx_payload;
  max_tx_payload = if c.max_tx_payload == 0 then default_max_tx_payload else c.max_tx_payload;
}

unfoldable pub validate : Config → Result (Unit {0})
unfolding less
validate c = do
  fail_if (below c.max_sessions 1) err_invalid_config
  fail_if (less c.max_version version10) err_invalid_config
  fail_if (ltb c.max_rx_payload header_size || ltb c.max_tx_payload header_size) err_invalid_config
  fail_if c.supports_overlap err_overlap_not_implemented

-- slices.Contains on strings.
abbrev pub contains : List Bytes → Bytes → Bool
contains [] a = false
contains (x ∷ xs) a = same x a || contains xs a

-- The empty sub-address selects the default instrument.
unfoldable pub accepts_sub_address : Config → Bytes → Bool
accepts_sub_address c [] = true
accepts_sub_address c (x ∷ xs) = contains c.sub_addresses (x ∷ xs)

unfoldable pub prefer_overlap_bit : Config → ℕ
prefer_overlap_bit c = if c.supports_overlap then 1 else 0

-- FeatureOverlapped is bit 0.
unfoldable pub feature_bitmap : Config → ℕ → ℕ
feature_bitmap c client_request = if c.supports_overlap && client_request % 2 == 1 then 1 else 0
