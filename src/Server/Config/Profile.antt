-- ===== src/Server/Config/Profile.antt =====
-- What a profile that Validate admits promises, and the defaults.
use hislip.Prelude.{ℕ, ◌≤◌, ◌≡◌, true, false, arith}
use hislip.Prelude.Int.{below}
use hislip.Errors.{ok}
use hislip.Protocol.Version.{at_least, version10, less}
use hislip.Protocol.Header.{header_size}
use hislip.Server.Config.{Config, with_defaults, validate, prefer_overlap_bit, feature_bitmap}

-- A profile that a server can run with.
pub record IsProfile (c : Config) : Type 0 where
  pub sessions : below c.max_sessions 1 ≡ false
  pub version : at_least c.max_version version10 ≡ true
  pub rx : header_size ≤ c.max_rx_payload
  pub tx : header_size ≤ c.max_tx_payload
  pub no_overlap : c.supports_overlap ≡ false

-- Validate admits exactly the profiles with room for a session, a version from 1.0 on, payload limits of
-- at least a header, and no overlap mode. With such a profile overlap is neither preferred nor agreed
-- to, whatever a client asks for; and defaults do not change a profile that is admitted.
pub validate_iff :
    (c : Config)
    → (validate c ≡ ok tt → IsProfile c)
      × (IsProfile c → validate c ≡ ok tt)
      × (IsProfile c → (prefer_overlap_bit c ≡ 0) × ((request : ℕ) → feature_bitmap c request ≡ 0))
      × (IsProfile c → (with_defaults c).max_sessions ≡ c.max_sessions)
      × (IsProfile c
          → ((with_defaults c).max_version ≡ c.max_version)
            × ((with_defaults c).max_rx_payload ≡ c.max_rx_payload)
            × ((with_defaults c).max_tx_payload ≡ c.max_tx_payload))
unfolding validate with_defaults at_least prefer_overlap_bit feature_bitmap less
validate_iff c = (
  λ e. ground arith,
  λ p. ground arith,
  λ p. (ground arith, λ request. ground arith),
  λ p. ground arith,
  λ p. ground arith,
)
