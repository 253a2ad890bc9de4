-- ===== src/Protocol/Version/Order.antt =====
-- The order of versions (Version.Less, AtLeast) and what Negotiate promises.
use hislip.Prelude.{◌≡◌, ◌⊎◌, true, arith}
use hislip.Protocol.Version.{Version, at_least, negotiate}

-- The negotiated version is one of the two, neither side's version precedes it, and any version
-- that both sides reach is reached by it: it is the highest that both implement.
pub negotiate-greatest :
    (client server v : Version)
    → ((negotiate client server ≡ client) ⊎ (negotiate client server ≡ server))
      × (at_least client (negotiate client server) ≡ true)
      × (at_least server (negotiate client server) ≡ true)
      × (at_least client v ≡ true
          → at_least server v ≡ true
          → at_least (negotiate client server) v ≡ true)
unfolding negotiate at_least
negotiate-greatest client server v = ground arith
