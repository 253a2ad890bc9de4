-- ===== src/Examples/Lifetimes.antt =====
-- The theorems on the life of the connections of a server at concrete inputs.
use hislip.Protocol.MessageType
use hislip.Examples.Instrument.{config, paired, quiet}
use hislip.Prelude.{List, [], false, if◌then◌else◌, refl, true, ℕ, ◌==◌, ◌∷◌, ◌≡◌}
use hislip.Protocol.Header.{header_bytes, no_header}
use hislip.Protocol.Stream.{Stream}
use hislip.Server.Lifetimes.{
  AllTimely, Event, calls, closes_all, connects, happens, history, leaves,
}
use hislip.Server.Lifetimes.Accounts.{Connects, fresh_server, sessions_managed, shut_down}
use hislip.Server.Locks.{held, no_locks}
use hislip.Server.Locks.Invariant.{requests}
use hislip.Server.Registry.{Registry, in_use, new_server}
use hislip.Server.Registry.Invariant.{IsValid}
use hislip.Server.Registry.Owners.{Accounted}
use hislip.Server.Session.{state_ready}
use hislip.Server.Transaction.{tx_idle}

-- One connection that asks for a session, and nothing else.
abbrev arriving_conns : ℕ → Stream
arriving_conns k = record quiet {
  inbox =
      if k == 0
      then header_bytes
          (record no_header { type = MessageType.initialize; parameter = 0x0100_5858 })
      else [];
}

abbrev idle_server : Registry
idle_server = record {
  cfg = config;
  sessions = [];
  next_id = 1;
  locks = no_locks;
  conns = arriving_conns;
}

sessions_managed_example :
    let g : Registry = idle_server in
    let es : List Event =
      connects 0 ∷ closes_all ∷ leaves (paired state_ready tx_idle) ∷ connects 1 ∷ [] in
    let t = history es (fresh_server g) in
    IsValid t.reg × (AllTimely es (fresh_server g) → (k : ℕ) → Connects k es → Accounted k t.reg)
sessions_managed_example =
    sessions_managed config arriving_conns idle_server
      (connects 0 ∷ closes_all ∷ leaves (paired state_ready tx_idle) ∷ connects 1 ∷ [])
      (unfold new_server in refl)

shut_down_example :
    let conns : ℕ → Stream = arriving_conns in
    let g : Registry = idle_server in
    let es : List Event = connects 0 ∷ calls (requests 1 []) ∷ connects 1 ∷ [] in
    let s = history es (fresh_server g) in
    let t = happens closes_all s in
    (t.reg.sessions ≡ [])
    × (AllTimely es (fresh_server g) → (k : ℕ) → Connects k es → (t.reg.conns k).closed ≡ true)
    × ((id : ℕ)
        → held t.reg.locks id ≡ (if in_use s.reg.sessions id then false else held s.reg.locks id))
shut_down_example =
    shut_down config arriving_conns idle_server
      (connects 0 ∷ calls (requests 1 []) ∷ connects 1 ∷ []) (unfold new_server in refl)
