-- ===== src/Examples/Connections.antt =====
-- The theorems on new connections at concrete inputs.
use hislip.Protocol.MessageType
use hislip.Errors.{Error, err, ok, text}
use hislip.Examples.Instrument.{config, quiet}
use hislip.Prelude.{Bytes, [], arith, refl, ℕ, ◌≡◌}
use hislip.Prelude.Text.{codes}
use hislip.Protocol.Header.{Header, no_header}
use hislip.Protocol.Version.{decode_initialize_parameter, negotiate}
use hislip.Server.Channels.{Serving, open_sync, read_sub_address}
use hislip.Server.Channels.Causes.{IsAdmitted, IsRefusedFor}
use hislip.Server.Channels.Outcomes.{IsOpened, IsRefused}
use hislip.Server.Channels.Refusals.{open_sync_lem}
use hislip.Server.Locks.{no_locks}
use hislip.Server.Session.{Session}
use hislip.Server.State.{no_counts}
use hislip.Server.WireError.{wire_error_for}

abbrev serving : Serving
serving = record {
  reg = record { cfg = config; sessions = []; next_id = 1; locks = no_locks; conns = λ k. quiet };
  counts = no_counts;
}

open_sync_lem_example :
    let k : ℕ = 0 in
    let h : Header = record no_header { type = MessageType.initialize; parameter = 0x0101_5858 } in
    let g : Serving = serving in
    let read = (read_sub_address h g.reg.cfg.max_rx_payload (g.reg.conns k)).0 in
    let r = open_sync k h g in
    ((x : Error) → read ≡ err x → (r.0 ≡ err x) × IsRefused k 1 (codes "bad sub-address") g r.1)
    × ((sub : Bytes)
        → read ≡ ok sub
        → ((e : Error)
            → r.0 ≡ err e
            → IsRefusedFor g.reg h sub e × IsRefused k (wire_error_for e).fatal_code (text e) g r.1)
          × ((sess : Session)
              → r.0 ≡ ok sess
              → IsAdmitted g.reg h sub
                × IsOpened k
                    (negotiate (decode_initialize_parameter h.parameter).0 g.reg.cfg.max_version)
                    sess
                    g
                    r.1))
open_sync_lem_example =
    open_sync_lem 0 (record no_header { type = MessageType.initialize; parameter = 0x0101_5858 })
      serving refl (omega arith) (omega arith)
