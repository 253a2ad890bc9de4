-- ===== src/Examples/Reading.antt =====
-- The theorem on the reading task and its loop at a concrete input.
use hislip.Protocol.MessageType
use hislip.Examples.Instrument.{quiet}
use hislip.Prelude.{All, List, [], length, some, ℕ, ◌++◌, ◌<◌, ◌∷◌, ◌≡◌, ◌≤◌}
use hislip.Protocol.Header.{header_bytes, no_header}
use hislip.Protocol.Stream.{Stream}
use hislip.Server.Reader.Pool.{
  Event, Slot, history, new_reader, notices_done, read_ahead_slots, releases, sends_message, stops,
  takes_buffer, takes_next,
}
use hislip.Server.Reader.Pool.Order.{InOrder, pool_sound}
use hislip.Server.Reader.Pool.Owned.{HeldIntact, IsIntact, owners}

pool_sound_example :
    let s : Stream = record quiet {
      inbox =
          header_bytes (record no_header { type = MessageType.data_end; length = 2 }) ++ 7 ∷ 8 ∷ [];
    } in
    let limit : ℕ = 4 in
    let es : List Event =
      takes_buffer []
      ∷ sends_message
      ∷ takes_next
      ∷ takes_buffer []
      ∷ stops
      ∷ notices_done
      ∷ releases
      ∷ [] in
    let p = history es (new_reader s limit) in
    ((b : ℕ) → owners b p ≤ 1)
    × HeldIntact p.mem p.held
    × All (IsIntact p.mem) p.msgs
    × ((q : Slot) → p.held ≡ some q → length p.free < read_ahead_slots)
    × (length p.msgs ≤ 1)
    × InOrder s p
pool_sound_example =
    pool_sound
      (record quiet {
        inbox =
            header_bytes (record no_header { type = MessageType.data_end; length = 2 })
            ++ 7 ∷ 8 ∷ [];
      })
      4
      (takes_buffer []
        ∷ sends_message
        ∷ takes_next
        ∷ takes_buffer []
        ∷ stops
        ∷ notices_done
        ∷ releases
        ∷ [])
