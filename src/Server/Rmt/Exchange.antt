-- ===== src/Server/Rmt/Exchange.antt =====
-- A client that follows the RMT rules, and one that misses a response.
use hislip.Prelude.{ℕ, suc, ◌≡◌, ◌≢◌, refl, Bool, true, false, List, [], ◌∷◌, arith, if◌then◌else◌}
use hislip.Server.Rmt.{
  Interrupted, not_interrupted, Rmt, notifies, sent_data_end, rmt_received, rmt_queried, rmt_reset,
}

-- What a session does with its tracker, as server and client see it: the server completes a
-- response; a message arrives on the synchronous channel, or a status query, with its flag.
pub data Event : Type 0 where
  response_sent : Event
  sync_arrives : Bool → Event
  query_arrives : Bool → Event

-- The tracker after an event, and the error that the event declares.
unfoldable pub track : Rmt → Event → Interrupted × Rmt
unfolding sent_data_end rmt_received rmt_queried
track r response_sent = (not_interrupted, sent_data_end r)
track r (sync_arrives flag) = rmt_received r flag
track r (query_arrives flag) = (not_interrupted, rmt_queried r flag)

-- The number of errors that a history declares.
abbrev pub count_one : Interrupted → ℕ → ℕ
count_one not_interrupted n = n
count_one _ n = suc n

unfoldable pub errors : Rmt → List Event → ℕ
unfolding track
errors r [] = 0
errors r (e ∷ es) = let (i, r') = track r e in count_one i (errors r' es)

-- The client of IVI-6.1: it sets the flag on the first message or query behind a response that it
-- has read, and only there. `unread` tells that a response has been delivered since the last flag.
unfoldable pub Conforms : Bool → List Event → Type 0
Conforms unread [] = Unit
Conforms unread (response_sent ∷ es) = Conforms true es
Conforms unread (sync_arrives flag ∷ es) = (flag ≡ unread) × Conforms false es
Conforms unread (query_arrives flag ∷ es) =
    (flag ≡ true → unread ≡ true) × Conforms (if flag then false else unread) es

Conforms-errors :
    (unread : Bool) (es : List Event)
    → Conforms unread es
    → errors (record { expected = unread }) es ≡ 0
unfolding errors Conforms
Conforms-errors unread [] h = refl
Conforms-errors unread (response_sent ∷ es) h = Conforms-errors true es h
Conforms-errors unread (sync_arrives flag ∷ es) h = ground (arith, Conforms-errors false es h.1)
Conforms-errors unread (query_arrives true ∷ es) h = Conforms-errors false es h.1
Conforms-errors unread (query_arrives false ∷ es) h = Conforms-errors unread es h.1

-- A client that follows the RMT rules from the start of a session is never charged with an interrupted
-- error, whatever the order of messages, queries and responses.
pub conforming_client :
    (es : List Event) → Conforms false es → errors (rmt_reset (record { expected = false })) es ≡ 0
unfolding rmt_reset
conforming_client es h = Conforms-errors false es h

-- One mistake costs one error: behind a message with a wrong flag, a client that goes on as the rules
-- say (no response unread) is charged with nothing more. The error is one that is not signalled.
pub mismatch_once :
    (r : Rmt) (flag : Bool) (es : List Event)
    → flag ≢ r.expected
    → Conforms false es
    → (errors r (sync_arrives flag ∷ es) ≡ 1) × (notifies (track r (sync_arrives flag)).0 ≡ false)
unfolding errors notifies
mismatch_once r flag es h c = ground (arith, Conforms-errors false es c)
