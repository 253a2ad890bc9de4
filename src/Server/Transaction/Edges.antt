-- ===== src/Server/Transaction/Edges.antt =====
-- The edges of the state machine as a relation, and that `to` follows exactly these.
use hislip.Prelude.{ℕ, ◌≡◌, ◌≢◌, refl, ◌↔◌, arith}
use hislip.Errors.{ok, err, Error, err_invalid_transition}
use hislip.Server.Transaction.{
  TxState, tx_idle, tx_receiving_input, tx_input_complete, tx_response_pending, tx_sending_response,
  tx_interrupted, tx_clearing, tx_closed, Transaction, to,
}

-- The diagram of the transaction: input in chunks, a response in chunks, an interruption, a Device
-- Clear from every other state, a close from every other state. Nothing leaves `tx_closed` but a
-- Device Clear.
pub data Edge : TxState → TxState → Type 0 where
  first_chunk : Edge tx_idle tx_receiving_input
  whole_message : Edge tx_idle tx_input_complete
  next_chunk : Edge tx_receiving_input tx_receiving_input
  last_chunk : Edge tx_receiving_input tx_input_complete
  expect : Edge tx_input_complete tx_response_pending
  no_response : Edge tx_input_complete tx_idle
  more_input : Edge tx_input_complete tx_receiving_input
  respond : Edge tx_response_pending tx_sending_response
  give_up : Edge tx_response_pending tx_idle
  next_part : Edge tx_sending_response tx_sending_response
  responded : Edge tx_sending_response tx_idle
  interrupt_input : Edge tx_receiving_input tx_interrupted
  interrupt_complete : Edge tx_input_complete tx_interrupted
  interrupt_pending : Edge tx_response_pending tx_interrupted
  interrupt_response : Edge tx_sending_response tx_interrupted
  unwound : Edge tx_interrupted tx_idle
  cleared : Edge tx_clearing tx_idle
  clear_from : {s : TxState} → s ≢ tx_clearing → Edge s tx_clearing
  close_from : {s : TxState} → s ≢ tx_closed → Edge s tx_closed

ruleset edges = (
  first_chunk, whole_message, next_chunk, last_chunk, expect, no_response, more_input, respond,
  give_up, next_part, responded, interrupt_input, interrupt_complete, interrupt_pending,
  interrupt_response, unwound, cleared, clear_from, close_from,
)

edge-to :
    {s next : TxState} (id : ℕ)
    → Edge s next
    → to (record { state = s; id = id }) next ≡ ok (record { state = next; id = id })
unfolding to
edge-to {s} id (clear_from h) = ground arith
edge-to {s} id (close_from h) = ground arith
edge-to id first_chunk = refl
edge-to id _ = refl

to-edge :
    (s next : TxState) (id : ℕ) (u : Transaction)
    → to (record { state = s; id = id }) next ≡ ok u
    → Edge s next × (u ≡ record { state = next; id = id })
unfolding to
to-edge s next id u h = (grind (arith, edges), ground arith)

-- `To` succeeds exactly along an edge of the diagram, and then changes the state and nothing else. The
-- only error that it gives is that of an invalid transition.
pub to-Edge :
    (t : Transaction) (next : TxState)
    → ((u : Transaction)
        → (to t next ≡ ok u) ↔ (Edge t.state next × (u ≡ record t { state = next })))
      × ((e : Error) → to t next ≡ err e → e ≡ err_invalid_transition)
unfolding to
to-Edge t next =
    (λ u. (to-edge t.state next t.id u, λ h. rw h.1 (edge-to t.id h.0)), λ e h. ground arith)
