-- ===== src/Server/Transaction.antt =====
-- server/transaction.go: the state machine of a synchronized input/response transaction. A method
-- that fails leaves the transaction as it was.
pub mod Edges
pub mod Attribution
use hislip.Prelude.{ℕ, Bool, true, false, not, ◌&&◌, ◌||◌, List, [], ◌∷◌, if◌then◌else◌}
use hislip.Errors.{Result, ok, err, err_invalid_transition, ◌>>=◌}
use hislip.Protocol.MessageId.{no_message_id}

pub data TxState : Type 0 where
  tx_idle tx_receiving_input tx_input_complete tx_response_pending : TxState
  tx_sending_response tx_interrupted tx_clearing tx_closed : TxState

pub record Transaction : Type 0 where
  pub state : TxState
  pub id : ℕ

unfoldable pub tx_transitions : TxState → List TxState
tx_transitions tx_idle = tx_receiving_input ∷ tx_input_complete ∷ []
tx_transitions tx_receiving_input = tx_receiving_input ∷ tx_input_complete ∷ tx_interrupted ∷ []
tx_transitions tx_input_complete =
    tx_response_pending ∷ tx_idle ∷ tx_receiving_input ∷ tx_interrupted ∷ []
tx_transitions tx_response_pending = tx_sending_response ∷ tx_idle ∷ tx_interrupted ∷ []
tx_transitions tx_sending_response = tx_sending_response ∷ tx_idle ∷ tx_interrupted ∷ []
tx_transitions tx_interrupted = tx_idle ∷ []
tx_transitions tx_clearing = tx_idle ∷ []
tx_transitions tx_closed = []

-- `a == b` on states.
abbrev pub same_state : TxState → TxState → Bool
same_state tx_idle tx_idle = true
same_state tx_receiving_input tx_receiving_input = true
same_state tx_input_complete tx_input_complete = true
same_state tx_response_pending tx_response_pending = true
same_state tx_sending_response tx_sending_response = true
same_state tx_interrupted tx_interrupted = true
same_state tx_clearing tx_clearing = true
same_state tx_closed tx_closed = true
same_state _ _ = false

-- slices.Contains
abbrev contains : List TxState → TxState → Bool
contains [] s = false
contains (x ∷ xs) s = same_state x s || contains xs s

unfoldable pub self_edge : TxState → Bool
self_edge s = same_state s tx_receiving_input || same_state s tx_sending_response

-- Transaction.To.
unfoldable pub to : Transaction → TxState → Result Transaction
unfolding self_edge tx_transitions
to t next =
    if same_state next t.state && not (self_edge t.state)
    then err err_invalid_transition
    else if same_state next tx_clearing || same_state next tx_closed
    then ok (record t { state = next })
    else if same_state t.state tx_closed
    then err err_invalid_transition
    else if contains (tx_transitions t.state) next
    then ok (record t { state = next })
    else err err_invalid_transition

unfoldable pub begin_input : Transaction → Result Transaction
unfolding to
begin_input t = to t tx_receiving_input

unfoldable pub complete_input : Transaction → ℕ → Result Transaction
unfolding to
complete_input t id = do u ← to t tx_input_complete; ok (record u { id = id })

unfoldable pub expect_response : Transaction → Result Transaction
unfolding to
expect_response t = to t tx_response_pending

unfoldable pub begin_response : Transaction → Result Transaction
unfolding to
begin_response t = to t tx_sending_response

unfoldable pub complete : Transaction → Result Transaction
unfolding to
complete t = do u ← to t tx_idle; ok (record u { id = no_message_id })

-- Transaction.Interrupt.
unfoldable pub interrupt : Transaction → Result Transaction
unfolding to
interrupt t = to t tx_interrupted

-- Transaction.Clear.
unfoldable pub clear : Transaction → Result Transaction
unfolding to
clear t = to t tx_clearing

-- Transaction.Reset.
unfoldable pub tx_reset : Transaction → Transaction
tx_reset t = record { state = tx_idle; id = no_message_id }

-- Transaction.Close.
unfoldable pub tx_close : Transaction → Transaction
tx_close t = record { state = tx_closed; id = no_message_id }

abbrev pub new_transaction : Transaction
new_transaction = record { state = tx_idle; id = 0 }
