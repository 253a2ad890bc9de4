-- ===== src/Server/Transaction/Attribution.antt =====
-- A response is attributed to the message that completed the input.
use hislip.Prelude.{ℕ, ◌≡◌, ◌⊎◌, List, [], ◌∷◌, Option, none, some, arith}
use hislip.Errors.{Result, ok, err}
use hislip.Server.Transaction.{
  TxState, tx_input_complete, tx_response_pending, tx_sending_response, Transaction,
  new_transaction, begin_input, complete_input, expect_response, begin_response, complete,
  interrupt, clear, tx_reset, tx_close,
}

-- The methods that move a transaction.
pub data Call : Type 0 where
  begins_input expects_response begins_response completes interrupts clears resets closes : Call
  completes_input : ℕ → Call

-- A refused call leaves the transaction as it was.
abbrev after : Transaction → Result Transaction → Transaction
after t (ok u) = u
after t (err e) = t

unfoldable pub call : Transaction → Call → Transaction
unfolding begin_input complete_input expect_response begin_response complete interrupt clear
    tx_reset tx_close
call t begins_input = after t (begin_input t)
call t expects_response = after t (expect_response t)
call t begins_response = after t (begin_response t)
call t completes = after t (complete t)
call t interrupts = after t (interrupt t)
call t clears = after t (clear t)
call t resets = tx_reset t
call t closes = tx_close t
call t (completes_input id) = after t (complete_input t id)

-- The MessageID that the latest completed input carried; a call that is refused completes nothing.
abbrev completed : Result Transaction → ℕ → Option ℕ → Option ℕ
completed (ok u) id before = some id
completed (err e) id before = before

unfoldable pub input_id : Transaction → Call → Option ℕ → Option ℕ
unfolding complete_input
input_id t (completes_input id) before = completed (complete_input t id) id before
input_id t _ before = before

unfoldable pub calls : Transaction → List Call → Transaction
unfolding call
calls t [] = t
calls t (c ∷ cs) = calls (call t c) cs

unfoldable pub last_input_id : Transaction → List Call → Option ℕ → Option ℕ
unfolding call input_id
last_input_id t [] before = before
last_input_id t (c ∷ cs) before = last_input_id (call t c) cs (input_id t c before)

-- The states between the end of a program message and the end of its response.
abbrev pub Responding : TxState → Type 0
Responding s = (s ≡ tx_input_complete) ⊎ (s ≡ tx_response_pending) ⊎ (s ≡ tx_sending_response)

call-attributed :
    (t : Transaction) (c : Call) (before : Option ℕ)
    → (Responding t.state → before ≡ some t.id)
    → Responding (call t c).state
    → input_id t c before ≡ some (call t c).id
unfolding call input_id
call-attributed t begins_input before inv r = ground arith
call-attributed t expects_response before inv r = ground arith
call-attributed t begins_response before inv r = ground arith
call-attributed t completes before inv r = ground arith
call-attributed t interrupts before inv r = ground arith
call-attributed t clears before inv r = ground arith
call-attributed t resets before inv r = ground arith
call-attributed t closes before inv r = ground arith
call-attributed t (completes_input id) before inv r = ground arith

calls-attributed :
    (t : Transaction) (cs : List Call) (before : Option ℕ)
    → (Responding t.state → before ≡ some t.id)
    → Responding (calls t cs).state
    → last_input_id t cs before ≡ some (calls t cs).id
unfolding calls last_input_id
calls-attributed t [] before inv = inv
calls-attributed t (c ∷ cs) before inv =
    calls-attributed (call t c) cs (input_id t c before) (call-attributed t c before inv)

-- After any history of calls, refused ones included, a transaction whose program message is whole and
-- whose response is due or under way carries the MessageID of the input that was completed last.
pub response_attributed :
    (cs : List Call)
    → Responding (calls new_transaction cs).state
    → last_input_id new_transaction cs none ≡ some (calls new_transaction cs).id
response_attributed cs = calls-attributed new_transaction cs none (λ r. ground arith)
