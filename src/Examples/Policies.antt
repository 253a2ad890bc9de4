-- ===== src/Examples/Policies.antt =====
-- The theorems on response policies, transactions and trackers at concrete inputs.
use hislip.Errors.{Error, err, err_invalid_transition, ok}
use hislip.Prelude.{
  All, Bytes, List, [], arith, false, inl, inr, none, refl, some, true, ◌++◌, ◌↔◌, ◌∷◌, ◌≡◌,
}
use hislip.Prelude.Text.{codes}
use hislip.Server.Policy.{
  ScpiQueryPolicy, disposition, feed, new_policy, no_response_expected, response_expected,
}
use hislip.Server.Policy.Chunks.{feed-append, feed-scan, scan}
use hislip.Server.Policy.Skips.{disposition-message}
use hislip.Server.Policy.Strings.{IsItem, Item, block, message, quoted, text}
use hislip.Server.Rmt.{rmt_reset}
use hislip.Server.Rmt.Exchange.{
  Conforms, Event, conforming_client, errors, response_sent, sync_arrives,
}
use hislip.Server.Transaction.{
  Transaction, TxState, complete_input, expect_response, new_transaction, to, tx_receiving_input,
}
use hislip.Server.Transaction.Attribution.{
  Call, Responding, call, calls, completes_input, expects_response, last_input_id,
  response_attributed,
}
use hislip.Server.Transaction.Edges.{Edge, to-Edge}

items-IsItem :
    All IsItem (text b'V' ∷ quoted b'"' (codes "why?") ∷ block (2 ∷ []) (codes "?!") ∷ [])
items-IsItem = (
  (λ e. omega arith, λ e. omega arith, λ e. omega arith, λ e. omega arith),
  (inr refl, ((omega arith, omega arith, (omega arith, tt), refl, omega arith), tt)),
)

has_response_due :
    Responding (calls new_transaction (completes_input 5 ∷ expects_response ∷ [])).state
unfolding calls call complete_input expect_response to
has_response_due = inr (inl refl)

disposition-message_example :
    let is : List Item =
      text b'V' ∷ quoted b'"' (codes "why?") ∷ block (2 ∷ []) (codes "?!") ∷ [] in
    let rest : Bytes = codes "\n" in
    (disposition (feed new_policy (message is)) ≡ no_response_expected)
    × (disposition (feed new_policy (message is ++ b'?' ∷ rest)) ≡ response_expected)
disposition-message_example =
    disposition-message (text b'V' ∷ quoted b'"' (codes "why?") ∷ block (2 ∷ []) (codes "?!") ∷ [])
      (codes "\n") items-IsItem

feed-scan_example :
    let p : ScpiQueryPolicy = new_policy in
    let chunk : Bytes = codes "*IDN?" in feed p chunk ≡ scan p chunk
feed-scan_example = feed-scan new_policy (codes "*IDN?")

feed-append_example :
    let p : ScpiQueryPolicy = new_policy in
    let xs : Bytes = codes "#1" in
    let ys : Bytes = codes "2??!" in feed (feed p xs) ys ≡ feed p (xs ++ ys)
feed-append_example = feed-append new_policy (codes "#1") (codes "2??!")

response_attributed_example :
    let cs : List Call = completes_input 5 ∷ expects_response ∷ [] in
    last_input_id new_transaction cs none ≡ some (calls new_transaction cs).id
response_attributed_example =
    response_attributed (completes_input 5 ∷ expects_response ∷ []) has_response_due

to-Edge_example :
    let t : Transaction = new_transaction in
    let next : TxState = tx_receiving_input in
    ((u : Transaction) → (to t next ≡ ok u) ↔ (Edge t.state next × (u ≡ record t { state = next })))
    × ((e : Error) → to t next ≡ err e → e ≡ err_invalid_transition)
to-Edge_example = to-Edge new_transaction tx_receiving_input

conforming_client_example :
    let es : List Event = response_sent ∷ sync_arrives true ∷ [] in
    errors (rmt_reset (record { expected = false })) es ≡ 0
conforming_client_example =
    conforming_client (response_sent ∷ sync_arrives true ∷ []) (unfold Conforms in (refl, tt))
