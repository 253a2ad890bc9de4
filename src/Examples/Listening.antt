-- ===== src/Examples/Listening.antt =====
-- The theorems on a listener at concrete inputs.
use hislip.Errors.{external}
use hislip.Listener.{
  Event, Listener, accept_fails, accepts, among, cancels, close_begins, close_ends, happens,
  history, holding, new_listener, registers, returned, starts, wait_ends,
}
use hislip.Listener.Closes.{close_reaches}
use hislip.Listener.Ends.{serve_returns}
use hislip.Listener.Late.{late_connection}
use hislip.Prelude.{List, [], false, inr, none, refl, true, ℕ, ◌||◌, ◌∷◌, ◌≡◌, ◌≢◌}
use hislip.Prelude.Text.{codes}

serve_returns_example :
    let es : List Event = accepts 3 ∷ starts ∷ close_begins ∷ close_ends ∷ [] in
    let t = history es new_listener in
    (t.conns ≡ t.tasks)
    × (t.phase ≡ returned none → (t.closed || t.cancelled ≡ true) × (t.tasks ≡ []) × (t.conns ≡ []))
serve_returns_example = serve_returns (accepts 3 ∷ starts ∷ close_begins ∷ close_ends ∷ [])

close_reaches_example :
    let l : Listener = record new_listener { conns = 3 ∷ []; tasks = 3 ∷ [] } in
    let k : ℕ = 3 in
    let es : List Event = cancels ∷ close_ends ∷ [] in
    let t = history es (happens close_begins l) in t.shut k ≡ true
close_reaches_example =
    close_reaches (record new_listener { conns = 3 ∷ []; tasks = 3 ∷ [] }) 3
      (cancels ∷ close_ends ∷ []) refl refl (unfold happens history in refl)

late_connection_example :
    let k : ℕ = 3 in
    let l : Listener = record new_listener { phase = holding 3 } in
    let es : List Event =
      close_ends
      ∷ starts
      ∷ registers 3
      ∷ accept_fails (external (codes "closed"))
      ∷ wait_ends
      ∷ [] in
    let t = history es (happens close_begins l) in
    (t.shut k ≡ false) × (t.phase ≢ returned none) × (t.phase ≢ holding k → among t.tasks k ≡ true)
late_connection_example =
    late_connection 3 (record new_listener { phase = holding 3 })
      (close_ends
        ∷ starts
        ∷ registers 3
        ∷ accept_fails (external (codes "closed"))
        ∷ wait_ends
        ∷ [])
      refl refl refl refl refl ((tt, (tt, (inr (unfold happens in refl), (tt, (tt, tt))))))
