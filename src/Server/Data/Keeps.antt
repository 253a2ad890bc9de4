-- ===== src/Server/Data/Keeps.antt =====
-- ReceiveData, Trigger and SendResponse of server/data.go only write through the session's writers.
use hislip.Prelude.{ℕ, zero, suc, refl, Bool, true, false, Option, none, some, Bytes, if-both}
use hislip.Errors.{Error, Result, ok, err}
use hislip.Protocol.Header.{Header, message_id}
use hislip.Server.Rmt.{Interrupted, not_interrupted, sent_data_end}
use hislip.Server.Status.{set_response_pending}
use hislip.Server.Transaction.{complete_input, complete, begin_response}
use hislip.Server.Device.{Device, Chunk}
use hislip.Server.Session.{require_ready, set_last_tx_message_id}
use hislip.Server.State.{State, M, ◌>>◌, change}
use hislip.Server.State.Keeps.{
  IsStable, Keeps, keeping, then-Keeps, change-Keeps, dev_result-P, Safe, safe_steps,
}
use hislip.Server.Data.{
  ResponseOutcome, response_absent, response_complete, response_interrupted, Response, Attempt,
  attempt, deferred, finish, arrive, beside, input_step, receive_data, trigger_device, step_tx,
  dev_result, terminate, complete_absent_response, send_interrupted, send_chunk, send_failed,
  send_end, send_loop, after_chunk, set_pending, send_response,
}

module _ {D : Type 0} {P : State D → Type 0} (stable : IsStable P) where
  arrive-P : (h : Header) (s : State D) → P s → P (arrive h s).1
  unfolding arrive
  arrive-P h s = stable.quiet s _ (record { conns = refl; sync_w = refl; async_w = refl })

  input_step-Keeps : (h : Header) → Keeps P (input_step h)
  unfolding input_step
  input_step-Keeps h = search keeping

  written-Keeps :
      (dev : Device D) (payload : Bytes) (end : Bool)
      → Keeps P (λ t. dev_result (dev.write t.dev payload end) t)
  written-Keeps dev payload end = record {
    after = λ t p. dev_result-P stable (dev.write t.dev payload end) t p;
  }

  triggered-Keeps : (dev : Device D) → Keeps P (λ t. dev_result (dev.trigger t.dev) t)
  triggered-Keeps dev = record { after = λ t p. dev_result-P stable (dev.trigger t.dev) t p }

  pub receive_data-P :
      (dev : Device D) (h : Header) (payload : Bytes) (s : State D)
      → P s
      → P (receive_data dev h payload s).1
  unfolding receive_data
  receive_data-P dev h payload s p =
      if-both (λ (r : (Interrupted × Result (Unit {0})) × State D). P r.1) _ _ _ p
        ((then-Keeps stable (input_step-Keeps h) (written-Keeps dev payload _)).after (arrive h s).1
          (arrive-P h s p))

  abbrev trigger_rest : Device D → Header → M D (Unit {0})
  trigger_rest dev h =
      step_tx (λ t. complete_input t (message_id h))
      >> (λ t. dev_result (dev.trigger t.dev) t)
      >> step_tx complete

  trigger_rest-Keeps : (dev : Device D) (h : Header) → Keeps P (trigger_rest dev h)
  trigger_rest-Keeps dev h = search (keeping, triggered-Keeps)

  abbrev trigger_ready :
      Device D → Header → State D → Result (Unit {0}) → (Interrupted × Result (Unit {0})) × State D
  trigger_ready dev h s (err e) = ((not_interrupted, err e), s)
  trigger_ready dev h s (ok _) = let (i, s') = arrive h s in beside i (trigger_rest dev h s')

  trigger_ready-P :
      (dev : Device D) (h : Header) (s : State D) (r : Result (Unit {0}))
      → P s
      → P (trigger_ready dev h s r).1
  trigger_ready-P dev h s (err e) p = p
  trigger_ready-P dev h s (ok u) p =
      (trigger_rest-Keeps dev h).after (arrive h s).1 (arrive-P h s p)

  pub trigger_device-P :
      (dev : Device D) (h : Header) (s : State D) → P s → P (trigger_device dev h s).1
  unfolding trigger_device
  trigger_device-P dev h s p =
      if-both (λ (r : (Interrupted × Result (Unit {0})) × State D). P r.1) _ _
        (trigger_ready dev h s (require_ready s.sess)) p
        (trigger_ready-P dev h s (require_ready s.sess) p)

  changed-Keeps :
      (id : ℕ)
      → Keeps P (change λ x. set_last_tx_message_id (record x { rmt = sent_data_end x.rmt }) id)
  changed-Keeps id = change-Keeps stable _ (λ x. (refl, refl))

  cleared-Keeps :
      (b : Bool) → Keeps P (change λ x. record x { status = set_response_pending x.status b })
  cleared-Keeps b = change-Keeps stable _ (λ x. (refl, refl))

  terminate-Keeps : (r : Response) (final : Bytes) → Keeps P (terminate r final)
  unfolding terminate
  terminate-Keeps r final = search (keeping, changed-Keeps)

  complete_absent_response-Keeps : (r : Response) → Keeps P (complete_absent_response r)
  unfolding complete_absent_response
  complete_absent_response-Keeps r = search (keeping, terminate-Keeps)

  send_interrupted-Keeps : (r : Response) → Keeps P (send_interrupted r)
  unfolding send_interrupted
  send_interrupted-Keeps r = search (keeping, cleared-Keeps)

  terminate-Safe : (r : Response) (final : Bytes) (s : State D) → P s → Safe P (terminate r final s)
  terminate-Safe r final s p = record { holds = (terminate-Keeps r final).after s p }

  absent-Safe : (r : Response) (s : State D) → P s → Safe P (complete_absent_response r s)
  absent-Safe r s p = record { holds = (complete_absent_response-Keeps r).after s p }

  interrupted-Safe : (r : Response) (s : State D) → P s → Safe P (send_interrupted r s)
  interrupted-Safe r s p = record { holds = (send_interrupted-Keeps r).after s p }

  attempt-Safe :
      (r : Result (Unit {0}) × State D) (outcome : ResponseOutcome) (go : State D → Attempt D)
      → Safe P r
      → ((s : State D) → P s → Safe P (go s))
      → Safe P (attempt r outcome go)
  attempt-Safe (err e, s) outcome go p k = record { holds = p.holds }
  attempt-Safe (ok u, s) outcome go p k = k s p.holds

  ruleset attempts = (safe_steps, terminate-Safe, absent-Safe, interrupted-Safe, attempt-Safe)

  send_failed-Safe :
      (r : Response) (delivered : ℕ) (s : State D) → P s → Safe P (send_failed r delivered s)
  unfolding send_failed
  send_failed-Safe r delivered s p = search attempts

  abbrev offered : Response → Bytes → State D → Attempt D
  offered r bytes s =
      attempt (step_tx begin_response s) response_absent
        (λ t. attempt (terminate r bytes t) response_complete (finish response_complete))

  offered-Safe : (r : Response) (bytes : Bytes) (s : State D) → P s → Safe P (offered r bytes s)
  offered-Safe r bytes s p = search attempts

  -- The end of a response by what the predicate InputQueued answers.
  abbrev end_by : Option Bool → Response → Bytes → State D → Attempt D
  end_by queued r bytes s = elim queued [
    | some true ↦ attempt (send_interrupted r s) response_interrupted (finish response_interrupted)
    | _ ↦ offered r bytes s
  ]

  end_by-Safe :
      (queued : Option Bool) (r : Response) (bytes : Bytes) (s : State D)
      → P s
      → Safe P (end_by queued r bytes s)
  end_by-Safe none r bytes s p = offered-Safe r bytes s p
  end_by-Safe (some false) r bytes s p = offered-Safe r bytes s p
  end_by-Safe (some true) r bytes s p = search attempts

  send_end-Safe : (r : Response) (bytes : Bytes) (s : State D) → P s → Safe P (send_end r bytes s)
  unfolding send_end
  send_end-Safe r bytes s p = end_by-Safe r.input_queued r bytes s p

  send_chunk-Safe :
      (r : Response) (chunk : Chunk) (delivered : ℕ) (s : State D) (go : ℕ → State D → Attempt D)
      → P s
      → ((n : ℕ) (t : State D) → P t → Safe P (go n t))
      → Safe P (send_chunk r chunk delivered s go)
  unfolding send_chunk
  send_chunk-Safe r chunk delivered s go p k = search (attempts, k)

  after_chunk-Safe :
      (e : Option Error) (end : Bool) (r : Response) (bytes : Bytes)
      (again : ℕ → State D → Attempt D)
      → ((n : ℕ) (t : State D) → P t → Safe P (again n t))
      → (n : ℕ) (t : State D) → P t
      → Safe P (after_chunk e end r bytes again n t)
  after_chunk-Safe (some e) end r bytes again k n t p = send_failed-Safe r n t p
  after_chunk-Safe none false r bytes again k n t p = k n t p
  after_chunk-Safe none true r bytes again k n t p = send_end-Safe r bytes t p

  send_loop-Safe :
      (dev : Device D) (r : Response) (fuel delivered : ℕ) (s : State D)
      → P s
      → Safe P (send_loop dev r fuel delivered s)
  unfolding send_loop
  send_loop-Safe dev r zero delivered s p = record { holds = p }
  send_loop-Safe dev r (suc fuel) delivered s p =
      let (chunk, d) = dev.read s.dev r.scratch in
      send_chunk-Safe r chunk delivered (record s { dev = d })
        (after_chunk chunk.error chunk.end r chunk.bytes (λ n t. send_loop dev r fuel n t))
        (stable.quiet s _ (record { conns = refl; sync_w = refl; async_w = refl }) p)
        (after_chunk-Safe chunk.error chunk.end r chunk.bytes (λ n t. send_loop dev r fuel n t)
          (λ n t q. send_loop-Safe dev r fuel n t q))

  set_pending-P : (b : Bool) (s : State D) → P s → P (set_pending b s)
  unfolding set_response_pending
  set_pending-P b s = stable.quiet s _ (record { conns = refl; sync_w = refl; async_w = refl })

  abbrev responding : Device D → Response → ℕ → State D → Attempt D
  responding dev r fuel u = deferred (send_loop dev r fuel 0 (set_pending true u))

  responding-Safe :
      (dev : Device D) (r : Response) (fuel : ℕ) (u : State D)
      → P u
      → Safe P (responding dev r fuel u)
  responding-Safe dev r fuel u p = record {
    holds =
        set_pending-P false (send_loop dev r fuel 0 (set_pending true u)).1
          (send_loop-Safe dev r fuel 0 (set_pending true u) (set_pending-P true u p)).holds;
  }

  pub send_response-Safe :
      (dev : Device D) (r : Response) (fuel : ℕ) (s : State D)
      → P s
      → Safe P (send_response dev r fuel s)
  unfolding send_response
  send_response-Safe dev r fuel s p = search (attempts, responding-Safe dev r fuel)
