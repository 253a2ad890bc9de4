-- ===== src/Examples/Sessions.antt =====
-- The theorems on sessions and what they accept at concrete inputs.
use hislip.Protocol.MessageType
use hislip.Errors.{err, err_invalid_session, ok}
use hislip.Examples.Instrument.{
  Bench, answering, async_writer, at, bench, config, header, paired, quiet, sync_writer,
}
use hislip.Prelude.{
  List, Option, [], arith, false, none, not, refl, some, true, ℕ, ◌%◌, ◌+◌, ◌<◌, ◌==◌, ◌^◌, ◌↔◌,
  ◌∷◌, ◌≡◌, ◌≢◌,
}
use hislip.Prelude.Text.{codes}
use hislip.Protocol.Header.{Header, no_header}
use hislip.Protocol.MessageId.{no_message_id}
use hislip.Protocol.MessageType.{Channel, channel_synchronous}
use hislip.Protocol.Version.{version11}
use hislip.Server.Channels.Conversation.{Turn, async_turn, session-IsFramed, sync_turn, turns}
use hislip.Server.Channels.Framing.{IsFramed, nothing}
use hislip.Server.Clear.{begin_device_clear, complete_device_clear, discard_during_clear}
use hislip.Server.Clear.Restores.{begin_device_clear-abandons, complete_device_clear-restores}
use hislip.Server.Config.{Config, feature_bitmap, validate}
use hislip.Server.Config.Profile.{IsProfile, validate_iff}
use hislip.Server.Device.{Device}
use hislip.Server.Dispatch.{accept}
use hislip.Server.Dispatch.Accepts.{IsAccepted, accept_iff}
use hislip.Server.Locks.{no_locks}
use hislip.Server.Reader.{Message}
use hislip.Server.Registry.{Registry, allocate_id, async_initialize, in_use, session}
use hislip.Server.Registry.Ids.{allocate_id-fresh}
use hislip.Server.Registry.Pairing.{async_initialize-pairs}
use hislip.Server.Session.{
  Session, abort_operation, close_session, new_session, operation, release_operation,
  state_clearing, state_pairing, state_ready,
}
use hislip.Server.Session.Operations.{
  Steps, abort_reaches, finishes, goes, is_cancelled, starts, stays,
}
use hislip.Server.State.{State}
use hislip.Server.Status.{new_status}
use hislip.Server.Status.Latch.{Event, Tally, latch, outstanding, requests_balanced, tally}
use hislip.Server.Transaction.{tx_clearing, tx_idle, tx_input_complete}

-- A query on the synchronous channel, and a status query on the other one.
abbrev question : Message
question = record {
  header = record no_header { type = MessageType.data_end; parameter = 0xffff_ff00; length = 2 };
  payload = codes "*?";
  error = none;
}

abbrev poll : Message
poll = record {
  header = record no_header { type = MessageType.async_status_query; parameter = 0xffff_ff00 };
  payload = [];
  error = none;
}

abbrev asked : State Bench
asked = at (answering []) state_ready tx_idle

asked-IsFramed : IsFramed 0 1 (λ k. quiet) asked
asked-IsFramed = record {
  sync = record {
    writer = sync_writer;
    installed = refl;
    conn = refl;
    on_channel = refl;
    takes_all = refl;
    wire = nothing;
  };
  async = record {
    writer = async_writer;
    installed = refl;
    conn = refl;
    on_channel = refl;
    takes_all = refl;
    wire = nothing;
  };
  others = λ j nk nl. refl;
}

abbrev pairing_session : Session
pairing_session = record (paired state_pairing tx_idle) { async = none }

abbrev fresh_registry : Registry
fresh_registry = record {
  cfg = config;
  sessions = pairing_session ∷ [];
  next_id = 2;
  locks = no_locks;
  conns = λ k. quiet;
}

config-IsProfile : IsProfile config
config-IsProfile = (validate_iff config).0 (unfold validate in refl)

allocate_id-fresh_example :
    let sessions : List Session = pairing_session ∷ [] in
    let next : ℕ = 1 in
    ((id next' : ℕ)
      → allocate_id sessions next ≡ (some id, next')
      → (in_use sessions id ≡ false) × (0 < id) × (id < 2 ^ 16) × (0 < next') × (next' < 2 ^ 16))
    × ((next' id : ℕ)
        → allocate_id sessions next ≡ (none, next')
        → 0 < id
        → id < 2 ^ 16
        → in_use sessions id ≡ true)
allocate_id-fresh_example = allocate_id-fresh (pairing_session ∷ []) 1 (omega arith) (omega arith)

async_initialize-pairs_example :
    let g : Registry = fresh_registry in
    let h : Header = record no_header { type = MessageType.async_initialize; parameter = 1 } in
    let stream : ℕ = 1 in
    let id = h.parameter % 2 ^ 16 in
    let r = async_initialize g h stream in
    ((s : Session)
      → session g.sessions id ≡ some s
      → s.state ≡ state_pairing
      → s.async ≡ none
      → (session (r.1.sessions) id ≡ some (record s { async = some stream; state = state_ready }))
        × ((other : ℕ) → other ≢ id → session (r.1.sessions) other ≡ session g.sessions other))
    × ((s : Session)
        → session g.sessions id ≡ some s
        → s.state ≢ state_pairing
        → r ≡ (err err_invalid_session, g))
    × (session g.sessions id ≡ none → r ≡ (err err_invalid_session, g))
async_initialize-pairs_example =
    async_initialize-pairs fresh_registry
      (record no_header { type = MessageType.async_initialize; parameter = 1 }) 1 refl

accept_iff_example :
    let cfg : Config = config in
    let sess : Session = paired state_ready tx_idle in
    let h : Header = header MessageType.data_end in
    let channel : Channel = channel_synchronous in
    ((accept cfg (some sess) h channel).1 ≡ ok tt) ↔ IsAccepted sess h channel
accept_iff_example =
    accept_iff config (paired state_ready tx_idle) (header MessageType.data_end) channel_synchronous

begin_device_clear-abandons_example :
    let cfg : Config = config in
    let s : State Bench = at (answering []) state_ready tx_input_complete in
    let r = begin_device_clear cfg s in
    (r.0
      ≡ ok (record no_header {
        type = MessageType.async_device_clear_acknowledge;
        control = feature_bitmap cfg 1;
      }))
    × (r.1.sess.op_cancel ≡ none)
    × ((op : ℕ) → s.sess.op_cancel ≡ some op → r.1.sess.cancelled ≡ op ∷ s.sess.cancelled)
    × (r.1.sess.status.response_pending ≡ false)
    × (r.1.sess.tx.state ≡ tx_clearing)
    × (r.1.sess.state ≡ state_clearing)
    × ((h : Header)
        → discard_during_clear r.1.sess h ≡ not (h.type == MessageType.device_clear_complete))
    × (r.1.dev ≡ s.dev)
    × (r.1.conns ≡ s.conns)
begin_device_clear-abandons_example =
    begin_device_clear-abandons config (at (answering []) state_ready tx_input_complete) refl
      (λ e. ground arith)

complete_device_clear-restores_example :
    let dev : Device Bench = bench in
    let cfg : Config = config in
    let h : Header = header MessageType.device_clear_complete in
    let s : State Bench = at (answering []) state_clearing tx_clearing in
    let r = complete_device_clear dev cfg h s in
    (r.0.0 ≡ record no_header { type = MessageType.device_clear_acknowledge })
    × (r.1.sess.state ≡ state_ready)
    × (r.1.sess.overlap ≡ false)
    × (r.1.sess.tx ≡ record { state = tx_idle; id = no_message_id })
    × (r.1.sess.rmt.expected ≡ false)
    × (r.1.sess.status ≡ record {
      last_received = 0xffff_fefe;
      response_pending = false;
      srq_latched = false;
      srq_status = 0;
      started = true;
    })
    × (r.1.sess.last_tx ≡ no_message_id)
    × (r.1.locks ≡ s.locks)
    × (r.1.sess.max_rx ≡ s.sess.max_rx)
    × (r.1.sess.max_tx ≡ s.sess.max_tx)
complete_device_clear-restores_example =
    complete_device_clear-restores bench config (header MessageType.device_clear_complete)
      (at (answering []) state_clearing tx_clearing) config-IsProfile refl refl

abbrev opened : Session
opened = new_session 1 version11 0 config

abbrev first_done : Session
first_done = release_operation (operation opened).1 (operation opened).0

-- An operation has come and gone, and a second one is running.
second_runs : Steps opened none (operation first_done).1 (some (operation first_done).0)
second_runs = goes (goes (goes stays (starts opened)) (finishes _ _)) (starts first_done)

abort_reaches_example :
    let t : Session = (operation first_done).1 in
    let running : Option ℕ = some (operation first_done).0 in
    ((op : ℕ)
      → running ≡ some op
      → (is_cancelled (abort_operation t) op ≡ true) × (is_cancelled (close_session t) op ≡ true))
    × ((op : ℕ)
        → running ≢ some op
        → (is_cancelled (abort_operation t) op ≡ is_cancelled t op)
          × (is_cancelled (close_session t) op ≡ is_cancelled t op))
    × (is_cancelled (operation t).1 (operation t).0 ≡ false)
abort_reaches_example = abort_reaches 1 0 version11 config second_runs

session-IsFramed_example :
    let dev : Device Bench = bench in
    let cfg : Config = config in
    let ts : List Turn = sync_turn question 3 false ∷ async_turn poll [] ∷ [] in
    let k : ℕ = 0 in
    let l : ℕ = 1 in let s : State Bench = asked in IsFramed k l s.conns (turns dev cfg ts s)
session-IsFramed_example =
    session-IsFramed bench config (sync_turn question 3 false ∷ async_turn poll [] ∷ []) 0 1 asked
      refl asked-IsFramed

requests_balanced_example :
    let t : Tally = record { status = new_status; sent = 0; taken = 0 } in
    let es : List Event = latch 0x50 ∷ latch 0x51 ∷ [] in
    (tally t es).sent ≡ (tally t es).taken + outstanding (tally t es).status
requests_balanced_example =
    requests_balanced (record { status = new_status; sent = 0; taken = 0 })
      (latch 0x50 ∷ latch 0x51 ∷ []) refl
