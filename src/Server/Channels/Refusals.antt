-- ===== src/Server/Channels/Refusals.antt =====
-- What a connection that asks for a session gets: a session, or a refusal that leaves none.
use hislip.Prelude.{ℕ, ◌^◌, ◌<◌, ◌≡◌, refl, ap, ◌∙◌, subst, Bytes, [], ◌++◌, ==-self, arith}
use hislip.Errors.{Error, Result, ok, err, text}
use hislip.Protocol.Version.{negotiate, decode_initialize_parameter}
use hislip.Protocol.Header.{Header}
use hislip.Protocol.Stream.{Stream}
use hislip.Protocol.Codec.Framing.{message_bytes}
use hislip.Server.Session.{Session}
use hislip.Server.WireError.{wire_error_for}
use hislip.Prelude.Text.{codes}
use hislip.Server.State.{update}
use hislip.Server.Registry.{initialize}
use hislip.Server.Channels.{Serving, read_sub_address, open_sync, addressed}
use hislip.Server.Channels.Causes.{IsRefusedFor, IsAdmitted, initialize-causes}
use hislip.Server.Channels.Initializes.{
  sub_address-keeps, refusal, refuse-closes, answer, initialize-Adds,
}
use hislip.Server.Channels.Outcomes.{IsRefused, IsOpened, IsEither, initialized-IsEither}

-- What was read of the connection before makes no difference.
IsRefused-rebase :
    (k code : ℕ) (description : Bytes) (g t g' : Serving)
    → t.reg.sessions ≡ g.reg.sessions
    → (t.reg.conns k).written ≡ (g.reg.conns k).written
    → IsRefused k code description t g'
    → IsRefused k code description g g'
IsRefused-rebase k code description g t g' same old v = record {
  no_session = v.no_session ∙ same;
  is_closed = v.is_closed;
  told = v.told ∙ ap (λ b. b ++ message_bytes (refusal code) description) old;
}

unread-IsRefused :
    (k : ℕ) (h : Header) (x : Error) (t : Stream) (g : Serving)
    → t.outcomes ≡ []
    → t.written ≡ (g.reg.conns k).written
    → IsRefused k 1 (codes "bad sub-address") g (addressed k h (err x, t) g).1
unread-IsRefused k h x t g o w =
    let at_t = record g { reg = record (g.reg) { conns = update g.reg.conns k t } } in
    let here = ==-self k in
    let c = refuse-closes k 1 (codes "bad sub-address") at_t (ground arith) in
    record { no_session = c.0; is_closed = c.1; told = c.2 ∙ ground arith }

read-IsEither :
    (k : ℕ) (h : Header) (sub : Bytes) (t : Stream) (g : Serving)
    → t.outcomes ≡ []
    → t.written ≡ (g.reg.conns k).written
    → 0 < g.reg.next_id
    → g.reg.next_id < 2 ^ 16
    → IsEither g.reg k h sub g (addressed k h (ok sub, t) g)
unfolding IsEither
read-IsEither k h sub t g o w p q =
    let at_t : Serving = record g { reg = record (g.reg) { conns = update g.reg.conns k t } } in
    let here = ==-self k in
    let old : (at_t.reg.conns k).written ≡ (g.reg.conns k).written = ground arith in
    let causes = initialize-causes at_t.reg h sub k p q in
    let both =
      initialized-IsEither g.reg k h sub (initialize at_t.reg h sub k) at_t causes.0 causes.1
        (initialize-Adds at_t.reg h sub k p q) (ground arith) in
    (
      λ e i. let z = both.0 e i in (z.0, IsRefused-rebase k _ _ g at_t _ refl old z.1),
      λ s i.
          let z = both.1 s i in
          let v = z.1 in
          (
            z.0,
            record {
              fresh = v.fresh;
              registered = v.registered;
              others = v.others;
              waits = v.waits;
              told =
                  v.told
                  ∙ ap
                      (λ b.
                        b
                        ++ message_bytes
                            (answer g.reg.cfg
                              (negotiate (decode_initialize_parameter h.parameter).0
                                g.reg.cfg.max_version)
                              s.id)
                            [])
                      old;
            },
          ),
    )

-- By what was read of the sub-address.
addressed_lem :
    (k : ℕ) (h : Header) (read : Result Bytes × Stream) (g : Serving)
    → read.1.outcomes ≡ []
    → read.1.written ≡ (g.reg.conns k).written
    → 0 < g.reg.next_id
    → g.reg.next_id < 2 ^ 16
    → let r = addressed k h read g in
      ((x : Error) → read.0 ≡ err x → (r.0 ≡ err x) × IsRefused k 1 (codes "bad sub-address") g r.1)
      × ((sub : Bytes) → read.0 ≡ ok sub → IsEither g.reg k h sub g r)
addressed_lem k h (err x, t) g o w p q =
    (λ y i. (ground arith, unread-IsRefused k h x t g o w), λ sub i. ground arith)
addressed_lem k h (ok read, t) g o w p q = (
  λ y i. ground arith,
  λ sub i.
      let same : read ≡ sub = ground arith in
      subst (λ b. IsEither g.reg k h b g (addressed k h (ok read, t) g)) same
        (read-IsEither k h read t g o w p q),
)

-- An Initialize on a connection that takes every write, at a server whose next ID is a nonzero 16-bit
-- number. If the sub-address cannot be read, that error ends it, and the client is told in one
-- FatalError message with code 1. If it can be read, there are two ends. Either it fails, with the error
-- of the first test that it does not pass: the type is not Initialize, the profile does not have the
-- sub-address, the client's version is below 1.0, or the server is full, with as many sessions as the
-- profile allows or with no ID left; and the client is told in one FatalError message with the code and
-- the text of that error. Or it gives a session: then it passes all of them and there is room; the
-- session's ID is new, it is found under it and waits for its asynchronous channel, the sessions under
-- other IDs are as they were, and the client has been sent the InitializeResponse with the negotiated
-- version and the ID. Whenever it fails, no session is left behind and the connection is closed.
pub open_sync_lem :
    (k : ℕ) (h : Header) (g : Serving)
    → (g.reg.conns k).outcomes ≡ []
    → 0 < g.reg.next_id
    → g.reg.next_id < 2 ^ 16
    → let read = (read_sub_address h g.reg.cfg.max_rx_payload (g.reg.conns k)).0 in
      let r = open_sync k h g in
      ((x : Error) → read ≡ err x → (r.0 ≡ err x) × IsRefused k 1 (codes "bad sub-address") g r.1)
      × ((sub : Bytes)
          → read ≡ ok sub
          → ((e : Error)
              → r.0 ≡ err e
              → IsRefusedFor g.reg h sub e
                × IsRefused k (wire_error_for e).fatal_code (text e) g r.1)
            × ((sess : Session)
                → r.0 ≡ ok sess
                → IsAdmitted g.reg h sub
                  × IsOpened k
                      (negotiate (decode_initialize_parameter h.parameter).0 g.reg.cfg.max_version)
                      sess
                      g
                      r.1))
unfolding open_sync IsEither
open_sync_lem k h g o p q =
    let keeps = sub_address-keeps h g.reg.cfg.max_rx_payload (g.reg.conns k) in
    addressed_lem k h (read_sub_address h g.reg.cfg.max_rx_payload (g.reg.conns k)) g (keeps.0 ∙ o)
      keeps.1 p q
