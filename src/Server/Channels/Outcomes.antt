-- ===== src/Server/Channels/Outcomes.antt =====
-- How the Initialize transaction ends, once the sub-address is read.
use hislip.Prelude.{
  ℕ, ◌≡◌, ◌≢◌, refl, ap, ◌∙◌, subst, inl, true, false, some, Bytes, [], ◌++◌, arith,
}
use hislip.Errors.{Error, Result, ok, err, text}
use hislip.Protocol.Version.{Version, negotiate, decode_initialize_parameter}
use hislip.Protocol.Header.{Header}
use hislip.Protocol.Stream.{Stream}
use hislip.Protocol.Codec.Framing.{message_bytes, write_message-written}
use hislip.Server.Session.{Session, state_pairing}
use hislip.Server.WireError.{wire_error_for}
use hislip.Server.State.{writer_write}
use hislip.Server.Registry.{Registry, session, in_use}
use hislip.Server.Channels.{Serving, initialized}
use hislip.Server.Channels.Causes.{IsRefusedFor, IsAdmitted}
use hislip.Server.Channels.Initializes.{response_legal, refusal, refuse-closes, answer, Adds}

-- How a connection is left that was refused with a code and a text.
pub record IsRefused (k code : ℕ) (description : Bytes) (g g' : Serving) : Type 0 where
  pub no_session : g'.reg.sessions ≡ g.reg.sessions
  pub is_closed : (g'.reg.conns k).closed ≡ true
  pub told :
      (g'.reg.conns k).written ≡ (g.reg.conns k).written ++ message_bytes (refusal code) description

-- How a connection is left that became the synchronous channel of a session.
pub record IsOpened (k : ℕ) (version : Version) (sess : Session) (g g' : Serving) : Type 0 where
  pub fresh : in_use g.reg.sessions sess.id ≡ false
  pub registered : session g'.reg.sessions sess.id ≡ some sess
  pub others : (id : ℕ) → id ≢ sess.id → session g'.reg.sessions id ≡ session g.reg.sessions id
  pub waits : sess.state ≡ state_pairing
  pub told :
      (g'.reg.conns k).written
      ≡ (g.reg.conns k).written ++ message_bytes (answer g.reg.cfg version sess.id) []

initialized-IsRefused :
    (k : ℕ) (version : Version) (e x : Error) (reg : Registry) (g : Serving)
    → Adds g.reg version (err x, reg)
    → (g.reg.conns k).outcomes ≡ []
    → (initialized k (err x, reg) g).0 ≡ err e
    → IsRefused k (wire_error_for e).fatal_code (text e) g (initialized k (err x, reg) g).1
unfolding Adds
initialized-IsRefused k version e x reg g a o i =
    let r =
      refuse-closes k (wire_error_for x).fatal_code (text x) (record g { reg = reg })
        (ap (λ (f : ℕ → Stream). (f k).outcomes) a.0 ∙ o) in
    let same : x ≡ e = ground arith in
    subst
      (λ y. IsRefused k (wire_error_for y).fatal_code (text y) g (initialized k (err x, reg) g).1)
      same
      (record {
        no_session = r.0 ∙ a.1 x refl;
        is_closed = r.1;
        told =
            r.2
            ∙ ap
                (λ (f : ℕ → Stream).
                  (f k).written ++ message_bytes (refusal (wire_error_for x).fatal_code) (text x))
                a.0;
      })

initialized-IsOpened :
    (k : ℕ) (version : Version) (sess s : Session) (resp : Header) (reg : Registry) (g : Serving)
    → Adds g.reg version (ok (sess, resp), reg)
    → (g.reg.conns k).outcomes ≡ []
    → (initialized k (ok (sess, resp), reg) g).0 ≡ ok s
    → IsOpened k version s g (initialized k (ok (sess, resp), reg) g).1
unfolding Adds writer_write
initialized-IsOpened k version sess s resp reg g a o i =
    let z = a.2 sess resp refl in
    ground (
      arith,
      a.0,
      z,
      response_legal,
      write_message-written (g.reg.conns k) (answer g.reg.cfg version sess.id) [] o (inl refl),
    )

-- A response that the connection takes cannot fail.
initialized_opens :
    (k : ℕ) (version : Version) (sess : Session) (resp : Header) (reg : Registry) (g : Serving)
    (e : Error)
    → Adds g.reg version (ok (sess, resp), reg)
    → (g.reg.conns k).outcomes ≡ []
    → (initialized k (ok (sess, resp), reg) g).0 ≢ err e
unfolding Adds writer_write
initialized_opens k version sess resp reg g e a o i =
    let z = a.2 sess resp refl in
    ground (
      arith,
      a.0,
      z,
      response_legal,
      write_message-written (g.reg.conns k) (answer g.reg.cfg version sess.id) [] o (inl refl),
    )

-- The two ends of the Initialize transaction behind a sub-address that was read.
unfoldable pub IsEither :
    Registry → ℕ → Header → Bytes → Serving → Result Session × Serving → Type 0
IsEither reg k h sub g r =
    ((e : Error)
      → r.0 ≡ err e
      → IsRefusedFor reg h sub e × IsRefused k (wire_error_for e).fatal_code (text e) g r.1)
    × ((sess : Session)
        → r.0 ≡ ok sess
        → IsAdmitted reg h sub
          × IsOpened k (negotiate (decode_initialize_parameter h.parameter).0 g.reg.cfg.max_version)
              sess g r.1)

pub initialized-IsEither :
    (reg : Registry) (k : ℕ) (h : Header) (sub : Bytes) (r : Result (Session × Header) × Registry)
    (g : Serving)
    → ((e : Error) → r.0 ≡ err e → IsRefusedFor reg h sub e)
    → ((x : Session × Header) → r.0 ≡ ok x → IsAdmitted reg h sub)
    → Adds g.reg (negotiate (decode_initialize_parameter h.parameter).0 g.reg.cfg.max_version) r
    → (g.reg.conns k).outcomes ≡ []
    → IsEither reg k h sub g (initialized k r g)
unfolding IsEither
initialized-IsEither reg k h sub (err x, left) g c t a o = (
  λ e i.
      let same : x ≡ e = ground arith in
      (subst (IsRefusedFor reg h sub) same (c x refl), initialized-IsRefused k _ e x left g a o i),
  λ s i. ground arith,
)
initialized-IsEither reg k h sub (ok (sess, resp), left) g c t a o = (
  λ e i. absurd (initialized_opens k _ sess resp left g e a o i),
  λ s i. (t (sess, resp) refl, initialized-IsOpened k _ sess s resp left g a o i),
)
