-- ===== src/Server/Channels/Initializes.antt =====
-- What the parts of the Initialize transaction do.
use native.Mathlib.Decide.{dec_le}
use hislip.Prelude.{
  ℕ, zero, suc, ◌^◌, ◌<◌, ◌≡◌, refl, ap, ◌∙◌, inl, true, false, Option, none, some, Bytes, [], ◌∷◌,
  ◌++◌, length, arith,
}
use hislip.Errors.{Error, Result, ok, err}
use hislip.Protocol.MessageType
use hislip.Protocol.MessageType.{legal_on, channel_synchronous}
use hislip.Protocol.Version.{
  Version, negotiate, decode_initialize_parameter, encode_initialize_response_parameter,
}
use hislip.Protocol.Header.{Header, no_header}
use hislip.Protocol.Stream.{Stream, close}
use hislip.Protocol.Codec.{read_payload}
use hislip.Protocol.Codec.Payload.{read_payload-drains, read_payload-short}
use hislip.Protocol.Codec.Framing.{message_bytes, write_message-written}
use hislip.Server.Session.{Session, state_pairing}
use hislip.Server.Config.{Config, prefer_overlap_bit}
use hislip.Server.State.{writer_write}
use hislip.Server.Registry.{
  Registry, in_use, initialize, check_initialize, allocate_session, initialize_checked,
  respond_initialize, add_session, allocate_id,
}
use hislip.Server.Registry.Pairing.{allocate_session_lem}
use hislip.Server.Channels.{Serving, read_sub_address, zeros, refuse}

pub length-zeros : (n : ℕ) → length (zeros n) ≡ n
length-zeros zero = refl
length-zeros (suc n) = ground (arith, length-zeros n)

-- Reading a payload takes bytes off a stream and leaves the rest of it alone.
pub payload-keeps :
    (n : ℕ) (scratch : Bytes) (s : Stream)
    → 0 < length scratch
    → let r = read_payload {C = Unit} none n scratch tt s in
      (r.stream.outcomes ≡ s.outcomes) × (r.stream.written ≡ s.written)
payload-keeps n scratch s pos = elim (dec_le n (length s.inbox)) [
  | yes h ↦
      ground (arith, read_payload-drains {C = Unit} none n scratch tt s (λ c chunk. refl) pos h)
  | no h ↦
      ground (
        arith,
        read_payload-short {C = Unit} none n scratch tt s (λ c chunk. refl) pos (omega arith),
      )
]

pub sub_address-keeps :
    (h : Header) (limit : ℕ) (s : Stream)
    → ((read_sub_address h limit s).1.outcomes ≡ s.outcomes)
      × ((read_sub_address h limit s).1.written ≡ s.written)
unfolding read_sub_address
sub_address-keeps h limit s =
    ground (arith, length-zeros h.length, payload-keeps h.length (zeros h.length) s)

pub fatal_legal : legal_on MessageType.fatal_error channel_synchronous ≡ true
unfolding legal_on
fatal_legal = refl

pub response_legal : legal_on MessageType.initialize_response channel_synchronous ≡ true
unfolding legal_on
response_legal = refl

-- The FatalError that refuses a connection.
abbrev pub refusal : ℕ → Header
refusal code = record no_header { type = MessageType.fatal_error; control = code }

pub refuse-closes :
    (k code : ℕ) (description : Bytes) (g : Serving)
    → (g.reg.conns k).outcomes ≡ []
    → let r = refuse k code description g in
      (r.reg.sessions ≡ g.reg.sessions)
      × ((r.reg.conns k).closed ≡ true)
      × ((r.reg.conns k).written
          ≡ (g.reg.conns k).written ++ message_bytes (refusal code) description)
unfolding refuse writer_write close
refuse-closes k code description g o = ground (
  arith,
  fatal_legal,
  write_message-written (g.reg.conns k) (refusal code) description o (inl refl),
)

-- What an allocation is answered with.
abbrev pub answer : Config → Version → ℕ → Header
answer cfg version id = record no_header {
  type = MessageType.initialize_response;
  control = prefer_overlap_bit cfg;
  parameter = encode_initialize_response_parameter version id;
}

pub responded :
    (cfg : Config) (version : Version) (a : Result Session × Registry)
    → let r = respond_initialize cfg version a in
      (r.1 ≡ a.1)
      × ((e : Error) → r.0 ≡ err e → a.0 ≡ err e)
      × ((sess : Session) (resp : Header)
          → r.0 ≡ ok (sess, resp)
          → (a.0 ≡ ok sess) × (resp ≡ answer cfg version sess.id))
responded cfg version (err e, g) = (refl, λ x h. ground arith, λ sess resp h. ground arith)
responded cfg version (ok s, g) = (refl, λ x h. ground arith, λ sess resp h. ground arith)

pub conns-add_session :
    (g : Registry) (version : Version) (k : ℕ) (found : Option ℕ × ℕ)
    → (add_session g version k found).1.conns ≡ g.conns
conns-add_session g version k (none, next) = refl
conns-add_session g version k (some id, next) = refl

pub conns-allocate_session :
    (g : Registry) (version : Version) (k : ℕ) → (allocate_session g version k).1.conns ≡ g.conns
unfolding allocate_session
conns-allocate_session g version k =
    ground (arith, conns-add_session g version k (allocate_id g.sessions g.next_id))

pub version-check_initialize :
    (cfg : Config) (h : Header) (sub : Bytes) (v : Version)
    → check_initialize cfg h sub ≡ ok v
    → v ≡ negotiate (decode_initialize_parameter h.parameter).0 cfg.max_version
unfolding check_initialize
version-check_initialize cfg h sub v e = ground arith

-- What Initialize leaves: its registry with the session in front and the response to send, or an error
-- and the sessions as they were.
unfoldable pub Adds : Registry → Version → Result (Session × Header) × Registry → Type 0
Adds g version r =
    (r.1.conns ≡ g.conns)
    × ((e : Error) → r.0 ≡ err e → r.1.sessions ≡ g.sessions)
    × ((sess : Session) (resp : Header)
        → r.0 ≡ ok (sess, resp)
        → (in_use g.sessions sess.id ≡ false)
          × (r.1.sessions ≡ sess ∷ g.sessions)
          × (sess.state ≡ state_pairing)
          × (resp ≡ answer g.cfg version sess.id))

pub checked-Adds :
    (g : Registry) (k : ℕ) (version : Version) (c : Result Version)
    → 0 < g.next_id
    → g.next_id < 2 ^ 16
    → ((v : Version) → c ≡ ok v → v ≡ version)
    → Adds g version (initialize_checked c g k)
unfolding Adds
checked-Adds g k version (err x) p q h = (refl, λ e i. refl, λ sess resp i. ground arith)
checked-Adds g k version (ok v) p q h =
    let a = allocate_session g v k in
    let r = responded g.cfg v a in
    let l = allocate_session_lem g v k p q in
    let same : v ≡ version = h v refl in
    (
      ap (λ (x : Registry). x.conns) r.0 ∙ conns-allocate_session g v k,
      λ e i. ap (λ (x : Registry). x.sessions) r.0 ∙ (l.1 e (r.1 e i)).1,
      λ sess resp i.
          let o = r.2 sess resp i in
          let z = l.0 sess o.0 in
          (
            z.0,
            ap (λ (x : Registry). x.sessions) r.0 ∙ z.5,
            z.3,
            o.1 ∙ ap (λ x. answer g.cfg x sess.id) same,
          ),
    )

pub initialize-Adds :
    (g : Registry) (h : Header) (sub : Bytes) (k : ℕ)
    → 0 < g.next_id
    → g.next_id < 2 ^ 16
    → Adds g
        (negotiate (decode_initialize_parameter h.parameter).0 g.cfg.max_version)
        (initialize g h sub k)
unfolding initialize
initialize-Adds g h sub k p q =
    checked-Adds g k _ (check_initialize g.cfg h sub) p q (version-check_initialize g.cfg h sub)
