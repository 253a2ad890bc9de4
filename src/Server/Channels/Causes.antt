-- ===== src/Server/Channels/Causes.antt =====
-- server/initialize.go, server/server.go: why an Initialize is refused, and what it takes to be admitted.
use hislip.Prelude.{
  ℕ, ◌^◌, ◌<◌, ◌≡◌, ◌≢◌, refl, sym, ap, ◌∙◌, ◌⊎◌, inl, inr, Bool, true, false, not, Bool-cases,
  if-false, Option, none, some, Bytes, length, ◌==◌, arith,
}
use hislip.Errors.{
  Error, Result, ok, err, err_invalid_init_sequence, err_invalid_sub_address, err_protocol_version,
  err_wrong_channel, err_max_clients, fail_if, ◌>>◌,
}
use hislip.Protocol.MessageType
use hislip.Protocol.MessageType.{legal_on, channel_synchronous}
use hislip.Protocol.Version.{Version, negotiate, version10, decode_initialize_parameter, less}
use hislip.Protocol.Header.{Header}
use hislip.Server.Session.{Session}
use hislip.Server.Config.{Config, accepts_sub_address}
use hislip.Server.Registry.{
  Registry, in_use, at_least, check_initialize, allocate_session, add_session, allocate_id,
  initialize, initialize_checked,
}
use hislip.Server.Registry.Ids.{allocate_id-fresh}
use hislip.Server.Registry.Pairing.{allocate_session_lem}
use hislip.Server.Channels.Initializes.{responded}

-- What the client says of itself is in order: its type, its sub-address, its version.
abbrev pub Passes : Config → Header → Bytes → Type 0
Passes cfg h sub =
    (h.type ≡ MessageType.initialize)
    × (accepts_sub_address cfg sub ≡ true)
    × (0 < (decode_initialize_parameter h.parameter).0.major)

-- The profile's sessions are all there, or no ID is left.
abbrev pub IsFull : Registry → Type 0
IsFull g =
    (at_least (length g.sessions) g.cfg.max_sessions ≡ true)
    ⊎ ((id : ℕ) → 0 < id → id < 2 ^ 16 → in_use g.sessions id ≡ true)

-- The error of a test is given exactly where that test is the first to fail.
abbrev pub FailsFor : Config → Header → Bytes → Error → Type 0
FailsFor cfg h sub e =
    ((e ≡ err_invalid_init_sequence) × (h.type ≢ MessageType.initialize))
    ⊎ ((e ≡ err_invalid_sub_address)
        × (h.type ≡ MessageType.initialize)
        × (accepts_sub_address cfg sub ≡ false))
    ⊎ ((e ≡ err_protocol_version)
        × (h.type ≡ MessageType.initialize)
        × (accepts_sub_address cfg sub ≡ true)
        × ((decode_initialize_parameter h.parameter).0.major ≡ 0))

-- Why a registry refuses an Initialize with an error.
abbrev pub IsRefusedFor : Registry → Header → Bytes → Error → Type 0
IsRefusedFor g h sub e =
    FailsFor g.cfg h sub e ⊎ ((e ≡ err_max_clients) × Passes g.cfg h sub × IsFull g)

abbrev pub IsAdmitted : Registry → Header → Bytes → Type 0
IsAdmitted g h sub = Passes g.cfg h sub × (at_least (length g.sessions) g.cfg.max_sessions ≡ false)

initialize_legal : legal_on MessageType.initialize channel_synchronous ≡ true
unfolding legal_on
initialize_legal = refl

-- Four tests in a row: the first that fails gives its error.
chain-err :
    (b c d f : Bool) (x y z w e : Error) (v : Version)
    → fail_if b x >> (fail_if c y >> (fail_if d z >> (fail_if f w >> ok v))) ≡ err e
    → ((b ≡ true) × (x ≡ e))
      ⊎ ((b ≡ false) × (c ≡ true))
      ⊎ ((b ≡ false) × (d ≡ true) × (z ≡ e))
      ⊎ ((b ≡ false) × (d ≡ false) × (f ≡ true) × (w ≡ e))
chain-err true c d f x y z w e v i = inl (refl, ground arith)
chain-err false true d f x y z w e v i = inr (inl (refl, refl))
chain-err false false true f x y z w e v i = inr (inr (inl (refl, refl, ground arith)))
chain-err false false false true x y z w e v i = inr (inr (inr (refl, refl, refl, ground arith)))
chain-err false false false false x y z w e v i = ground arith

chain-ok :
    (b c d f : Bool) (x y z w : Error) (u v : Version)
    → fail_if b x >> (fail_if c y >> (fail_if d z >> (fail_if f w >> ok u))) ≡ ok v
    → (b ≡ false) × (d ≡ false) × (f ≡ false)
chain-ok true c d f x y z w u v i = ground arith
chain-ok false true d f x y z w u v i = ground arith
chain-ok false false true f x y z w u v i = ground arith
chain-ok false false false true x y z w u v i = ground arith
chain-ok false false false false x y z w u v i = (refl, refl, refl)

other_type :
    (h : Header) → not (h.type == MessageType.initialize) ≡ true → h.type ≢ MessageType.initialize
other_type h e = ground arith

is_initialize :
    (h : Header) → not (h.type == MessageType.initialize) ≡ false → h.type ≡ MessageType.initialize
is_initialize h e = ground arith

is_legal :
    (h : Header)
    → h.type ≡ MessageType.initialize
    → not (legal_on h.type channel_synchronous) ≡ true
    → ⊥
is_legal h t e = ground (arith, initialize_legal)

below_one : (v : Version) → less v version10 ≡ true → v.major ≡ 0
unfolding less
below_one v e = ground arith

from_one : (v : Version) → less v version10 ≡ false → 0 < v.major
unfolding less
from_one v e = ground arith

not-false : (b : Bool) → not b ≡ false → b ≡ true
not-false b e = ground arith

not-true : (b : Bool) → not b ≡ true → b ≡ false
not-true b e = ground arith

check-FailsFor :
    (cfg : Config) (h : Header) (sub : Bytes) (e : Error)
    → check_initialize cfg h sub ≡ err e
    → FailsFor cfg h sub e
unfolding check_initialize
check-FailsFor cfg h sub e i =
    let client = (decode_initialize_parameter h.parameter).0 in
    elim (chain-err (not (h.type == MessageType.initialize))
      (not (legal_on h.type channel_synchronous)) (not (accepts_sub_address cfg sub))
      (less client version10) err_invalid_init_sequence err_wrong_channel err_invalid_sub_address
      err_protocol_version e (negotiate client cfg.max_version) i) [
        | inl (b, x) ↦ inl (sym x, other_type h b)
        | inr (inl (b, c)) ↦ absurd (is_legal h (is_initialize h b) c)
        | inr (inr (inl (b, d, x))) ↦ inr (inl (sym x, is_initialize h b, not-true _ d))
        | inr (inr (inr (b, d, f, x))) ↦
            inr (inr (sym x, is_initialize h b, not-false _ d, below_one client f))
      ]

check-Passes :
    (cfg : Config) (h : Header) (sub : Bytes) (v : Version)
    → check_initialize cfg h sub ≡ ok v
    → Passes cfg h sub
unfolding check_initialize
check-Passes cfg h sub v i =
    let client = (decode_initialize_parameter h.parameter).0 in
    let (b, d, f) =
      chain-ok (not (h.type == MessageType.initialize)) (not (legal_on h.type channel_synchronous))
        (not (accepts_sub_address cfg sub)) (less client version10) err_invalid_init_sequence
        err_wrong_channel err_invalid_sub_address err_protocol_version
        (negotiate client cfg.max_version) v i in
    (is_initialize h b, not-false _ d, from_one client f)

no_id :
    (g : Registry) (v : Version) (k : ℕ) (found : Option ℕ × ℕ) (e : Error)
    → (add_session g v k found).0 ≡ err e
    → found ≡ (none, found.1)
no_id g v k (none, next) e i = refl
no_id g v k (some id, next) e i = ground arith

allocate-IsFull :
    (g : Registry) (v : Version) (k : ℕ) (e : Error)
    → 0 < g.next_id
    → g.next_id < 2 ^ 16
    → (allocate_session g v k).0 ≡ err e
    → IsFull g
unfolding allocate_session
allocate-IsFull g v k e p q i =
    elim (Bool-cases (at_least (length g.sessions) g.cfg.max_sessions)) [
      | inl full ↦ inl full
      | inr room ↦
          let found = allocate_id g.sessions g.next_id in
          let none_left =
            no_id g v k found e
              (ap (λ (y : Result Session × Registry). y.0) (sym (if-false _ _ _ room)) ∙ i) in
          inr (λ id. (allocate_id-fresh g.sessions g.next_id p q).1 found.1 id none_left)
    ]

checked-causes :
    (g : Registry) (h : Header) (sub : Bytes) (k : ℕ) (c : Result Version)
    → 0 < g.next_id
    → g.next_id < 2 ^ 16
    → ((e : Error) → c ≡ err e → FailsFor g.cfg h sub e)
    → ((v : Version) → c ≡ ok v → Passes g.cfg h sub)
    → ((e : Error) → (initialize_checked c g k).0 ≡ err e → IsRefusedFor g h sub e)
      × ((x : Session × Header) → (initialize_checked c g k).0 ≡ ok x → IsAdmitted g h sub)
checked-causes g h sub k (err x) p q f t = (λ e i. inl (f e (ground arith)), λ x i. ground arith)
checked-causes g h sub k (ok v) p q f t =
    let r = responded g.cfg v (allocate_session g v k) in
    let l = allocate_session_lem g v k p q in
    (
      λ e i. inr ((l.1 e (r.1 e i)).0, t v refl, allocate-IsFull g v k e p q (r.1 e i)),
      λ x i. (t v refl, (l.0 x.0 (r.2 x.0 x.1 i).0).6),
    )

-- Why Initialize refuses, and when it does not.
pub initialize-causes :
    (g : Registry) (h : Header) (sub : Bytes) (k : ℕ)
    → 0 < g.next_id
    → g.next_id < 2 ^ 16
    → ((e : Error) → (initialize g h sub k).0 ≡ err e → IsRefusedFor g h sub e)
      × ((x : Session × Header) → (initialize g h sub k).0 ≡ ok x → IsAdmitted g h sub)
unfolding initialize
initialize-causes g h sub k p q =
    checked-causes g h sub k (check_initialize g.cfg h sub) p q (check-FailsFor g.cfg h sub)
      (check-Passes g.cfg h sub)
