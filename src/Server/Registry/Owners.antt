-- ===== src/Server/Registry/Owners.antt =====
-- Which connections belong to a registered session, and that none is lost when sessions come and go.
use hislip.Prelude.{
  ℕ, ◌%◌, ◌^◌, ◌≡◌, refl, ◌∙◌, ap, ◌⊎◌, inl, inr, Bool, true, false, ◌||◌, Option, none, some, List,
  [], ◌∷◌, Bytes, length, ◌==◌, if◌then◌else◌, Bool-cases, arith,
}
use hislip.Errors.{Error, Result, ok, err}
use hislip.Protocol.Version.{Version}
use hislip.Protocol.Header.{Header}
use hislip.Protocol.Stream.{Stream, close}
use hislip.Server.Locks.{LockManager, held, release_all}
use hislip.Server.Locks.Invariant.{held-release_all}
use hislip.Server.Session.{Session, new_session, attach_async}
use hislip.Server.Config.{Config}
use hislip.Server.Registry.{
  Registry, session, in_use, replace, remove, close_streams, close_each, remove_session, close_all,
  async_initialize, attach_result, attach_found, allocate_session, initialize, initialize_checked,
  check_initialize, respond_initialize, add_session, allocate_id, at_least,
}
use hislip.Server.Registry.Invariant.{Distinct, IsValid}
use hislip.Server.Registry.Pairing.{session-id, session-replace}

abbrev is_stream : Option ℕ → ℕ → Bool
is_stream none k = false
is_stream (some j) k = j == k

-- A session's two connections.
abbrev pub owns : Session → ℕ → Bool
owns s k = is_stream s.sync k || is_stream s.async k

abbrev pub owned : List Session → ℕ → Bool
owned [] k = false
owned (x ∷ xs) k = owns x k || owned xs k

-- Connection `k` is closed, or a registered session will close it.
abbrev pub Accounted : ℕ → Registry → Type 0
Accounted k g = ((g.conns k).closed ≡ true) ⊎ (owned g.sessions k ≡ true)

pub close_streams-owns :
    (s : Session) (conns : ℕ → Stream) (k : ℕ)
    → owns s k ≡ true
    → ((close_streams s conns).1 k).closed ≡ true
unfolding close_streams close
close_streams-owns s conns k o = ground arith

pub close_streams-keeps :
    (s : Session) (conns : ℕ → Stream) (k : ℕ)
    → (conns k).closed ≡ true
    → ((close_streams s conns).1 k).closed ≡ true
unfolding close_streams close
close_streams-keeps s conns k c = ground arith

close_each-keeps :
    (xs : List Session) (e : Option Error) (locks : LockManager) (conns : ℕ → Stream) (k : ℕ)
    → (conns k).closed ≡ true
    → ((close_each xs (e, locks, conns)).2 k).closed ≡ true
close_each-keeps [] e locks conns k c = c
close_each-keeps (x ∷ xs) e locks conns k c =
    close_each-keeps xs _ _ (close_streams x conns).1 k (close_streams-keeps x conns k c)

close_each-owned :
    (xs : List Session) (e : Option Error) (locks : LockManager) (conns : ℕ → Stream) (k : ℕ)
    → owned xs k ≡ true
    → ((close_each xs (e, locks, conns)).2 k).closed ≡ true
close_each-owned [] e locks conns k o = cc
close_each-owned (x ∷ xs) e locks conns k o = elim (Bool-cases (owns x k)) [
  | inl mine ↦ close_each-keeps xs _ _ _ k (close_streams-owns x conns k mine)
  | inr not_mine ↦ close_each-owned xs _ _ _ k (ground arith)
]

-- CloseAll closes every connection that is accounted for.
pub close_all-closes :
    (g : Registry) (k : ℕ) → Accounted k g → ((close_all g).1.conns k).closed ≡ true
unfolding close_all
close_all-closes g k (inl c) = close_each-keeps g.sessions none g.locks g.conns k c
close_all-closes g k (inr o) = close_each-owned g.sessions none g.locks g.conns k o

held-close_each :
    (xs : List Session) (e : Option Error) (locks : LockManager) (conns : ℕ → Stream) (id : ℕ)
    → held (close_each xs (e, locks, conns)).1 id ≡ (if in_use xs id then false else held locks id)
held-close_each [] e locks conns id = refl
held-close_each (x ∷ xs) e locks conns id =
    held-close_each xs _ (release_all locks x.id) _ id
    ∙ ground (arith, held-release_all locks x.id id)

-- CloseAll takes the locks of the registered sessions, and no other.
pub held-close_all :
    (g : Registry) (id : ℕ)
    → held (close_all g).1.locks id ≡ (if in_use g.sessions id then false else held g.locks id)
unfolding close_all
held-close_all g id = held-close_each g.sessions none g.locks g.conns id

pub owned-remove_fresh :
    (xs : List Session) (id k : ℕ) → in_use xs id ≡ false → owned (remove xs id) k ≡ owned xs k
owned-remove_fresh [] id k h = refl
owned-remove_fresh (x ∷ xs) id k h = ground (arith, owned-remove_fresh xs id k)

-- Of a session that is removed, only its own connections lose their owner.
owned-remove :
    (xs : List Session) (s : Session) (k : ℕ)
    → Distinct xs
    → session xs s.id ≡ some s
    → owned xs k ≡ true
    → (owns s k ≡ true) ⊎ (owned (remove xs s.id) k ≡ true)
owned-remove [] s k d f o = cc
owned-remove (x ∷ xs) s k d f o = elim (Bool-cases (x.id == s.id)) [
  | inl same ↦ ground (arith, owned-remove_fresh xs s.id k)
  | inr other ↦ ground (arith, owned-remove xs s k)
]

pub remove_session-Accounted :
    (g : Registry) (s : Session) (k : ℕ)
    → IsValid g
    → session g.sessions s.id ≡ some s
    → Accounted k g
    → Accounted k (remove_session g s).2
unfolding remove_session
remove_session-Accounted g s k v f (inl c) = inl (close_streams-keeps s g.conns k c)
remove_session-Accounted g s k v f (inr o) = elim (owned-remove g.sessions s k v.distinct f o) [
  | inl mine ↦ inl (close_streams-owns s g.conns k mine)
  | inr rest ↦ inr rest
]

-- A session that takes the place of one whose connections it keeps.
pub owned-replace :
    (xs : List Session) (old s : Session) (k : ℕ)
    → session xs s.id ≡ some old
    → (owns old k ≡ true → owns s k ≡ true)
    → owned xs k ≡ true
    → owned (replace xs s) k ≡ true
owned-replace [] old s k f keep o = cc
owned-replace (x ∷ xs) old s k f keep o = elim (Bool-cases (x.id == s.id)) [
  | inl same ↦ ground (arith, keep)
  | inr other ↦ ground (arith, owned-replace xs old s k (ground arith) keep)
]

pub owned_by_replaced :
    (xs : List Session) (s : Session) (k : ℕ)
    → in_use xs s.id ≡ true
    → owns s k ≡ true
    → owned (replace xs s) k ≡ true
owned_by_replaced [] s k f o = cc
owned_by_replaced (x ∷ xs) s k f o = ground (arith, owned_by_replaced xs s k)

attached :
    (s s' : Session) (stream : ℕ)
    → attach_async s stream ≡ ok s'
    → (s'.id ≡ s.id) × (owns s' stream ≡ true) × ((k : ℕ) → owns s k ≡ true → owns s' k ≡ true)
unfolding attach_async
attached s s' stream e = (ground arith, ground arith, λ k o. ground arith)

-- Connection `k` is the one that is being set up, `stream`, or is accounted for.
abbrev pub Due : ℕ → ℕ → Registry → Type 0
Due stream k g = ((stream == k) ≡ true) ⊎ Accounted k g

-- A step that sets `stream` up: it fails and `stream` is still to be seen to, or it succeeds and `stream`
-- is accounted for as the other connections are.
abbrev pub Settles : {A : Type 0} → ℕ → ℕ → Result A × Registry → Type 0
Settles {A} stream k a =
    ((e : Error) → a.0 ≡ err e → Due stream k a.1) × ((x : A) → a.0 ≡ ok x → Accounted k a.1)

-- Where the session joins, its new connection has an owner; where it is refused, nothing changes.
joined :
    (g : Registry) (s : Session) (r : Result Session) (stream k : ℕ)
    → session g.sessions s.id ≡ some s
    → attach_async s stream ≡ r
    → Due stream k g
    → Settles stream k (attach_result g r)
joined g s (err y) stream k f e d = (λ x i. d, λ x i. ground arith)
joined g s (ok s') stream k f e d =
    let a = attached s s' stream e in
    let here = session-id g.sessions s.id s f in
    (
      λ x i. ground arith,
      λ x i. elim d [
        | inl is ↦ inr (owned_by_replaced g.sessions s' k (rw (a.0) (here.1)) (ground arith))
        | inr (inl c) ↦ inl c
        | inr (inr o) ↦ inr (owned-replace g.sessions s s' k (rw (a.0) f) (a.2 k) o)
      ],
    )

found-joins :
    (g : Registry) (id : ℕ) (found : Option Session) (stream k : ℕ)
    → session g.sessions id ≡ found
    → Due stream k g
    → Settles stream k (attach_found g found stream)
found-joins g id none stream k f d = (λ x i. d, λ x i. ground arith)
found-joins g id (some s) stream k f d =
    let here = session-id g.sessions id s f in
    joined g s (attach_async s stream) stream k (ap (session g.sessions) here.0 ∙ f) refl d

-- The connection of an AsyncInitialize that succeeds is its session's, and no other is lost.
pub async_initialize-Due :
    (g : Registry) (h : Header) (stream k : ℕ)
    → Due stream k g
    → Settles stream k (async_initialize g h stream)
unfolding async_initialize
async_initialize-Due g h stream k d =
    let id = h.parameter % 2 ^ 16 in
    let f = found-joins g id (session g.sessions id) stream k refl d in
    (λ e i. ground (arith, f.0 e), λ x i. ground (arith, f.1 x))

add-Due :
    (g : Registry) (version : Version) (stream k : ℕ) (found : Option ℕ × ℕ)
    → Due stream k g
    → Settles stream k (add_session g version stream found)
unfolding new_session
add-Due g version stream k (none, next) d = (λ e i. d, λ x i. ground arith)
add-Due g version stream k (some id, next) d = (λ e i. ground arith, λ x i. ground arith)

respond-Due :
    (cfg : Config) (version : Version) (stream k : ℕ) (a : Result Session × Registry)
    → Settles stream k a
    → Settles stream k (respond_initialize cfg version a)
respond-Due cfg version stream k (err y, g) d = (λ e i. d.0 y refl, λ x i. ground arith)
respond-Due cfg version stream k (ok s, g) d = (λ e i. ground arith, λ x i. d.1 s refl)

allocate-Due :
    (g : Registry) (version : Version) (stream k : ℕ)
    → Due stream k g
    → Settles stream k (allocate_session g version stream)
unfolding allocate_session
allocate-Due g version stream k d =
    elim (Bool-cases (at_least (length g.sessions) g.cfg.max_sessions)) [
      | inl full ↦ rw full (λ e i. d, λ x i. ground arith)
      | inr room ↦ rw room (add-Due g version stream k (allocate_id g.sessions g.next_id) d)
    ]

checked-Due :
    (c : Result Version) (g : Registry) (stream k : ℕ)
    → Due stream k g
    → Settles stream k (initialize_checked c g stream)
checked-Due (err y) g stream k d = (λ e i. d, λ x i. ground arith)
checked-Due (ok v) g stream k d =
    respond-Due g.cfg v stream k (allocate_session g v stream) (allocate-Due g v stream k d)

-- The connection of an Initialize that succeeds is its session's, and no other is lost.
pub initialize-Due :
    (g : Registry) (h : Header) (sub_address : Bytes) (stream k : ℕ)
    → Due stream k g
    → Settles stream k (initialize g h sub_address stream)
unfolding initialize
initialize-Due g h sub_address stream k d =
    checked-Due (check_initialize g.cfg h sub_address) g stream k d

attach_registers :
    (g : Registry) (s : Session) (r : Result Session) (stream : ℕ) (sess : Session) (resp : Header)
    → session g.sessions s.id ≡ some s
    → attach_async s stream ≡ r
    → (attach_result g r).0 ≡ ok (sess, resp)
    → session (attach_result g r).1.sessions sess.id ≡ some sess
attach_registers g s (err y) stream sess resp f e i = ground arith
attach_registers g s (ok s') stream sess resp f e i =
    let here = session-id g.sessions s.id s f in
    ground (arith, attached s s' stream, session-replace g.sessions s' sess.id)

found_registers :
    (g : Registry) (id : ℕ) (found : Option Session) (stream : ℕ) (sess : Session) (resp : Header)
    → session g.sessions id ≡ found
    → (attach_found g found stream).0 ≡ ok (sess, resp)
    → session (attach_found g found stream).1.sessions sess.id ≡ some sess
found_registers g id none stream sess resp f i = ground arith
found_registers g id (some s) stream sess resp f i =
    let here = session-id g.sessions id s f in
    attach_registers g s (attach_async s stream) stream sess resp
      (ap (session g.sessions) here.0 ∙ f) refl i

-- The session that an AsyncInitialize joins is registered as it is then.
pub async_initialize_registers :
    (g : Registry) (h : Header) (stream : ℕ) (sess : Session) (resp : Header)
    → (async_initialize g h stream).0 ≡ ok (sess, resp)
    → session (async_initialize g h stream).1.sessions sess.id ≡ some sess
unfolding async_initialize
async_initialize_registers g h stream sess resp i =
    let id = h.parameter % 2 ^ 16 in
    ground (arith, found_registers g id (session g.sessions id) stream sess resp refl)
