-- ===== src/Server/Lifetimes/Accounts.antt =====
-- No connection is lost: each is closed, or a registered session will close it.
use hislip.Prelude.{
  ℕ, ◌≡◌, refl, ap, ◌∙◌, ◌⊎◌, inl, inr, true, false, Option, none, some, List, [], ◌∷◌, Bytes, ◌==◌,
  ==-self, if◌then◌else◌, if-true, if-both, arith,
}
use hislip.Prelude.Text.{codes}
use hislip.Errors.{Error, Result, ok, err}
use hislip.Protocol.ErrorCode.{fatal_invalid_init_sequence}
use hislip.Protocol.MessageType
use hislip.Protocol.MessageType.{legal_on, channel_synchronous, channel_asynchronous}
use hislip.Protocol.Header.{Header}
use hislip.Protocol.Stream.{Stream, close}
use hislip.Protocol.Codec.{read_header}
use hislip.Server.Locks.{held}
use hislip.Server.Session.{Session, Writer, new_writer}
use hislip.Server.Config.{Config}
use hislip.Server.State.{no_counts, update, writer_write}
use hislip.Server.Registry.{
  Registry, session, in_use, remove_session, close_all, initialize, async_initialize, new_server,
}
use hislip.Server.Registry.Invariant.{IsValid, new_server-IsValid, initialize-IsValid}
use hislip.Server.Registry.Owners.{
  Accounted, Due, Settles, owned-replace, remove_session-Accounted, close_streams-keeps,
  owned-remove_fresh, close_all-closes, held-close_all, initialize-Due, async_initialize-Due,
  async_initialize_registers,
}
use hislip.Server.Channels.{
  Serving, with_conns, sync_opened, initialized, addressed, open_sync, async_opened,
  async_initialized, open_async, by_type, serve, read_sub_address,
}
use hislip.Server.Channels.Initializes.{Adds, initialize-Adds}
use hislip.Server.Lifetimes.{
  Event, connects, leaves, closes_all, calls, IsTimely, AllTimely, leave, happens, history,
}
use hislip.Server.Lifetimes.Writes.{
  closed-writer_write, Due-update, Accounted-conns, refuse-Accounted,
}
use hislip.Server.Lifetimes.Valid.{conns-IsValid, happens-IsValid, history-IsValid}

-- The synchronous channel's session, behind the response.
sync_opened-Accounted :
    (sess : Session) (w : Option Error × (ℕ → Stream) × Writer) (k : ℕ) (g : Serving)
    → (w.1 k).closed ≡ (g.reg.conns k).closed
    → IsValid g.reg
    → session g.reg.sessions sess.id ≡ some sess
    → Accounted k g.reg
    → Accounted k (sync_opened sess w g).1.reg
sync_opened-Accounted sess (some e, conns, w) k g same v f a =
    remove_session-Accounted (record (g.reg) { conns = conns }) sess k (conns-IsValid g.reg conns v)
      f (Accounted-conns k conns g.reg same a)
sync_opened-Accounted sess (none, conns, w) k g same v f (inl c) = inl (same ∙ c)
sync_opened-Accounted sess (none, conns, w) k g same v f (inr o) =
    inr (owned-replace g.reg.sessions sess (record sess { sync_w = some w }) k f (λ x. x) o)

initialized-Accounted :
    (stream k : ℕ) (r : Result (Session × Header) × Registry) (g : Serving)
    → IsValid r.1
    → ((sess : Session) (resp : Header)
        → r.0 ≡ ok (sess, resp)
        → session r.1.sessions sess.id ≡ some sess)
    → Settles stream k r
    → Accounted k (initialized stream r g).1.reg
initialized-Accounted stream k (err e, reg) g v f s =
    refuse-Accounted stream k _ _ (record g { reg = reg }) (s.0 e refl)
initialized-Accounted stream k (ok (sess, resp), reg) g v f s =
    let w = new_writer stream channel_synchronous in
    sync_opened-Accounted sess (writer_write reg.conns w resp []) k (record g { reg = reg })
      (closed-writer_write reg.conns w resp [] k) v (f sess resp refl) (s.1 (sess, resp) refl)

-- The session that Initialize gives is registered.
initialize_registers :
    (g : Registry) (h : Header) (sub : Bytes) (stream : ℕ) (sess : Session) (resp : Header)
    → IsValid g
    → (initialize g h sub stream).0 ≡ ok (sess, resp)
    → session (initialize g h sub stream).1.sessions sess.id ≡ some sess
unfolding Adds
initialize_registers g h sub stream sess resp v e =
    let a = initialize-Adds g h sub stream v.next_pos v.next_fits in
    let z = a.2 sess resp e in ap (λ xs. session xs sess.id) z.1 ∙ if-true _ _ _ (==-self sess.id)

addressed-Accounted :
    (stream k : ℕ) (h : Header) (r : Result Bytes × Stream) (g : Serving)
    → IsValid g.reg
    → Due stream k g.reg
    → Accounted k (addressed stream h r g).1.reg
addressed-Accounted stream k h (err e, s) g v d =
    refuse-Accounted stream k _ _ (with_conns g (update g.reg.conns stream s))
      (Due-update stream k s g.reg d)
addressed-Accounted stream k h (ok sub, s) g v d =
    let g' = with_conns g (update g.reg.conns stream s) in
    let v' = conns-IsValid g.reg (update g.reg.conns stream s) v in
    initialized-Accounted stream k (initialize g'.reg h sub stream) g'
      (initialize-IsValid g'.reg h sub stream v')
      (λ sess resp. initialize_registers g'.reg h sub stream sess resp v')
      (initialize-Due g'.reg h sub stream k (Due-update stream k s g.reg d))

open_sync-Accounted :
    (stream k : ℕ) (h : Header) (g : Serving)
    → IsValid g.reg
    → Due stream k g.reg
    → Accounted k (open_sync stream h g).1.reg
unfolding open_sync
open_sync-Accounted stream k h g v d =
    addressed-Accounted stream k h
      (read_sub_address h g.reg.cfg.max_rx_payload (g.reg.conns stream)) g v d

async_opened-Accounted :
    (sess : Session) (w : Option Error × (ℕ → Stream) × Writer) (k : ℕ) (g : Serving)
    → (w.1 k).closed ≡ (g.reg.conns k).closed
    → session g.reg.sessions sess.id ≡ some sess
    → Accounted k g.reg
    → Accounted k (async_opened sess w g).1.reg
async_opened-Accounted sess (some e, conns, w) k g same f a = Accounted-conns k conns g.reg same a
async_opened-Accounted sess (none, conns, w) k g same f (inl c) = inl (same ∙ c)
async_opened-Accounted sess (none, conns, w) k g same f (inr o) =
    inr (owned-replace g.reg.sessions sess (record sess { async_w = some w }) k f (λ x. x) o)

async_initialized-Accounted :
    (stream k : ℕ) (r : Result (Session × Header) × Registry) (g : Serving)
    → ((sess : Session) (resp : Header)
        → r.0 ≡ ok (sess, resp)
        → session r.1.sessions sess.id ≡ some sess)
    → Settles stream k r
    → Accounted k (async_initialized stream r g).1.reg
async_initialized-Accounted stream k (err e, reg) g f s =
    refuse-Accounted stream k _ _ (record g { reg = reg }) (s.0 e refl)
async_initialized-Accounted stream k (ok (sess, resp), reg) g f s =
    let w = new_writer stream channel_asynchronous in
    async_opened-Accounted sess (writer_write reg.conns w resp []) k (record g { reg = reg })
      (closed-writer_write reg.conns w resp [] k) (f sess resp refl) (s.1 (sess, resp) refl)

open_async-Accounted :
    (stream k : ℕ) (h : Header) (g : Serving)
    → Due stream k g.reg
    → Accounted k (open_async stream h g).1.reg
unfolding open_async
open_async-Accounted stream k h g d =
    async_initialized-Accounted stream k (async_initialize g.reg h stream) g
      (async_initialize_registers g.reg h stream) (async_initialize-Due g.reg h stream k d)

by_type-Accounted :
    (stream k : ℕ) (r : Result Header × Stream) (g : Serving)
    → IsValid g.reg
    → Due stream k g.reg
    → Accounted k (by_type stream r g).1.reg
unfolding close
by_type-Accounted stream k (err e, s) g v d = ground arith
by_type-Accounted stream k (ok h, s) g v d =
    let g' = with_conns g (update g.reg.conns stream s) in
    let v' = conns-IsValid g.reg (update g.reg.conns stream s) v in
    let d' : Due stream k g'.reg = Due-update stream k s g.reg d in
    let Good : Result Session × Serving → Type 0 = λ x. Accounted k x.1.reg in
    if-both Good (h.type == MessageType.initialize) _ _ (open_sync-Accounted stream k h g' v' d') (
      if-both Good (h.type == MessageType.async_initialize) _ _
        (open_async-Accounted stream k h g' d')
        (refuse-Accounted stream k fatal_invalid_init_sequence
          (codes "expected Initialize or AsyncInitialize") g' d'))

serve-Accounted :
    (stream k : ℕ) (g : Serving)
    → IsValid g.reg
    → Due stream k g.reg
    → Accounted k (serve stream g).1.reg
unfolding serve
serve-Accounted stream k g v d = by_type-Accounted stream k (read_header (g.reg.conns stream)) g v d

leave-Accounted :
    (sess : Session) (k : ℕ) (g : Serving)
    → IsValid g.reg
    → IsTimely sess g.reg.sessions
    → Accounted k g.reg
    → Accounted k (leave sess g).reg
unfolding leave remove_session
leave-Accounted sess k g v (inl here) a = remove_session-Accounted g.reg sess k v here a
leave-Accounted sess k g v (inr gone) (inl c) = inl (close_streams-keeps sess g.reg.conns k c)
leave-Accounted sess k g v (inr gone) (inr o) =
    inr (owned-remove_fresh g.reg.sessions sess.id k gone ∙ o)

-- What is left of the history is timely too.
timely_rest :
    (e : Event) (es : List Event) (g : Serving) → AllTimely (e ∷ es) g → AllTimely es (happens e g)
unfolding happens
timely_rest (connects k) es g t = t
timely_rest (leaves sess) es g t = t.1
timely_rest closes_all es g t = t
timely_rest (calls c) es g t = t

happens-Accounted :
    (e : Event) (es : List Event) (k : ℕ) (g : Serving)
    → IsValid g.reg
    → AllTimely (e ∷ es) g
    → Accounted k g.reg
    → Accounted k (happens e g).reg
unfolding happens
happens-Accounted (connects stream) es k g v t a = serve-Accounted stream k g v (inr a)
happens-Accounted (leaves sess) es k g v t a = leave-Accounted sess k g v t.0 a
happens-Accounted closes_all es k g v t a = inl (close_all-closes g.reg k a)
happens-Accounted (calls c) es k g v t a = a

history-Accounted :
    (es : List Event) (k : ℕ) (g : Serving)
    → IsValid g.reg
    → AllTimely es g
    → Accounted k g.reg
    → Accounted k (history es g).reg
unfolding history
history-Accounted [] k g v t a = a
history-Accounted (e ∷ es) k g v t a =
    history-Accounted es k (happens e g) (happens-IsValid e g v) (timely_rest e es g t)
      (happens-Accounted e es k g v t a)

-- The connection is set up somewhere in the history.
abbrev pub Connects : ℕ → List Event → Type 0
Connects k [] = ⊥
Connects k (e ∷ es) = (e ≡ connects k) ⊎ Connects k es

connected-Accounted :
    (es : List Event) (k : ℕ) (g : Serving)
    → IsValid g.reg
    → AllTimely es g
    → Connects k es
    → Accounted k (history es g).reg
unfolding history happens
connected-Accounted [] k g v t c = absurd c
connected-Accounted (e ∷ es) k g v t (inl is) =
    let a : Accounted k (happens e g).reg = rw is (serve-Accounted k k g v (inl (==-self k))) in
    history-Accounted es k (happens e g) (happens-IsValid e g v) (timely_rest e es g t) a
connected-Accounted (e ∷ es) k g v t (inr later) =
    connected-Accounted es k (happens e g) (happens-IsValid e g v) (timely_rest e es g t) later

abbrev pub fresh_server : Registry → Serving
fresh_server g = record { reg = g; counts = no_counts }

-- A server that New has made, after any sequence of new connections, ends of sessions, calls of CloseAll
-- and requests and releases of locks: every session has a nonzero 16-bit ID that no other has, there are at most as many as the
-- profile allows, and the next ID to try is a nonzero 16-bit number. And if no session ended so late
-- behind a CloseAll that its ID was another's by then, each connection that was set up in that sequence
-- is closed, whether or not the set-up succeeded, or it is one of the two connections of a session that
-- is still registered.
pub sessions_managed :
    (c : Config) (conns : ℕ → Stream) (g : Registry) (es : List Event)
    → new_server c conns ≡ ok g
    → let t = history es (fresh_server g) in
      IsValid t.reg × (AllTimely es (fresh_server g) → (k : ℕ) → Connects k es → Accounted k t.reg)
sessions_managed c conns g es e =
    let v = new_server-IsValid c conns g e in
    (
      history-IsValid es (fresh_server g) v,
      λ timely k con. connected-Accounted es k (fresh_server g) v timely con,
    )

-- A server that New has made, after any sequence of new connections, ends of sessions, calls of CloseAll
-- and requests and releases of locks, with CloseAll at its end: no session is registered, a session that
-- was registered until then holds no lock, and any other ID holds one exactly if it did before. And if no
-- session ended so late behind a CloseAll that its ID was another's by then, every connection that was
-- set up is closed.
pub shut_down :
    (c : Config) (conns : ℕ → Stream) (g : Registry) (es : List Event)
    → new_server c conns ≡ ok g
    → let s = history es (fresh_server g) in
      let t = happens closes_all s in
      (t.reg.sessions ≡ [])
      × (AllTimely es (fresh_server g) → (k : ℕ) → Connects k es → (t.reg.conns k).closed ≡ true)
      × ((id : ℕ)
          → held t.reg.locks id ≡ (if in_use s.reg.sessions id then false else held s.reg.locks id))
unfolding happens
shut_down c conns g es e =
    let s = history es (fresh_server g) in
    let m = (sessions_managed c conns g es e).1 in
    (
      unfold close_all in refl,
      λ timely k con. close_all-closes s.reg k (m timely k con),
      λ id. held-close_all s.reg id,
    )
