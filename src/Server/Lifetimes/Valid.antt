-- ===== src/Server/Lifetimes/Valid.antt =====
-- The sessions of a server are well-formed at any time.
use hislip.Prelude.{ℕ, Option, none, some, List, [], ◌∷◌, Bytes, arith}
use hislip.Errors.{Error, Result, ok, err}
use hislip.Protocol.Header.{Header}
use hislip.Protocol.Stream.{Stream}
use hislip.Prelude.Text.{codes}
use hislip.Protocol.ErrorCode.{fatal_invalid_init_sequence}
use hislip.Protocol.Codec.{read_header}
use hislip.Server.State.{update}
use hislip.Server.Locks.{LockManager}
use hislip.Server.Session.{Session, Writer}
use hislip.Server.Registry.{Registry, async_initialize}
use hislip.Server.Registry.Invariant.{
  IsValid, initialize-IsValid, async_initialize-IsValid, replace-IsValid, remove_session-IsValid,
  close_all-IsValid,
}
use hislip.Server.Channels.{
  Serving, refuse, with_conns, sync_opened, initialized, addressed, open_sync, async_opened,
  async_initialized, open_async, by_type, serve,
}
use hislip.Server.Lifetimes.{Event, connects, leaves, closes_all, calls, leave, happens, history}

-- The connections do not matter to it.
pub conns-IsValid :
    (g : Registry) (conns : ℕ → Stream) → IsValid g → IsValid (record g { conns = conns })
conns-IsValid g conns v = record {
  ids = v.ids;
  distinct = v.distinct;
  room = v.room;
  next_pos = v.next_pos;
  next_fits = v.next_fits;
}

-- Nor do the locks.
locks-IsValid :
    (g : Registry) (locks : LockManager) → IsValid g → IsValid (record g { locks = locks })
locks-IsValid g locks v = record {
  ids = v.ids;
  distinct = v.distinct;
  room = v.room;
  next_pos = v.next_pos;
  next_fits = v.next_fits;
}

refuse-IsValid :
    (k code : ℕ) (description : Bytes) (g : Serving)
    → IsValid g.reg
    → IsValid (refuse k code description g).reg
unfolding refuse
refuse-IsValid k code description g v = conns-IsValid g.reg _ v

sync_opened-IsValid :
    (sess : Session) (w : Option Error × (ℕ → Stream) × Writer) (g : Serving)
    → IsValid g.reg
    → IsValid (sync_opened sess w g).1.reg
sync_opened-IsValid sess (some e, conns, w) g v =
    remove_session-IsValid (record (g.reg) { conns = conns }) sess (conns-IsValid g.reg conns v)
sync_opened-IsValid sess (none, conns, w) g v =
    replace-IsValid (record (g.reg) { conns = conns }) (record sess { sync_w = some w })
      (conns-IsValid g.reg conns v)

initialized-IsValid :
    (k : ℕ) (r : Result (Session × Header) × Registry) (g : Serving)
    → IsValid r.1
    → IsValid (initialized k r g).1.reg
initialized-IsValid k (err e, reg) g v = refuse-IsValid k _ _ (record g { reg = reg }) v
initialized-IsValid k (ok (sess, resp), reg) g v =
    sync_opened-IsValid sess _ (record g { reg = reg }) v

addressed-IsValid :
    (k : ℕ) (h : Header) (r : Result Bytes × Stream) (g : Serving)
    → IsValid g.reg
    → IsValid (addressed k h r g).1.reg
addressed-IsValid k h (err e, s) g v = refuse-IsValid k _ _ _ (conns-IsValid g.reg _ v)
addressed-IsValid k h (ok sub, s) g v =
    initialized-IsValid k _ _ (initialize-IsValid _ h sub k (conns-IsValid g.reg _ v))

open_sync-IsValid :
    (k : ℕ) (h : Header) (g : Serving) → IsValid g.reg → IsValid (open_sync k h g).1.reg
unfolding open_sync
open_sync-IsValid k h g v = addressed-IsValid k h _ g v

async_opened-IsValid :
    (sess : Session) (w : Option Error × (ℕ → Stream) × Writer) (g : Serving)
    → IsValid g.reg
    → IsValid (async_opened sess w g).1.reg
async_opened-IsValid sess (some e, conns, w) g v = conns-IsValid g.reg conns v
async_opened-IsValid sess (none, conns, w) g v =
    replace-IsValid (record (g.reg) { conns = conns }) (record sess { async_w = some w })
      (conns-IsValid g.reg conns v)

async_initialized-IsValid :
    (k : ℕ) (r : Result (Session × Header) × Registry) (g : Serving)
    → IsValid r.1
    → IsValid (async_initialized k r g).1.reg
async_initialized-IsValid k (err e, reg) g v = refuse-IsValid k _ _ (record g { reg = reg }) v
async_initialized-IsValid k (ok (sess, resp), reg) g v =
    async_opened-IsValid sess _ (record g { reg = reg }) v

open_async-IsValid :
    (k : ℕ) (h : Header) (g : Serving) → IsValid g.reg → IsValid (open_async k h g).1.reg
unfolding open_async
open_async-IsValid k h g v =
    async_initialized-IsValid k (async_initialize g.reg h k) g
      (async_initialize-IsValid g.reg h k v)

by_type-IsValid :
    (k : ℕ) (r : Result Header × Stream) (g : Serving)
    → IsValid g.reg
    → IsValid (by_type k r g).1.reg
by_type-IsValid k (err e, s) g v = conns-IsValid g.reg _ v
by_type-IsValid k (ok h, s) g v =
    let g' = with_conns g (update g.reg.conns k s) in
    let v' = conns-IsValid g.reg (update g.reg.conns k s) v in
    ground (
      arith,
      open_sync-IsValid k h g',
      open_async-IsValid k h g',
      refuse-IsValid k fatal_invalid_init_sequence (codes "expected Initialize or AsyncInitialize")
          g',
    )

serve-IsValid : (k : ℕ) (g : Serving) → IsValid g.reg → IsValid (serve k g).1.reg
unfolding serve
serve-IsValid k g v = by_type-IsValid k (read_header (g.reg.conns k)) g v

leave-IsValid : (sess : Session) (g : Serving) → IsValid g.reg → IsValid (leave sess g).reg
unfolding leave
leave-IsValid sess g v = remove_session-IsValid g.reg sess v

pub happens-IsValid : (e : Event) (g : Serving) → IsValid g.reg → IsValid (happens e g).reg
unfolding happens
happens-IsValid (connects k) g v = serve-IsValid k g v
happens-IsValid (leaves sess) g v = leave-IsValid sess g v
happens-IsValid closes_all g v = close_all-IsValid g.reg v
happens-IsValid (calls c) g v = locks-IsValid g.reg _ v

pub history-IsValid : (es : List Event) (g : Serving) → IsValid g.reg → IsValid (history es g).reg
unfolding history
history-IsValid [] g v = v
history-IsValid (e ∷ es) g v = history-IsValid es (happens e g) (happens-IsValid e g v)
