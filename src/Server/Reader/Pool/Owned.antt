-- ===== src/Server/Reader/Pool/Owned.antt =====
-- Each buffer has one owner at a time, so that no message is overwritten while it is in use.
use hislip.Prelude.{
  ℕ, ◌+◌, ◌≤◌, ◌<◌, ◌≡◌, refl, subst, Bool, true, false, Option, none, some, List, [], ◌∷◌, ◌++◌,
  inl, inr, Bytes, length, length-append, take, drop, take-length-append, All, ltb, ◌==◌,
  if◌then◌else◌, if-both, ==-self, Option-cases, arith,
}
use hislip.Errors.{Error, Result, ok, err}
use hislip.Protocol.Stream.{Stream}
use hislip.Protocol.Header.{Header}
use hislip.Protocol.Codec.{read_header, discard_payload, read_payload}
use hislip.Server.Reader.{Message, read_one, after_header, oversized, received, max64, ends}
use hislip.Server.Reader.Pool.{
  read_ahead_slots, Slot, Stage, at_free, finished, sending, Pool, new_reader, put, refilled,
  read_into, take_buffer, send_message, notice_done, next, release, Event, takes_buffer,
  sends_message, notices_done, takes_next, releases, stops, happens, history,
}

-- How often a buffer stands in a list.
abbrev pub times : ℕ → List ℕ → ℕ
times b [] = 0
times b (x ∷ xs) = (if x == b then 1 else 0) + times b xs

times-append : (b : ℕ) (xs ys : List ℕ) → times b (xs ++ ys) ≡ times b xs + times b ys
times-append b [] ys = omega arith
times-append b (x ∷ xs) ys = omega (arith, times-append b xs ys)

abbrev pub stage_bufs : Stage → List ℕ
stage_bufs (sending q) = q.buf ∷ []
stage_bufs _ = []

abbrev pub slot_bufs : List Slot → List ℕ
slot_bufs [] = []
slot_bufs (q ∷ qs) = q.buf ∷ slot_bufs qs

abbrev pub held_bufs : Option Slot → List ℕ
held_bufs none = []
held_bufs (some q) = q.buf ∷ []

-- The owners of buffer `b`: the pool, the reading task, the queue and the loop.
abbrev pub owners : ℕ → Pool → ℕ
owners b p =
    times b p.free
    + (times b (stage_bufs p.stage) + (times b (slot_bufs p.msgs) + times b (held_bufs p.held)))

abbrev pub buffers_in_use : Pool → ℕ
buffers_in_use p =
    length p.free
    + (length (stage_bufs p.stage) + (length (slot_bufs p.msgs) + length (held_bufs p.held)))

-- The slice of a message's buffer is the payload that was read.
abbrev pub IsIntact : (ℕ → Bytes) → Slot → Type 0
IsIntact mem q = take (length q.message.payload) (mem q.buf) ≡ q.message.payload

abbrev pub StageIntact : (ℕ → Bytes) → Stage → Type 0
StageIntact mem (sending q) = IsIntact mem q
StageIntact mem _ = Unit {0}

abbrev pub HeldIntact : (ℕ → Bytes) → Option Slot → Type 0
HeldIntact mem none = Unit {0}
HeldIntact mem (some q) = IsIntact mem q

pub record IsOwned (p : Pool) : Type 0 where
  pub once : (b : ℕ) → owners b p ≤ 1
  pub few : buffers_in_use p ≤ read_ahead_slots
  pub one_ahead : length p.msgs ≤ 1
  pub in_hand : StageIntact p.mem p.stage
  pub queued : All (IsIntact p.mem) p.msgs
  pub in_use : HeldIntact p.mem p.held

-- A buffer that a slot does not use may be written.
put-IsIntact :
    (mem : ℕ → Bytes) (b : ℕ) (content : Bytes) (q : Slot)
    → (q.buf == b) ≡ false
    → IsIntact mem q
    → IsIntact (put mem b content) q
put-IsIntact mem b content q ne i = ground arith

put-queued :
    (mem : ℕ → Bytes) (b : ℕ) (content : Bytes) (qs : List Slot)
    → times b (slot_bufs qs) ≡ 0
    → All (IsIntact mem) qs
    → All (IsIntact (put mem b content)) qs
put-queued mem b content [] n a = tt
put-queued mem b content (q ∷ qs) n a = (
  put-IsIntact mem b content q (ground arith) a.0,
  put-queued mem b content qs (ground arith) a.1,
)

put-held :
    (mem : ℕ → Bytes) (b : ℕ) (content : Bytes) (o : Option Slot)
    → times b (held_bufs o) ≡ 0
    → HeldIntact mem o
    → HeldIntact (put mem b content) o
put-held mem b content none n a = tt
put-held mem b content (some q) n a = put-IsIntact mem b content q (ground arith) a

-- A message with an error has no payload.
abbrev IsBare : Message × Stream → Type 0
IsBare r = (e : Error) → r.0.error ≡ some e → r.0.payload ≡ []

after_header-IsBare : (buf : Bytes) (r : Result Header × Stream) → IsBare (after_header buf r)
after_header-IsBare buf (err x, s) = λ e i. refl
after_header-IsBare buf (ok h, s) =
    if-both IsBare (ltb (length buf) h.length) (oversized h (discard_payload h.length buf s))
      (received h (read_payload none h.length (take (max64 h.length 1) buf) tt s))
      (λ e i. ground arith) (λ e i. ground arith)

read_one-IsBare : (buf : Bytes) (s : Stream) → IsBare (read_one buf s)
unfolding read_one
read_one-IsBare buf s = after_header-IsBare buf (read_header s)

-- The buffer behind the read of a message has the message in it.
refilled-payload :
    (old : Bytes) (m : Message) (junk : Bytes)
    → ((e : Error) → m.error ≡ some e → m.payload ≡ [])
    → take (length m.payload) (refilled old m junk) ≡ m.payload
refilled-payload old m junk bare = elim (Option-cases m.error) [
  | inl fine ↦ ground (arith, take-length-append m.payload (drop (length m.payload) old))
  | inr (e, bad) ↦ let empty = bare e bad in ground (arith)
]

read_into-IsOwned :
    (p : Pool) (b : ℕ) (rest : List ℕ) (junk : Bytes) (r : Message × Stream)
    → p.free ≡ b ∷ rest
    → p.stage ≡ at_free
    → IsBare r
    → IsOwned p
    → IsOwned (read_into p b rest junk r)
read_into-IsOwned p b rest junk (m, s) f st bare v =
    let content = refilled (p.mem b) m junk in
    let b_once = v.once b in
    record {
      once = λ c. let c_once = v.once c in ground arith;
      few = let few = v.few in ground arith;
      one_ahead = v.one_ahead;
      in_hand = let here = ==-self b in ground (arith, refilled-payload (p.mem b) m junk bare);
      queued = put-queued p.mem b content p.msgs (ground arith) v.queued;
      in_use = put-held p.mem b content p.held (ground arith) v.in_use;
    }

take_buffer-IsOwned :
    (st : Stage) (free : List ℕ) (p : Pool) (junk : Bytes)
    → p.free ≡ free
    → p.stage ≡ st
    → IsOwned p
    → IsOwned (take_buffer st free p junk)
take_buffer-IsOwned at_free (b ∷ rest) p junk f s v =
    read_into-IsOwned p b rest junk (read_one (p.mem b) p.stream) f s
      (read_one-IsBare (p.mem b) p.stream) v
take_buffer-IsOwned at_free [] p junk f s v = v
take_buffer-IsOwned finished free p junk f s v = v
take_buffer-IsOwned (sending q) free p junk f s v = v

send-IsOwned :
    (st : Stage) (msgs : List Slot) (p : Pool)
    → p.stage ≡ st
    → p.msgs ≡ msgs
    → IsOwned p
    → IsOwned (send_message st msgs p)
send-IsOwned (sending q) [] p s m v =
    let hand : IsIntact p.mem q = subst (StageIntact p.mem) s v.in_hand in
    record {
      once = λ c. let c_once = v.once c in ground arith;
      few = let few = v.few in ground arith;
      one_ahead = omega arith;
      in_hand = if-both (StageIntact p.mem) (ends q.message.error) finished at_free tt tt;
      queued = (hand, tt);
      in_use = v.in_use;
    }
send-IsOwned (sending q) (x ∷ xs) p s m v = v
send-IsOwned at_free msgs p s m v = v
send-IsOwned finished msgs p s m v = v

finish-IsOwned : (p : Pool) → IsOwned p → IsOwned (record p { stage = finished })
finish-IsOwned p v = record {
  once = λ c. let c_once = v.once c in omega arith;
  few = let few = v.few in omega arith;
  one_ahead = v.one_ahead;
  in_hand = tt;
  queued = v.queued;
  in_use = v.in_use;
}

notice-IsOwned : (st : Stage) (done : Bool) (p : Pool) → IsOwned p → IsOwned (notice_done st done p)
notice-IsOwned finished done p v = v
notice-IsOwned at_free true p v = finish-IsOwned p v
notice-IsOwned (sending q) true p v = finish-IsOwned p v
notice-IsOwned at_free false p v = v
notice-IsOwned (sending q) false p v = v

next-IsOwned :
    (held : Option Slot) (msgs : List Slot) (p : Pool)
    → p.held ≡ held
    → p.msgs ≡ msgs
    → IsOwned p
    → IsOwned (next held msgs p)
next-IsOwned none (q ∷ rest) p h m v =
    let queued : All (IsIntact p.mem) (q ∷ rest) = subst (All (IsIntact p.mem)) m v.queued in
    record {
      once = λ c. let c_once = v.once c in ground arith;
      few = let few = v.few in ground arith;
      one_ahead = let one = v.one_ahead in ground arith;
      in_hand = v.in_hand;
      queued = queued.1;
      in_use = queued.0;
    }
next-IsOwned none [] p h m v = v
next-IsOwned (some q) msgs p h m v = v

-- The pool has room for the buffer that comes back.
pub release_room :
    (p : Pool) (q : Slot) → p.held ≡ some q → IsOwned p → length p.free < read_ahead_slots
release_room p q h v = let few = v.few in ground arith

release-IsOwned :
    (held : Option Slot) (p : Pool) → p.held ≡ held → IsOwned p → IsOwned (release held p)
release-IsOwned none p h v = v
release-IsOwned (some q) p h v =
    let room = release_room p q h v in
    record {
      once = λ c. let c_once = v.once c in ground (arith, times-append c p.free (q.buf ∷ []));
      few = let few = v.few in ground (arith, length-append p.free (q.buf ∷ []));
      one_ahead = v.one_ahead;
      in_hand = v.in_hand;
      queued = v.queued;
      in_use = tt;
    }

pub happens-IsOwned : (e : Event) (p : Pool) → IsOwned p → IsOwned (happens e p)
unfolding happens
happens-IsOwned (takes_buffer junk) p v = take_buffer-IsOwned p.stage p.free p junk refl refl v
happens-IsOwned sends_message p v = send-IsOwned p.stage p.msgs p refl refl v
happens-IsOwned notices_done p v = notice-IsOwned p.stage p.done p v
happens-IsOwned takes_next p v = next-IsOwned p.held p.msgs p refl refl v
happens-IsOwned releases p v = release-IsOwned p.held p refl v
happens-IsOwned stops p v = record {
  once = v.once;
  few = v.few;
  one_ahead = v.one_ahead;
  in_hand = v.in_hand;
  queued = v.queued;
  in_use = v.in_use;
}

pub history-IsOwned : (es : List Event) (p : Pool) → IsOwned p → IsOwned (history es p)
unfolding history
history-IsOwned [] p v = v
history-IsOwned (e ∷ es) p v = history-IsOwned es (happens e p) (happens-IsOwned e p v)

pub new_reader-IsOwned : (s : Stream) (limit : ℕ) → IsOwned (new_reader s limit)
unfolding new_reader
new_reader-IsOwned s limit = record {
  once = λ b. ground arith;
  few = omega arith;
  one_ahead = omega arith;
  in_hand = tt;
  queued = tt;
  in_use = tt;
}
