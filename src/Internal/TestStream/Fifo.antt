-- ===== src/Internal/TestStream/Fifo.antt =====
-- Both directions of a pipe are queues: nothing is lost, doubled or overtaken.
use hislip.Prelude.{
  ℕ, ◌≡◌, ◌≢◌, refl, ap, ◌∙◌, sym, inl, inr, Option, none, some, List, [], ◌∷◌, ◌++◌, append_assoc,
  append-nil, Bytes, length, take-append-drop, Bool-cases, arith,
}
use hislip.Errors.{Error, eof}
use hislip.Internal.TestStream.{
  Buffer, buffer_write, buffer_read, Pipe, new_pipe, End, end_a, end_b, pipe_write, pipe_read,
  pipe_close, from_a, from_b,
}

pub data Event : Type 0 where
  writes : End → Bytes → Event
  reads : End → ℕ → Event
  closes : Event

-- A pipe with what each end has sent, as far as it was taken, and what each end has got.
pub record Traffic : Type 0 where
  pub pipe : Pipe
  pub sent_a : Bytes
  pub sent_b : Bytes
  pub got_a : Bytes
  pub got_b : Bytes

-- What was taken of a write: all of it, or nothing.
abbrev taken : (ℕ × Option Error) → Bytes → Bytes
taken (n, none) p = p
taken (n, some e) p = []

abbrev received : End → Traffic → Option ((Bytes × Option Error) × Pipe) → Traffic
received e t none = t
received end_a t (some ((got, x), p)) = record t { pipe = p; got_a = t.got_a ++ got }
received end_b t (some ((got, x), p)) = record t { pipe = p; got_b = t.got_b ++ got }

abbrev sends : End → Traffic → Bytes → (ℕ × Option Error) × Pipe → Traffic
sends end_a t p (r, q) = record t { pipe = q; sent_a = t.sent_a ++ taken r p }
sends end_b t p (r, q) = record t { pipe = q; sent_b = t.sent_b ++ taken r p }

-- A read that has to wait changes nothing.
unfoldable pub happens : Event → Traffic → Traffic
unfolding pipe_write pipe_read pipe_close
happens (writes e p) t = sends e t p (pipe_write e t.pipe p)
happens (reads e n) t = received e t (pipe_read e t.pipe n)
happens closes t = record t { pipe = pipe_close t.pipe }

unfoldable pub traffic : List Event → Traffic → Traffic
unfolding happens
traffic [] t = t
traffic (e ∷ es) t = traffic es (happens e t)

abbrev pub no_traffic : Traffic
no_traffic = record { pipe = new_pipe; sent_a = []; sent_b = []; got_a = []; got_b = [] }

-- What was sent is what was got, and behind it what is still queued.
pub record InOrder (t : Traffic) : Type 0 where
  pub a_to_b : t.got_b ++ t.pipe.a_to_b.queued ≡ t.sent_a
  pub b_to_a : t.got_a ++ t.pipe.b_to_a.queued ≡ t.sent_b

write_keeps :
    (b : Buffer) (got sent p : Bytes)
    → got ++ b.queued ≡ sent
    → got ++ (buffer_write b p).1.queued ≡ sent ++ taken (buffer_write b p).0 p
unfolding buffer_write
write_keeps b got sent p h = elim (Bool-cases b.closed) [
  | inl shut ↦ ground (arith, append-nil sent)
  | inr open_ ↦ ground (arith, append_assoc got b.queued p)
]

-- A read that does not wait.
read_keeps :
    (b b' : Buffer) (n : ℕ) (got sent more : Bytes) (x : Option Error)
    → buffer_read b n ≡ some ((more, x), b')
    → got ++ b.queued ≡ sent
    → (got ++ more) ++ b'.queued ≡ sent
unfolding buffer_read
read_keeps b b' n got sent more x e h =
    ground (arith, append_assoc got more b'.queued, append-nil got, take-append-drop n b.queued)

from_b-InOrder :
    (t : Traffic) (n : ℕ) (r : Option ((Bytes × Option Error) × Buffer))
    → buffer_read t.pipe.b_to_a n ≡ r
    → InOrder t
    → InOrder (received end_a t (from_b t.pipe r))
from_b-InOrder t n none e v = v
from_b-InOrder t n (some ((more, x), b')) e v = record {
  a_to_b = v.a_to_b;
  b_to_a = read_keeps t.pipe.b_to_a b' n t.got_a t.sent_b more x e v.b_to_a;
}

from_a-InOrder :
    (t : Traffic) (n : ℕ) (r : Option ((Bytes × Option Error) × Buffer))
    → buffer_read t.pipe.a_to_b n ≡ r
    → InOrder t
    → InOrder (received end_b t (from_a t.pipe r))
from_a-InOrder t n none e v = v
from_a-InOrder t n (some ((more, x), b')) e v = record {
  a_to_b = read_keeps t.pipe.a_to_b b' n t.got_b t.sent_a more x e v.a_to_b;
  b_to_a = v.b_to_a;
}

happens-InOrder : (e : Event) (t : Traffic) → InOrder t → InOrder (happens e t)
unfolding happens
happens-InOrder (writes end_a p) t v = record {
  a_to_b = write_keeps t.pipe.a_to_b t.got_b t.sent_a p v.a_to_b;
  b_to_a = v.b_to_a;
}
happens-InOrder (writes end_b p) t v = record {
  a_to_b = v.a_to_b;
  b_to_a = write_keeps t.pipe.b_to_a t.got_a t.sent_b p v.b_to_a;
}
happens-InOrder (reads end_a n) t v = from_b-InOrder t n (buffer_read t.pipe.b_to_a n) refl v
happens-InOrder (reads end_b n) t v = from_a-InOrder t n (buffer_read t.pipe.a_to_b n) refl v
happens-InOrder closes t v = record { a_to_b = v.a_to_b; b_to_a = v.b_to_a }

traffic-InOrder : (es : List Event) (t : Traffic) → InOrder t → InOrder (traffic es t)
unfolding traffic
traffic-InOrder [] t v = v
traffic-InOrder (e ∷ es) t v = traffic-InOrder es (happens e t) (happens-InOrder e t v)

-- What an end has got, and what the other end has sent it.
abbrev pub got : End → Traffic → Bytes
got end_a t = t.got_a
got end_b t = t.got_b

abbrev pub sent_to : End → Traffic → Bytes
sent_to end_a t = t.sent_b
sent_to end_b t = t.sent_a

no_bytes : (xs : Bytes) → length xs ≡ 0 → xs ≡ []
no_bytes [] h = refl
no_bytes (x ∷ xs) h = absurd (omega arith)

drained :
    (b : Buffer) (got sent : Bytes) → got ++ b.queued ≡ sent → length b.queued ≡ 0 → got ≡ sent
drained b got sent v h = sym (append-nil got) ∙ ap (λ xs. got ++ xs) (sym (no_bytes b.queued h)) ∙ v

-- After any reads and writes at both ends of a new pipe, and closings: what an end has got, and behind it
-- the bytes that are queued for it, are exactly the bytes that the other end's writes took, in their
-- order. A read waits, or gives EOF, only if the end has got all of them, and once the pipe is closed
-- no read waits.
pub pipe_fifo :
    (es : List Event) (e : End) (n : ℕ)
    → let t = traffic es no_traffic in
      InOrder t
      × (pipe_read e t.pipe n ≡ none → got e t ≡ sent_to e t)
      × ((p : Pipe) → pipe_read e t.pipe n ≡ some (([], some eof), p) → got e t ≡ sent_to e t)
      × (pipe_read e (pipe_close t.pipe) n ≢ none)
unfolding pipe_read pipe_close
pipe_fifo es end_a n =
    let t = traffic es no_traffic in
    let v = traffic-InOrder es no_traffic (record { a_to_b = refl; b_to_a = refl }) in
    (
      v,
      λ w. drained t.pipe.b_to_a t.got_a t.sent_b v.b_to_a (ground arith),
      λ p w. drained t.pipe.b_to_a t.got_a t.sent_b v.b_to_a (ground arith),
      ground arith,
    )
pipe_fifo es end_b n =
    let t = traffic es no_traffic in
    let v = traffic-InOrder es no_traffic (record { a_to_b = refl; b_to_a = refl }) in
    (
      v,
      λ w. drained t.pipe.a_to_b t.got_b t.sent_a v.a_to_b (ground arith),
      λ p w. drained t.pipe.a_to_b t.got_b t.sent_a v.a_to_b (ground arith),
      ground arith,
    )
