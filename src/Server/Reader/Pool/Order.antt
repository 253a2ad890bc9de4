-- ===== src/Server/Reader/Pool/Order.antt =====
-- The loop gets the messages of the stream, each once, in order and as they were read.
use hislip.Prelude.{
  ℕ, ◌≤◌, ◌<◌, ◌≡◌, refl, ap, subst, ◌∙◌, sym, Bool, true, false, Option, none, some, List, [], ◌∷◌,
  ◌++◌, append_assoc, append-nil, inl, inr, Bytes, length, All, All-append, if◌then◌else◌, if-false,
  Bool-cases, arith,
}
use hislip.Protocol.Stream.{Stream}
use hislip.Server.Reader.{Message, read_one, run, ends, followed}
use hislip.Server.Reader.Pool.{
  Slot, Stage, at_free, finished, sending, Pool, new_reader, read_into, take_buffer, send_message,
  notice_done, seen, next, release, Event, takes_buffer, sends_message, notices_done, takes_next,
  releases, stops, happens, history, read_ahead_slots,
}
use hislip.Server.Reader.Pool.Owned.{
  IsOwned, IsIntact, HeldIntact, owners, new_reader-IsOwned, happens-IsOwned, history-IsOwned,
  release_room,
}

-- The reading task goes on behind the message.
abbrev GoesOn : Message → Type 0
GoesOn m = ends m.error ≡ false

abbrev pub messages : List Slot → List Message
messages [] = []
messages (q ∷ qs) = q.message ∷ messages qs

abbrev pub in_hand : Stage → List Message
in_hand (sending q) = q.message ∷ []
in_hand _ = []

followed-last : (r : Message × Stream) → followed r (λ t. ([], t)) ≡ (r.0 ∷ [], r.1)
followed-last (m, s) = ground arith

follow-append :
    (r : Message × Stream) (rest rest' : Stream → List Message × Stream) (ms : List Message)
    (t : Stream) (l : Message) (t' : Stream)
    → followed r rest ≡ (ms, t)
    → All GoesOn ms
    → ((u : Stream) (ns : List Message)
        → rest u ≡ (ns, t)
        → All GoesOn ns
        → rest' u ≡ (ns ++ l ∷ [], t'))
    → followed r rest' ≡ (ms ++ l ∷ [], t')
follow-append (m, s) rest rest' [] t l t' e g ih = absurd (ground arith)
follow-append (m, s) rest rest' (n ∷ ns) t l t' e g ih = elim (Bool-cases (ends m.error)) [
  | inl over ↦ absurd (ground (arith, e, g))
  | inr on ↦
      let same : rest s ≡ (ns, t) = ground (arith, e) in
      let head : m ≡ n = ground (arith, e) in ground (arith, ih s ns same g.1, head)
]

-- One more buffer, behind messages that the task went on from.
run-append :
    (bufs : List Bytes) (buf : Bytes) (s t : Stream) (ms : List Message)
    → run bufs s ≡ (ms, t)
    → All GoesOn ms
    → run (bufs ++ buf ∷ []) s ≡ (ms ++ (read_one buf t).0 ∷ [], (read_one buf t).1)
unfolding run
run-append [] buf s t ms e g =
    followed-last (read_one buf s)
    ∙ ap (λ (r : List Message × Stream). (r.0 ++ (read_one buf r.1).0 ∷ [], (read_one buf r.1).1)) e
run-append (b ∷ bufs) buf s t ms e g =
    follow-append (read_one b s) (λ u. run bufs u) (λ u. run (bufs ++ buf ∷ []) u) ms t
      (read_one buf t).0 (read_one buf t).1 e g (λ u ns e' g'. run-append bufs buf u t ns e' g')

-- While the task has not ended nothing is lost, and it went on from all messages that it has sent.
abbrev Going : Stage → List Message → List Message → Type 0
Going finished lost ms = Unit {0}
Going _ lost ms = (lost ≡ []) × All GoesOn ms

-- What the loop got, what is queued, what the task has in hand and a message that was in hand when it
-- was stopped are the messages of the stream.
pub record InOrder (s : Stream) (p : Pool) : Type 0 where
  pub lost : List Message
  pub ran : run p.used s ≡ (p.delivered ++ (messages p.msgs ++ (in_hand p.stage ++ lost)), p.stream)
  pub kept : p.done ≡ false → lost ≡ []
  pub going : Going p.stage lost (p.delivered ++ messages p.msgs)

-- A slice that is intact is the message.
seen-message : (mem : ℕ → Bytes) (q : Slot) → IsIntact mem q → seen mem q ≡ q.message
seen-message mem q i = ground arith

take-InOrder :
    (s : Stream) (p : Pool) (b : ℕ) (rest : List ℕ) (junk : Bytes)
    → p.stage ≡ at_free
    → InOrder s p
    → InOrder s (read_into p b rest junk (read_one (p.mem b) p.stream))
take-InOrder s p b rest junk st v =
    let g : (v.lost ≡ []) × All GoesOn (p.delivered ++ messages p.msgs) =
      subst (λ x. Going x v.lost (p.delivered ++ messages p.msgs)) st v.going in
    let all : p.delivered ++ (messages p.msgs ++ (in_hand p.stage ++ v.lost))
        ≡ p.delivered ++ messages p.msgs =
      rw (st, g.0, append-nil (messages p.msgs)) refl in
    let r = read_one (p.mem b) p.stream in
    let ran : run p.used s ≡ (p.delivered ++ messages p.msgs, p.stream) =
      v.ran ∙ ap (λ ms. (ms, p.stream)) all in
    record {
      lost = [];
      ran =
          run-append p.used (p.mem b) s p.stream (p.delivered ++ messages p.msgs) ran g.1
          ∙ ap (λ ms. (ms, r.1)) (append_assoc p.delivered (messages p.msgs) (r.0 ∷ []));
      kept = λ d. refl;
      going = (refl, g.1);
    }

take_buffer-InOrder :
    (s : Stream) (st : Stage) (free : List ℕ) (p : Pool) (junk : Bytes)
    → p.stage ≡ st
    → InOrder s p
    → InOrder s (take_buffer st free p junk)
take_buffer-InOrder s at_free (b ∷ rest) p junk e v = take-InOrder s p b rest junk e v
take_buffer-InOrder s at_free [] p junk e v = v
take_buffer-InOrder s finished free p junk e v = v
take_buffer-InOrder s (sending q) free p junk e v = v

-- The stage behind a message that is sent.
sent-Going :
    (m : Message) (ms : List Message)
    → All GoesOn ms
    → Going (if ends m.error then finished else at_free) [] (ms ++ m ∷ [])
sent-Going m ms g = elim (Bool-cases (ends m.error)) [
  | inl over ↦ rw over tt
  | inr on ↦ rw (if-false _ _ _ on) (refl, All-append GoesOn ms (m ∷ []) g (on, tt))
]

in_hand-idle : (b : Bool) → in_hand (if b then finished else at_free) ≡ []
in_hand-idle true = refl
in_hand-idle false = refl

send-InOrder :
    (s : Stream) (st : Stage) (msgs : List Slot) (p : Pool)
    → p.stage ≡ st
    → p.msgs ≡ msgs
    → InOrder s p
    → InOrder s (send_message st msgs p)
send-InOrder s (sending q) [] p e m v =
    let g : (v.lost ≡ []) × All GoesOn (p.delivered ++ messages p.msgs) =
      subst (λ x. Going x v.lost (p.delivered ++ messages p.msgs)) e v.going in
    let d : All GoesOn p.delivered =
      subst (All GoesOn) (ap (λ qs. p.delivered ++ messages qs) m ∙ append-nil p.delivered) g.1 in
    let st' : Stage = if ends q.message.error then finished else at_free in
    record {
      lost = [];
      ran =
          v.ran
          ∙ ap (λ ms. (p.delivered ++ ms, p.stream))
              (ap (λ (x : List Slot × Stage). messages x.0 ++ (in_hand x.1 ++ v.lost))
                  (let both : ◌≡◌ {A = List Slot × Stage} (p.msgs, p.stage) ([], sending q) =
                      ground (arith, m, e) in
                    both)
                ∙ ap (λ l. q.message ∷ l)
                    (g.0 ∙ sym (append-nil _ ∙ in_hand-idle (ends q.message.error))));
      kept = λ x. refl;
      going = sent-Going q.message p.delivered d;
    }
send-InOrder s (sending q) (x ∷ xs) p e m v = v
send-InOrder s at_free msgs p e m v = v
send-InOrder s finished msgs p e m v = v

finish-InOrder :
    (s : Stream) (p : Pool)
    → p.done ≡ true
    → InOrder s p
    → InOrder s (record p { stage = finished })
finish-InOrder s p d v = record {
  lost = in_hand p.stage ++ v.lost;
  ran = v.ran;
  kept = λ x. cc;
  going = tt;
}

notice-InOrder :
    (s : Stream) (st : Stage) (done : Bool) (p : Pool)
    → p.done ≡ done
    → InOrder s p
    → InOrder s (notice_done st done p)
notice-InOrder s finished done p d v = v
notice-InOrder s at_free true p d v = finish-InOrder s p d v
notice-InOrder s (sending q) true p d v = finish-InOrder s p d v
notice-InOrder s at_free false p d v = v
notice-InOrder s (sending q) false p d v = v

next-InOrder :
    (s : Stream) (held : Option Slot) (msgs : List Slot) (p : Pool)
    → p.msgs ≡ msgs
    → IsOwned p
    → InOrder s p
    → InOrder s (next held msgs p)
next-InOrder s none (q ∷ rest) p m o v =
    let intact : All (IsIntact p.mem) (q ∷ rest) = subst (All (IsIntact p.mem)) m o.queued in
    let same : seen p.mem q ≡ q.message = seen-message p.mem q intact.0 in
    let moved : p.delivered ++ messages p.msgs
        ≡ (p.delivered ++ seen p.mem q ∷ []) ++ messages rest =
      ap (λ qs. p.delivered ++ messages qs) m
      ∙ ap (λ x. p.delivered ++ x ∷ messages rest) (sym same)
      ∙ sym (append_assoc p.delivered (seen p.mem q ∷ []) (messages rest)) in
    record {
      lost = v.lost;
      ran =
          v.ran
          ∙ ap (λ ms. (ms, p.stream))
              (sym (append_assoc p.delivered (messages p.msgs) (in_hand p.stage ++ v.lost))
                ∙ ap (λ ms. ms ++ (in_hand p.stage ++ v.lost)) moved
                ∙ append_assoc (p.delivered ++ seen p.mem q ∷ []) (messages rest)
                    (in_hand p.stage ++ v.lost));
      kept = v.kept;
      going = subst (Going p.stage v.lost) moved v.going;
    }
next-InOrder s none [] p m o v = v
next-InOrder s (some q) msgs p m o v = v

release-InOrder :
    (s : Stream) (held : Option Slot) (p : Pool) → InOrder s p → InOrder s (release held p)
release-InOrder s none p v = v
release-InOrder s (some q) p v = record {
  lost = v.lost;
  ran = v.ran;
  kept = v.kept;
  going = v.going;
}

happens-InOrder :
    (s : Stream) (e : Event) (p : Pool) → IsOwned p → InOrder s p → InOrder s (happens e p)
unfolding happens
happens-InOrder s (takes_buffer junk) p o v = take_buffer-InOrder s p.stage p.free p junk refl v
happens-InOrder s sends_message p o v = send-InOrder s p.stage p.msgs p refl refl v
happens-InOrder s notices_done p o v = notice-InOrder s p.stage p.done p refl v
happens-InOrder s takes_next p o v = next-InOrder s p.held p.msgs p refl o v
happens-InOrder s releases p o v = release-InOrder s p.held p v
happens-InOrder s stops p o v = record {
  lost = v.lost;
  ran = v.ran;
  kept = λ d. cc;
  going = v.going;
}

history-InOrder :
    (s : Stream) (es : List Event) (p : Pool) → IsOwned p → InOrder s p → InOrder s (history es p)
unfolding history
history-InOrder s [] p o v = v
history-InOrder s (e ∷ es) p o v =
    history-InOrder s es (happens e p) (happens-IsOwned e p o) (happens-InOrder s e p o v)

new_reader-InOrder : (s : Stream) (limit : ℕ) → InOrder s (new_reader s limit)
unfolding new_reader run
new_reader-InOrder s limit = record { lost = []; ran = refl; kept = λ d. refl; going = (refl, tt) }

-- After any steps of a reading task and of the loop that it serves, and any stop: no buffer has two
-- owners; the payloads of the message that the loop works on and of the one that is queued are as they
-- were read; the buffer that the loop returns finds room in the pool, so that none is ever dropped; at
-- most one message is queued; and the messages that the loop got, followed by the queued one, the one
-- in the task's hand, and, once it was stopped, the one that it gave up, are those that the task's
-- reads take off the stream, in their order.
pub pool_sound :
    (s : Stream) (limit : ℕ) (es : List Event)
    → let p = history es (new_reader s limit) in
      ((b : ℕ) → owners b p ≤ 1)
      × HeldIntact p.mem p.held
      × All (IsIntact p.mem) p.msgs
      × ((q : Slot) → p.held ≡ some q → length p.free < read_ahead_slots)
      × (length p.msgs ≤ 1)
      × InOrder s p
pool_sound s limit es =
    let p = history es (new_reader s limit) in
    let o = history-IsOwned es (new_reader s limit) (new_reader-IsOwned s limit) in
    (
      o.once,
      o.in_use,
      o.queued,
      λ q h. release_room p q h o,
      o.one_ahead,
      history-InOrder s es (new_reader s limit) (new_reader-IsOwned s limit)
          (new_reader-InOrder s limit),
    )
