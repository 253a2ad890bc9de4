-- ===== src/Internal/TestDevice/Records.antt =====
-- The records of the test instrument: each operation that succeeds is recorded once, in order.
use hislip.Prelude.{
  ℕ, suc, ◌+◌, ◌≡◌, refl, ap, ◌∙◌, sym, Bool, true, not, Option, none, some, List, [], ◌∷◌, ◌++◌,
  append_assoc, append-nil, if-both, Bytes, get_elem?, if◌then◌else◌, arith,
}
use hislip.Errors.{Error, Result, ok, err}
use hislip.Server.Device.{Chunk}
use hislip.Internal.TestDevice.{
  Op, op_write, op_read, op_clear, op_trigger, op_read_status_byte, op_remote_local,
  op_interface_clear, Call, TestDevice, recorded, unless_failing, ops, count, same_op, write, read,
  read_pending, read_unless, next_response, status_unless, clear, trigger, read_status_byte,
  remote_local, interface_clear, reset,
}

-- What a test may ask of the instrument.
pub data Act : Type 0 where
  writes : Bytes → Bool → Act
  reads : ℕ → Act
  clears triggers polls clears_interface : Act
  sets_mode : ℕ → Act

abbrev pub op_of : Act → Op
op_of (writes p end) = op_write
op_of (reads n) = op_read
op_of clears = op_clear
op_of triggers = op_trigger
op_of polls = op_read_status_byte
op_of clears_interface = op_interface_clear
op_of (sets_mode m) = op_remote_local

-- The bytes that an operation adds to what was written.
abbrev pub program_bytes : Act → Bytes
program_bytes (writes p end) = p
program_bytes _ = []

abbrev error_of : Result ℕ → Option Error
error_of (ok b) = none
error_of (err e) = some e

-- An operation: its error, and the instrument behind it.
unfoldable pub perform : Act → TestDevice → Option Error × TestDevice
unfolding write read clear trigger read_status_byte remote_local interface_clear
perform (writes p end) d = write d p end
perform (reads n) d = let r = read d n in ((r.0).error, r.1)
perform clears d = clear d
perform triggers d = trigger d
perform polls d = let r = read_status_byte d in (error_of r.0, r.1)
perform clears_interface d = interface_clear d
perform (sets_mode m) d = remote_local d m

abbrev pub and_done : Option Error → Act → List Act → List Act
and_done none a done = a ∷ done
and_done (some e) a done = done

-- The operations of a history that succeed, and the instrument behind it.
unfoldable pub performed : List Act → TestDevice → List Act × TestDevice
unfolding perform
performed [] d = ([], d)
performed (a ∷ acts) d =
    let (e, d') = perform a d in let (done, last) = performed acts d' in (and_done e a done, last)

abbrev pub kinds : List Act → List Op
kinds [] = []
kinds (a ∷ acts) = op_of a ∷ kinds acts

abbrev pub program : List Act → Bytes
program [] = []
program (a ∷ acts) = program_bytes a ++ program acts

ops-append : (xs ys : List Call) → ops (xs ++ ys) ≡ ops xs ++ ops ys
unfolding ops
ops-append [] ys = refl
ops-append (c ∷ cs) ys = ap (◌∷◌ c.op) (ops-append cs ys)

-- One operation: it fails and changes nothing, or it is recorded.
record IsRecorded (a : Act) (d d' : TestDevice) : Type 0 where
  kind : ops d'.calls ≡ ops d.calls ++ op_of a ∷ []
  program_so_far : d'.written ≡ d.written ++ program_bytes a

recorded_call : (cs : List Call) (c : Call) → ops (cs ++ c ∷ []) ≡ ops cs ++ c.op ∷ []
unfolding ops
recorded_call cs c = ops-append cs (c ∷ [])

pending_recorded :
    (d : TestDevice) (n : ℕ)
    → (ops (read_pending d n).1.calls ≡ ops d.calls ++ op_read ∷ [])
      × ((read_pending d n).1.written ≡ d.written)
unfolding read_pending
pending_recorded d n = (recorded_call d.calls _, refl)

-- An operation is recorded if it gives no error, and else changes nothing.
abbrev Steps : Act → TestDevice → Option Error × TestDevice → Type 0
Steps a d r = (r.0 ≡ none → IsRecorded a d r.1) × ((e : Error) → r.0 ≡ some e → r.1 ≡ d)

pending-Steps :
    (d d' : TestDevice) (n : ℕ)
    → d'.calls ≡ d.calls
    → d'.written ≡ d.written
    → ((read_pending d' n).0.error ≡ none) × IsRecorded (reads n) d (read_pending d' n).1
unfolding read_pending
pending-Steps d d' n cs w = (
  refl,
  record {
    kind = recorded_call d'.calls _ ∙ ap (λ xs. ops xs ++ op_read ∷ []) cs;
    program_so_far = w ∙ sym (append-nil d.written);
  },
)

next-Steps :
    (d : TestDevice) (r : Option Bytes) (n : ℕ)
    → Steps (reads n) d ((next_response d r n).0.error, (next_response d r n).1)
next-Steps d none n = (λ i. cc, λ e i. refl)
next-Steps d (some r) n =
    let p =
      pending-Steps d (record d { pending = r; resp_idx = suc d.resp_idx; in_flight = true }) n refl
        refl in
    (λ i. p.1, λ e i. absurd (ground (arith, p.0, i)))

read-Steps :
    (d : TestDevice) (e : Option Error) (n : ℕ)
    → Steps (reads n) d ((read_unless e d n).0.error, (read_unless e d n).1)
read-Steps d (some x) n = (λ i. cc, λ e i. refl)
read-Steps d none n =
    let p = pending-Steps d d n refl refl in
    if-both (λ (r : Chunk × TestDevice). Steps (reads n) d ((r.0).error, r.1)) (not d.in_flight) _ _
      (next-Steps d (get_elem? d.responses d.resp_idx) n)
      (λ i. p.1, λ e i. absurd (ground (arith, p.0, i)))

-- An operation that records a call whatever the state, unless the map Errors makes it fail.
unless-Steps :
    (a : Act) (d d' : TestDevice) (e : Option Error)
    → IsRecorded a d d'
    → Steps a d (unless_failing e d d')
unless-Steps a d d' none v = (λ i. v, λ e i. cc)
unless-Steps a d d' (some x) v = (λ i. cc, λ e i. refl)

simple-IsRecorded :
    (a : Act) (d : TestDevice) (c : Call)
    → c.op ≡ op_of a
    → program_bytes a ≡ []
    → IsRecorded a d (recorded d c)
simple-IsRecorded a d c o p = record {
  kind = recorded_call d.calls c ∙ ap (λ x. ops d.calls ++ x ∷ []) o;
  program_so_far = sym (append-nil d.written) ∙ ap (λ b. d.written ++ b) (sym p);
}

poll-Steps :
    (d : TestDevice) (e : Option Error)
    → Steps polls d (error_of (status_unless e d).0, (status_unless e d).1)
poll-Steps d none = (λ i. simple-IsRecorded polls d _ refl refl, λ e i. cc)
poll-Steps d (some x) = (λ i. cc, λ e i. refl)

perform-Steps : (a : Act) (d : TestDevice) → Steps a d (perform a d)
unfolding perform
perform-Steps (writes p end) d =
    unless-Steps (writes p end) d _ (d.errors op_write)
      (record { kind = recorded_call d.calls _; program_so_far = refl })
perform-Steps (reads n) d = read-Steps d (d.errors op_read) n
perform-Steps clears d =
    unless-Steps clears d _ (d.errors op_clear)
      (record { kind = recorded_call d.calls _; program_so_far = sym (append-nil d.written) })
perform-Steps triggers d =
    unless-Steps triggers d _ (d.errors op_trigger) (simple-IsRecorded triggers d _ refl refl)
perform-Steps polls d = poll-Steps d (d.errors op_read_status_byte)
perform-Steps clears_interface d =
    unless-Steps clears_interface d _ (d.errors op_interface_clear)
      (simple-IsRecorded clears_interface d _ refl refl)
perform-Steps (sets_mode m) d =
    unless-Steps (sets_mode m) d _ (d.errors op_remote_local)
      (simple-IsRecorded (sets_mode m) d _ refl refl)

-- How often a kind stands in a list.
abbrev pub times : Op → List Op → ℕ
times op [] = 0
times op (o ∷ os) = (if same_op o op then 1 else 0) + times op os

count-ops : (op : Op) (cs : List Call) → count op cs ≡ times op (ops cs)
unfolding count ops
count-ops op [] = refl
count-ops op (c ∷ cs) = ap (λ n. (if same_op c.op op then 1 else 0) + n) (count-ops op cs)

both_record :
    (e : Option Error) (a : Act) (d d' last : TestDevice) (done : List Act)
    → Steps a d (e, d')
    → ops last.calls ≡ ops d'.calls ++ kinds done
    → last.written ≡ d'.written ++ program done
    → (ops last.calls ≡ ops d.calls ++ kinds (and_done e a done))
      × (last.written ≡ d.written ++ program (and_done e a done))
both_record none a d d' last done s k w =
    let v = s.0 refl in
    (
      k
          ∙ ap (λ xs. xs ++ kinds done) v.kind
          ∙ append_assoc (ops d.calls) (op_of a ∷ []) (kinds done),
      w
          ∙ ap (λ xs. xs ++ program done) v.program_so_far
          ∙ append_assoc d.written (program_bytes a) (program done),
    )
both_record (some e) a d d' last done s k w =
    let same = s.1 e refl in
    (
      k ∙ ap (λ (x : TestDevice). ops x.calls ++ kinds done) same,
      w ∙ ap (λ (x : TestDevice). x.written ++ program done) same,
    )

performed-records :
    (acts : List Act) (d : TestDevice)
    → let r = performed acts d in
      (ops r.1.calls ≡ ops d.calls ++ kinds r.0) × (r.1.written ≡ d.written ++ program r.0)
unfolding performed
performed-records [] d = (sym (append-nil (ops d.calls)), sym (append-nil d.written))
performed-records (a ∷ acts) d =
    let d' = (perform a d).1 in
    let rest = performed-records acts d' in
    both_record (perform a d).0 a d d' (performed acts d').1 (performed acts d').0
      (perform-Steps a d) rest.0 rest.1

-- After any operations on the instrument as New or Reset leaves it: the kinds of the recorded calls are
-- those of the operations that gave no error, in their order, each of them is counted as often as it
-- succeeded, and what was written is what the successful writes were given, put together.
pub records_exact :
    (acts : List Act) (d : TestDevice) (op : Op)
    → let r = performed acts (reset d) in
      (ops r.1.calls ≡ kinds r.0)
      × (count op r.1.calls ≡ times op (kinds r.0))
      × (r.1.written ≡ program r.0)
unfolding reset
records_exact acts d op =
    let v = performed-records acts (reset d) in
    (v.0 ∙ unfold ops in refl, count-ops op _ ∙ ap (times op) (v.0 ∙ unfold ops in refl), v.1)
