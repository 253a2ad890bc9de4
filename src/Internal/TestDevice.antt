-- ===== src/Internal/TestDevice.antt =====
-- internal/testdevice/testdevice.go: an instrument that records every operation, and answers with
-- prepared responses.
pub mod Answers
pub mod Queries
pub mod Records
use hislip.Prelude.{
  ℕ, suc, ◌≤◌, ◌+◌, Bool, true, false, not, ◌&&◌, Option, none, some, List, [], ◌∷◌, ◌++◌, Bytes,
  length, take, drop, get_elem?, length-take, ltb, ◌==◌, if◌then◌else◌, arith,
}
use hislip.Prelude.Text.{codes}
use hislip.Errors.{Error, external, Result, ok, err}
use hislip.Server.Device.{Device, Chunk}

-- The kinds of recorded operations.
pub data Op : Type 0 where
  op_write op_read op_clear op_trigger op_read_status_byte op_remote_local op_interface_clear : Op

-- One recorded operation; the fields that its kind does not use are zero.
pub record Call : Type 0 where
  pub op : Op
  pub payload : Bytes
  pub end : Bool
  pub mode : ℕ

-- The map Errors is given by its lookups; a nil map has no key.
pub record TestDevice : Type 0 where
  pub responses : List Bytes
  pub status : ℕ
  pub errors : Op → Option Error
  pub name : Bytes
  pub calls : List Call
  pub written : Bytes
  pub pending : Bytes
  pub resp_idx : ℕ
  pub in_flight : Bool

-- New.
unfoldable pub new_device : List Bytes → TestDevice
new_device responses = record {
  responses = responses;
  status = 0;
  errors = λ op. none;
  name = [];
  calls = [];
  written = [];
  pending = [];
  resp_idx = 0;
  in_flight = false;
}

abbrev pub err_no_response : Error
err_no_response = external (codes "testdevice: no response queued")

abbrev pub call_of : Op → Call
call_of op = record { op = op; payload = []; end = false; mode = 0 }

-- The method record.
abbrev pub recorded : TestDevice → Call → TestDevice
recorded d c = record d { calls = d.calls ++ c ∷ [] }

-- An operation that fails if the map says so, and else does its work.
abbrev pub unless_failing : Option Error → TestDevice → TestDevice → Option Error × TestDevice
unless_failing (some e) d d' = (some e, d)
unless_failing none d d' = (none, d')

unfoldable pub write : TestDevice → Bytes → Bool → Option Error × TestDevice
write d p end = unless_failing (d.errors op_write) d (
    recorded (record d { written = d.written ++ p })
      (record (call_of op_write) { payload = p; end = end }))

abbrev pub failed_read : Error → Chunk
failed_read e = record { bytes = []; end = false; error = some e }

-- A read from the response under way, into a buffer of `n` bytes.
unfoldable pub read_pending : TestDevice → ℕ → Chunk × TestDevice
read_pending d n =
    let bytes = take n d.pending in
    let rest = drop n d.pending in
    let end = length rest == 0 in
    (
      record { bytes = bytes; end = end; error = none },
      recorded (record d { pending = rest; in_flight = if end then false else d.in_flight })
          (record (call_of op_read) { payload = bytes; end = end }),
    )

abbrev pub next_response : TestDevice → Option Bytes → ℕ → Chunk × TestDevice
next_response d none n = (failed_read err_no_response, d)
next_response d (some r) n =
    read_pending (record d { pending = r; resp_idx = suc d.resp_idx; in_flight = true }) n

abbrev pub read_unless : Option Error → TestDevice → ℕ → Chunk × TestDevice
read_unless (some e) d n = (failed_read e, d)
read_unless none d n =
    if not d.in_flight
    then next_response d (get_elem? d.responses d.resp_idx) n
    else read_pending d n

unfoldable pub read : TestDevice → ℕ → Chunk × TestDevice
unfolding read_pending
read d n = read_unless (d.errors op_read) d n

unfoldable pub clear : TestDevice → Option Error × TestDevice
clear d =
    unless_failing (d.errors op_clear) d
      (recorded (record d { pending = []; in_flight = false }) (call_of op_clear))

unfoldable pub trigger : TestDevice → Option Error × TestDevice
trigger d = unless_failing (d.errors op_trigger) d (recorded d (call_of op_trigger))

abbrev pub status_unless : Option Error → TestDevice → Result ℕ × TestDevice
status_unless (some e) d = (err e, d)
status_unless none d =
    (ok d.status, recorded d (record (call_of op_read_status_byte) { payload = d.status ∷ [] }))

unfoldable pub read_status_byte : TestDevice → Result ℕ × TestDevice
read_status_byte d = status_unless (d.errors op_read_status_byte) d

unfoldable pub remote_local : TestDevice → ℕ → Option Error × TestDevice
remote_local d mode =
    unless_failing (d.errors op_remote_local) d
      (recorded d (record (call_of op_remote_local) { mode = mode }))

unfoldable pub interface_clear : TestDevice → Option Error × TestDevice
interface_clear d =
    unless_failing (d.errors op_interface_clear) d (recorded d (call_of op_interface_clear))

unfoldable pub same_op : Op → Op → Bool
same_op op_write op_write = true
same_op op_read op_read = true
same_op op_clear op_clear = true
same_op op_trigger op_trigger = true
same_op op_read_status_byte op_read_status_byte = true
same_op op_remote_local op_remote_local = true
same_op op_interface_clear op_interface_clear = true
same_op _ _ = false

-- Ops.
unfoldable pub ops : List Call → List Op
ops [] = []
ops (c ∷ cs) = c.op ∷ ops cs

-- Count.
unfoldable pub count : Op → List Call → ℕ
unfolding same_op
count op [] = 0
count op (c ∷ cs) = (if same_op c.op op then 1 else 0) + count op cs

-- Reset. The responses and the status byte stay as they are.
unfoldable pub reset : TestDevice → TestDevice
reset d = record d { calls = []; written = []; pending = []; resp_idx = 0; in_flight = false }

fits_pending : (d : TestDevice) (n : ℕ) → length (read_pending d n).0.bytes ≤ n
unfolding read_pending
fits_pending d n = omega (arith, length-take n d.pending)

fits_next : (d : TestDevice) (r : Option Bytes) (n : ℕ) → length (next_response d r n).0.bytes ≤ n
fits_next d none n = omega arith
fits_next d (some r) n =
    fits_pending (record d { pending = r; resp_idx = suc d.resp_idx; in_flight = true }) n

fits_unless : (e : Option Error) (d : TestDevice) (n : ℕ) → length (read_unless e d n).0.bytes ≤ n
fits_unless (some e) d n = omega arith
fits_unless none d n =
    ground (arith, fits_next d (get_elem? d.responses d.resp_idx) n, fits_pending d n)

pub read_fits : (d : TestDevice) (n : ℕ) → length (read d n).0.bytes ≤ n
unfolding read
read_fits d n = fits_unless (d.errors op_read) d n

-- The test instrument as the server sees it.
unfoldable pub test_device : Device TestDevice
unfolding write read clear trigger read_status_byte remote_local
test_device = record {
  write = write;
  read = read;
  clear = clear;
  trigger = trigger;
  read_status_byte = read_status_byte;
  remote_local = remote_local;
  read_fits = read_fits;
}
