-- ===== src/Internal/TestStream.antt =====
-- internal/teststream/teststream.go: streams in memory. Canned delivers prepared bytes and captures
-- writes; Pipe joins two ends by blocking byte queues.
pub mod Full
pub mod Fifo
use hislip.Prelude.{
  ℕ, zero, suc, ◌-◌, ◌+◌, Bool, true, false, not, ◌&&◌, Option, none, some, List, [], ◌∷◌, ◌++◌,
  Bytes, length, take, drop, ltb, leb, ◌==◌, if◌then◌else◌,
}
use hislip.Prelude.Text.{codes}
use hislip.Errors.{Error, external, eof, Result, ok, err}
use hislip.Protocol.Stream.{short_read}

abbrev pub err_closed : Error
err_closed = external (codes "teststream: stream is closed")

-- `input` is what the reader has not delivered yet.
pub record Canned : Type 0 where
  pub input : Bytes
  pub output : Bytes
  pub closed : Bool
  pub read_err : Option Error
  pub write_err : Option Error
  pub max_read : ℕ

-- NewCanned.
unfoldable pub new_canned : Bytes → Canned
new_canned input = record {
  input = input;
  output = [];
  closed = false;
  read_err = none;
  write_err = none;
  max_read = 0;
}

-- bytes.Reader.Read into a buffer of `n` bytes: at the end it gives EOF, else it gives what fits.
abbrev pub reader_read : Canned → ℕ → (Bytes × Option Error) × Canned
reader_read c n =
    if length c.input == 0
    then (([], some eof), c)
    else ((take n c.input, none), record c { input = drop n c.input })

-- The buffer that MaxRead leaves.
abbrev pub capped : ℕ → ℕ → ℕ
capped max_read n = if ltb 0 max_read && ltb max_read n then max_read else n

abbrev pub read_open : Option Error → Canned → ℕ → (Bytes × Option Error) × Canned
read_open (some e) c n = (([], some e), c)
read_open none c n = reader_read c (capped c.max_read n)

-- Canned.Read.
unfoldable pub canned_read : Canned → ℕ → (Bytes × Option Error) × Canned
canned_read c n = if c.closed then (([], some err_closed), c) else read_open c.read_err c n

-- Canned.Write: the number of bytes, the error. The bytes are kept also where an error is given.
unfoldable pub canned_write : Canned → Bytes → (ℕ × Option Error) × Canned
canned_write c p =
    if c.closed
    then ((0, some err_closed), c)
    else ((length p, c.write_err), record c { output = c.output ++ p })

-- Canned.Close, which does not fail.
unfoldable pub canned_close : Canned → Canned
canned_close c = record c { closed = true }

-- Unread. It reads a copy, so the stream stays as it is.
unfoldable pub unread : Canned → Bytes
unread c = c.input

unfoldable pub reset_output : Canned → Canned
reset_output c = record c { output = [] }

-- io.ReadFull, a loop over Read: `have` is what was read so far of the `n` bytes still wanted. A read
-- into a buffer that is not empty gives a byte or an error, so `n` rounds are enough; `fuel` bounds them.
abbrev pub read_more :
    ℕ
    → Bytes
    → (Bytes × Option Error) × Canned
    → (ℕ → Bytes → Canned → Result Bytes × Canned)
    → Result Bytes × Canned
read_more n have ((got, none), c) go = go (n - length got) (have ++ got) c
read_more n have ((got, some e), c) go =
    if leb n (length got) then (ok (have ++ got), c) else (err (short_read e (have ++ got)), c)

unfoldable pub read_full_loop : ℕ → ℕ → Bytes → Canned → Result Bytes × Canned
unfolding canned_read
read_full_loop fuel zero have c = (ok have, c)
read_full_loop zero (suc n) have c = (err (short_read eof have), c)
read_full_loop (suc fuel) (suc n) have c =
    read_more (suc n) have (canned_read c (suc n)) (λ m got c'. read_full_loop fuel m got c')

-- A queue of bytes between the two ends.
pub record Buffer : Type 0 where
  pub queued : Bytes
  pub closed : Bool

abbrev pub new_buffer : Buffer
new_buffer = record { queued = []; closed = false }

unfoldable pub buffer_write : Buffer → Bytes → (ℕ × Option Error) × Buffer
buffer_write b p =
    if b.closed
    then ((0, some err_closed), b)
    else ((length p, none), record b { queued = b.queued ++ p })

-- A read that would wait is `none`: it is tried again when the buffer has changed.
unfoldable pub buffer_read : Buffer → ℕ → Option ((Bytes × Option Error) × Buffer)
buffer_read b n =
    if length b.queued == 0
    then (if b.closed then some (([], some eof), b) else none)
    else some ((take n b.queued, none), record b { queued = drop n b.queued })

unfoldable pub buffer_close : Buffer → Buffer
buffer_close b = record b { closed = true }

-- Pipe: the buffers from the first end to the second, and back.
pub record Pipe : Type 0 where
  pub a_to_b : Buffer
  pub b_to_a : Buffer

abbrev pub new_pipe : Pipe
new_pipe = record { a_to_b = new_buffer; b_to_a = new_buffer }

-- One end of a pipe.
pub data End : Type 0 where
  end_a end_b : End

unfoldable pub pipe_write : End → Pipe → Bytes → (ℕ × Option Error) × Pipe
unfolding buffer_write
pipe_write end_a p bytes = let (r, b) = buffer_write p.a_to_b bytes in (r, record p { a_to_b = b })
pipe_write end_b p bytes = let (r, b) = buffer_write p.b_to_a bytes in (r, record p { b_to_a = b })

abbrev pub from_b :
    Pipe → Option ((Bytes × Option Error) × Buffer) → Option ((Bytes × Option Error) × Pipe)
from_b p none = none
from_b p (some (r, b)) = some (r, record p { b_to_a = b })

abbrev pub from_a :
    Pipe → Option ((Bytes × Option Error) × Buffer) → Option ((Bytes × Option Error) × Pipe)
from_a p none = none
from_a p (some (r, b)) = some (r, record p { a_to_b = b })

unfoldable pub pipe_read : End → Pipe → ℕ → Option ((Bytes × Option Error) × Pipe)
unfolding buffer_read
pipe_read end_a p n = from_b p (buffer_read p.b_to_a n)
pipe_read end_b p n = from_a p (buffer_read p.a_to_b n)

-- Conn.Close closes both directions. A second call does nothing, and so does closing twice.
unfoldable pub pipe_close : Pipe → Pipe
unfolding buffer_close
pipe_close p = record { a_to_b = buffer_close p.a_to_b; b_to_a = buffer_close p.b_to_a }
