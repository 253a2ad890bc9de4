-- ===== src/Protocol/Stream/Reads.antt =====
-- What io.ReadFull does to a stream whose next bytes are known.
use hislip.Prelude.{
  ℕ, ◌≤◌, ◌<◌, ◌≡◌, Bytes, [], ◌++◌, length, length-append, take, drop, take-length-append,
  drop-length-append, arith,
}
use hislip.Errors.{ok, err}
use hislip.Protocol.Stream.{Stream, read_full, short_read}

pub read_full-append :
    (s : Stream) (xs ys : Bytes)
    → s.inbox ≡ xs ++ ys
    → read_full (length xs) s ≡ (ok xs, record s { inbox = ys })
unfolding read_full
read_full-append s xs ys e =
    ground (arith, length-append xs ys, take-length-append xs ys, drop-length-append xs ys)

-- Enough bytes: they are delivered, and the rest stays.
pub read_full-enough :
    (n : ℕ) (s : Stream)
    → n ≤ length s.inbox
    → read_full n s ≡ (ok (take n s.inbox), record s { inbox = drop n s.inbox })
unfolding read_full
read_full-enough n s h = ground arith

-- Too few bytes: an error, and they are used up.
pub read_full-few :
    (n : ℕ) (s : Stream)
    → length s.inbox < n
    → read_full n s ≡ (err (short_read s.ending s.inbox), record s { inbox = [] })
unfolding read_full
read_full-few n s h = ground arith
