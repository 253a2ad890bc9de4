-- ===== src/Protocol/Stream.antt =====
-- A transport connection, the Stream of server/stream.go, as the code can observe it: the bytes that
-- it will deliver and the error behind them, the bytes that it has taken, and the outcomes that it
-- will give to writes. The environment fixes these; the theorems hold for all of them.
pub mod Reads
use hislip.Prelude.{
  ℕ, zero, suc, ◌+◌, ◌*◌, Bool, true, false, Option, none, some, List, [], ◌∷◌, ◌++◌, Bytes, length,
  take, drop, leb, ltb, ◌==◌, if◌then◌else◌,
}
use hislip.Errors.{Error, eof, unexpected_eof, Result, ok, err}

-- A write takes all its bytes, or takes some and fails.
pub data Outcome : Type 0 where
  takes_all : Outcome
  fails_after : ℕ → Error → Outcome

-- Writes beyond the outcomes listed succeed.
pub record Stream : Type 0 where
  pub inbox : Bytes
  pub ending : Error
  pub written : Bytes
  pub outcomes : List Outcome
  pub closed : Bool
  pub close_error : Option Error

abbrev deliver : Stream → Bytes → Outcome → List Outcome → Option Error × Stream
deliver s p takes_all rest = (none, record s { written = s.written ++ p; outcomes = rest })
deliver s p (fails_after n e) rest =
    (some e, record s { written = s.written ++ take n p; outcomes = rest })

abbrev write_next : Stream → Bytes → List Outcome → Option Error × Stream
write_next s p [] = deliver s p takes_all []
write_next s p (o ∷ rest) = deliver s p o rest

-- Stream.Write.
unfoldable pub write : Stream → Bytes → Option Error × Stream
write s p = write_next s p s.outcomes

-- io.ReadFull tells the end before the first byte from the end inside.
abbrev pub short_read : Error → Bytes → Error
short_read eof [] = eof
short_read eof (x ∷ xs) = unexpected_eof
short_read e xs = e

-- io.ReadFull into a buffer of `n` bytes: the bytes, or why there were too few.
unfoldable pub read_full : ℕ → Stream → Result Bytes × Stream
read_full n s =
    if leb n (length s.inbox)
    then (ok (take n s.inbox), record s { inbox = drop n s.inbox })
    else (err (short_read s.ending s.inbox), record s { inbox = [] })

-- Stream.Close.
unfoldable pub close : Stream → Option Error × Stream
close s = (s.close_error, record s { closed = true })
