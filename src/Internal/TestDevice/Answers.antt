-- ===== src/Internal/TestDevice/Answers.antt =====
-- A prepared response comes back whole, read by read, and a query to it reaches the client whole.
use hislip.Prelude.{
  ℕ, zero, suc, ◌≤◌, ◌<◌, ◌≡◌, refl, ap, ◌∙◌, inl, inr, true, false, none, some, List, [], ◌∷◌,
  ◌++◌, concat, append_assoc, Bytes, length, take, drop, get_elem?, length-take, length-drop,
  take-append-drop, All, ==_iff, ◌==◌, Bool-cases, arith,
}
use hislip.Server.Device.{Chunk}
use hislip.Server.Data.Chunks.{Reads}
use hislip.Server.Data.Responds.{IsEnd}
use hislip.Internal.TestDevice.{TestDevice, op_read, read, read_pending, test_device}

-- What a response leaves of the instrument, but for its records.
pub record IsAnswered (d d' : TestDevice) (next : ℕ) : Type 0 where
  pub idle : d'.in_flight ≡ false
  pub responses : d'.responses ≡ d.responses
  pub errors : d'.errors ≡ d.errors
  pub resp_idx : d'.resp_idx ≡ next
  pub written : d'.written ≡ d.written

-- The reads of a response, in chunks of `n` bytes; only the last may have fewer.
pub record IsWhole (d : TestDevice) (n next : ℕ) (response : Bytes) (bs : List Bytes) (c : Chunk)
    (d' : TestDevice) : Type 0 where
  pub reads : Reads test_device n d bs c d'
  pub is_end : IsEnd c
  pub whole : concat bs ++ c.bytes ≡ response
  pub full : All (λ b. length b ≡ n) bs
  pub few : length bs ≤ length response
  pub answered : IsAnswered d d' next

read-pending :
    (d : TestDevice) (n : ℕ)
    → d.errors op_read ≡ none
    → d.in_flight ≡ true
    → read d n ≡ read_pending d n
unfolding read
read-pending d n e f = ground arith

drop-nothing : (n : ℕ) (xs : Bytes) → length (drop n xs) ≡ 0 → take n xs ≡ xs
drop-nothing zero [] h = refl
drop-nothing zero (x ∷ xs) h = absurd (omega arith)
drop-nothing (suc n) [] h = refl
drop-nothing (suc n) (x ∷ xs) h = ap (◌∷◌ x) (drop-nothing n xs h)

last-IsWhole :
    (n : ℕ) (d : TestDevice)
    → length (drop n d.pending) ≡ 0
    → d.errors op_read ≡ none
    → d.in_flight ≡ true
    → IsWhole d n d.resp_idx d.pending [] (read_pending d n).0 (read_pending d n).1
unfolding test_device read_pending
last-IsWhole n d last e f = record {
  reads = read-pending d n e f;
  is_end = ground arith;
  whole = drop-nothing n d.pending last;
  full = tt;
  few = omega arith;
  answered = ground arith;
}

more-IsWhole :
    (n : ℕ) (d : TestDevice) (bs : List Bytes) (c : Chunk) (d' : TestDevice)
    → 0 < n
    → (length (drop n d.pending) == 0) ≡ false
    → d.errors op_read ≡ none
    → d.in_flight ≡ true
    → IsWhole (read_pending d n).1 n d.resp_idx (drop n d.pending) bs c d'
    → IsWhole d n d.resp_idx d.pending (take n d.pending ∷ bs) c d'
unfolding test_device read_pending
more-IsWhole n d bs c d' pos more e f v = record {
  reads = ((read_pending d n).1, read-pending d n e f ∙ ground arith, v.reads);
  is_end = v.is_end;
  whole =
      append_assoc (take n d.pending) (concat bs) c.bytes
      ∙ ap (λ ys. take n d.pending ++ ys) v.whole
      ∙ take-append-drop n d.pending;
  full = (ground (arith, length-take n d.pending, length-drop n d.pending), v.full);
  few = let v_few = v.few in ground (arith, length-drop n d.pending);
  answered =
      let a = v.answered in
      record {
        idle = a.idle;
        responses = a.responses;
        errors = a.errors;
        resp_idx = a.resp_idx;
        written = a.written;
      };
}

pending-IsWhole :
    (k n : ℕ) (d : TestDevice)
    → 0 < n
    → length d.pending ≤ k
    → d.errors op_read ≡ none
    → d.in_flight ≡ true
    → (bs : List Bytes) × (c : Chunk) × (d' : TestDevice) × IsWhole d n d.resp_idx d.pending bs c d'
unfolding read_pending
pending-IsWhole zero n d pos h e f = (
  [],
  (read_pending d n).0,
  (read_pending d n).1,
  last-IsWhole n d (omega (arith, length-drop n d.pending)) e f,
)
pending-IsWhole (suc k) n d pos h e f = elim (Bool-cases (length (drop n d.pending) == 0)) [
  | inl last ↦
      ([], (read_pending d n).0, (read_pending d n).1, last-IsWhole n d ((==_iff _ _).0 last) e f)
  | inr more ↦
      let (bs, c, d', v) =
        pending-IsWhole k n (read_pending d n).1 pos (ground (arith, length-drop n d.pending)) e
          (ground arith) in
      (take n d.pending ∷ bs, c, d', more-IsWhole n d bs c d' pos more e f v)
]

Reads-same :
    (n : ℕ) (d e : TestDevice) (bs : List Bytes) (c : Chunk) (d' : TestDevice)
    → test_device.read d n ≡ test_device.read e n
    → Reads test_device n e bs c d'
    → Reads test_device n d bs c d'
Reads-same n d e [] c d' same r = same ∙ r
Reads-same n d e (b ∷ bs) c d' same (u, first, rest) = (u, same ∙ first, rest)

-- The response that is next, as it is taken up.
abbrev taken_up : TestDevice → Bytes → TestDevice
taken_up d response = record d { pending = response; resp_idx = suc d.resp_idx; in_flight = true }

read-taken_up :
    (n : ℕ) (d : TestDevice) (response : Bytes)
    → d.errors op_read ≡ none
    → d.in_flight ≡ false
    → get_elem? d.responses d.resp_idx ≡ some response
    → read d n ≡ read (taken_up d response) n
unfolding read
read-taken_up n d response e f g = ground arith

-- The instrument with a prepared response that is its next, and no response under way or error to give
-- for reads, read with a buffer that is not empty until the end is set: the chunks put together are the
-- response, all but the last fill the buffer, there are no more of them than bytes, and the next
-- response is the one behind it.
pub response-IsWhole :
    (n : ℕ) (d : TestDevice) (response : Bytes)
    → 0 < n
    → d.errors op_read ≡ none
    → d.in_flight ≡ false
    → get_elem? d.responses d.resp_idx ≡ some response
    → (bs : List Bytes) × (c : Chunk) × (d' : TestDevice) × IsWhole d n
        (suc d.resp_idx)
        response
        bs
        c
        d'
unfolding test_device
response-IsWhole n d response pos e f g =
    let (bs, c, d', v) =
      pending-IsWhole (length response) n (taken_up d response) pos (omega arith) e refl in
    (
      bs,
      c,
      d',
      record {
        reads =
            Reads-same n d (taken_up d response) bs c d' (read-taken_up n d response e f g) v.reads;
        is_end = v.is_end;
        whole = v.whole;
        full = v.full;
        few = v.few;
        answered =
            let a = v.answered in
            record {
              idle = a.idle;
              responses = a.responses;
              errors = a.errors;
              resp_idx = a.resp_idx;
              written = a.written;
            };
      },
    )
