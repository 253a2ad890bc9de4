-- ===== src/Simulated/Queries.antt =====
-- A query to the simulated instrument: how its message comes in, and how its response goes out.
use hislip.Prelude.{
  ℕ, zero, suc, ◌≤◌, ◌<◌, ◌≡◌, refl, ap, ◌∙◌, sym, inl, inr, true, false, none, some, List, [], ◌∷◌,
  ◌++◌, concat, append_assoc, append-nil, Bytes, length, take, drop, length-take, length-drop,
  take-append-drop, All, ==_iff, ◌==◌, Bool-cases, arith,
}
use hislip.Errors.{ok}
use hislip.Protocol.MessageType
use hislip.Protocol.MessageType.{channel_synchronous}
use hislip.Server.Policy.{response_expected}
use hislip.Server.Session.{Writer, state_ready, feed_program_message, program_disposition}
use hislip.Server.Config.{Config}
use hislip.Server.Device.{Chunk}
use hislip.Server.Reader.{Message}
use hislip.Server.Dispatch.Accepts.{IsAccepted}
use hislip.Server.State.{State, on_sync}
use hislip.Server.State.Sends.{IsOpen}
use hislip.Server.Data.Chunks.{Reads}
use hislip.Server.Data.Receives.{TakesInput}
use hislip.Server.Data.Responds.{IsEnd, IsDelivered}
use hislip.Server.Serve.{handle_sync}
use hislip.Server.Serve.Messages.{response_to, scratch_fits}
use hislip.Server.Serve.Queries.{handle_sync-query}
use hislip.Simulated.{Floats, Instrument, instrument, read, write}

module _ {V : Type 0} (floats : Floats V) where
  -- Chunks of a message that goes on.
  abbrev pub partial : List Bytes → Instrument V → Instrument V
  unfolding write
  partial [] d = d
  partial (p ∷ ps) d = partial ps (write floats d p false).1

  write-write :
      (d : Instrument V) (p q : Bytes)
      → write floats (write floats d p false).1 q true ≡ write floats d (p ++ q) true
  unfolding write
  write-write d p q = ground (arith, append_assoc d.input p q)

  -- However a program message is cut into chunks, the instrument takes it as if it came in one.
  pub write_partial :
      (d : Instrument V) (ps : List Bytes) (last : Bytes)
      → write floats (partial ps d) last true ≡ write floats d (concat ps ++ last) true
  unfolding partial
  write_partial d [] last = refl
  write_partial d (p ∷ ps) last =
      write_partial (write floats d p false).1 ps last
      ∙ write-write d p (concat ps ++ last)
      ∙ ap (λ x. write floats d x true) (sym (append_assoc p (concat ps) last))

  -- The reads of a response, in chunks of `n` bytes; only the last may have fewer.
  record IsRead (n : ℕ) (d : Instrument V) (bs : List Bytes) (c : Chunk) (d' : Instrument V)
      : Type 0 where
    reads : Reads (instrument floats) n d bs c d'
    is_end : IsEnd c
    whole : concat bs ++ c.bytes ≡ d.response
    full : All (λ b. length b ≡ n) bs
    few : length bs ≤ length d.response
    left : d' ≡ record d { response = [] }

  abbrev taken : Instrument V → ℕ → Chunk
  taken d n = record {
    bytes = take n d.response;
    end = length (drop n d.response) == 0;
    error = none;
  }

  abbrev rest : Instrument V → ℕ → Instrument V
  rest d n = record d { response = drop n d.response }

  read-taken : (d : Instrument V) (n : ℕ) → 0 < length d.response → read d n ≡ (taken d n, rest d n)
  unfolding read
  read-taken d n some_left = ground arith

  empty : (xs : Bytes) → length xs ≡ 0 → xs ≡ []
  empty [] e = refl
  empty (x ∷ xs) e = absurd (omega arith)

  last-IsRead :
      (n : ℕ) (d : Instrument V)
      → 0 < length d.response
      → length (drop n d.response) ≡ 0
      → IsRead n d [] (taken d n) (rest d n)
  unfolding instrument
  last-IsRead n d some_left last = record {
    reads = read-taken d n some_left;
    is_end = ground arith;
    whole =
        sym (append-nil (take n d.response))
        ∙ ap (λ xs. take n d.response ++ xs) (sym (empty (drop n d.response) last))
        ∙ take-append-drop n d.response;
    full = tt;
    few = omega arith;
    left = ap (λ xs. record d { response = xs }) (empty (drop n d.response) last);
  }

  more-IsRead :
      (n : ℕ) (d : Instrument V) (bs : List Bytes) (c : Chunk) (d' : Instrument V)
      → 0 < n
      → 0 < length (drop n d.response)
      → IsRead n (rest d n) bs c d'
      → IsRead n d (take n d.response ∷ bs) c d'
  unfolding instrument
  more-IsRead n d bs c d' pos more v = record {
    reads = (
      rest d n,
      read-taken d n (ground (arith, length-drop n d.response)) ∙ ground arith,
      v.reads,
    );
    is_end = v.is_end;
    whole =
        append_assoc (take n d.response) (concat bs) c.bytes
        ∙ ap (λ xs. take n d.response ++ xs) v.whole
        ∙ take-append-drop n d.response;
    full = (ground (arith, length-take n d.response, length-drop n d.response), v.full);
    few = let v_few = v.few in ground (arith, length-drop n d.response);
    left = v.left;
  }

  taken_all :
      (k n : ℕ) (d : Instrument V)
      → 0 < n
      → length d.response ≤ k
      → 0 < length d.response
      → (bs : List Bytes) × (c : Chunk) × (d' : Instrument V) × IsRead n d bs c d'
  taken_all zero n d pos h some_left = absurd (omega arith)
  taken_all (suc k) n d pos h some_left = elim (Bool-cases (length (drop n d.response) == 0)) [
    | inl last ↦ ([], taken d n, rest d n, last-IsRead n d some_left ((==_iff _ _).0 last))
    | inr more ↦
        let left : 0 < length (drop n d.response) = ground (arith, more) in
        let (bs, c, d', v) =
          taken_all k n (rest d n) pos (omega (arith, length-drop n d.response)) left in
        (take n d.response ∷ bs, c, d', more-IsRead n d bs c d' pos left v)
  ]

  -- A query that was read and accepted, on a ready session with both writers that may take input and has
  -- no input queued, whose synchronous connection takes every write and whose limits are not zero; with
  -- the simulated instrument behind the server, which executes the message with a response to give; and
  -- more fuel than the response has bytes: the handler succeeds, and the client gets Data messages and a
  -- DataEnd whose payloads, put together, are the response. All payloads but the last have the size of
  -- the response buffer. The instrument is left as the message made it, with no response.
  pub simulated_query :
      (cfg : Config) (msg : Message) (w a : Writer) (fuel : ℕ) (s : State (Instrument V))
      → msg.error ≡ none
      → s.sess.state ≡ state_ready
      → IsAccepted s.sess msg.header channel_synchronous
      → msg.header.type ≡ MessageType.data_end
      → TakesInput s.sess.tx.state
      → (program_disposition (feed_program_message s.sess msg.payload)).0 ≡ response_expected
      → IsOpen on_sync channel_synchronous w s
      → s.sess.async_w ≡ some a
      → 0 < cfg.max_tx_payload
      → 0 < s.sess.max_tx
      → let d = (write floats s.dev msg.payload true).1 in
        0 < length d.response
        → length d.response < fuel
        → let r = response_to cfg msg.header s.sess in
          (t : State (Instrument V)) × (bs : List Bytes) × (final : Bytes) × (handle_sync
              (instrument floats)
              cfg
              msg
              fuel
              false
              s
            ≡ (some (ok tt), t))
          × IsDelivered r w.conn bs final t.dev s.conns t
          × (concat bs ++ final ≡ d.response)
          × All (λ b. length b ≡ r.scratch) bs
          × (t.dev ≡ record d { response = [] })
  unfolding instrument write
  simulated_query cfg msg w a fuel s n r acc t i q o aw pos lim some_left fl =
      let d = (write floats s.dev msg.payload true).1 in
      let fit = scratch_fits cfg.max_tx_payload s.sess.max_tx pos lim in
      let (bs, c, d', v) =
        taken_all (length d.response) (response_to cfg msg.header s.sess).scratch d fit.0
          (omega arith) some_left in
      let (u, run, del, op) =
        handle_sync-query (instrument floats) cfg msg w a fuel s bs c d' n r acc t i refl q v.reads
          (let few = v.few in omega arith) v.is_end o aw pos lim in
      (
        u,
        bs,
        c.bytes,
        run,
        record {
          dev = refl;
          written = del.written;
          others = del.others;
          tx = del.tx;
          rmt_expected = del.rmt_expected;
          last_tx = del.last_tx;
        },
        v.whole,
        v.full,
        del.dev ∙ v.left,
      )
