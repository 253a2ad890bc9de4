-- ===== src/Server/Data/Prefix.antt =====
-- The loop of SendResponse up to the chunk that decides how the response ends.
use hislip.Prelude.{
  ℕ, zero, suc, ◌+◌, ◌<◌, ◌≡◌, refl, ap, ◌∙◌, sym, subst, false, List, [], ◌∷◌, ◌++◌, Bytes, length,
  ◌==◌, append-nil, arith,
}
use hislip.Protocol.MessageType.{channel_synchronous}
use hislip.Server.Session.{Writer}
use hislip.Server.Device.{Device, Chunk}
use hislip.Server.State.{State, on_sync}
use hislip.Server.State.Sends.{IsOpen}
use hislip.Server.Data.{Response, Attempt, after_chunk, send_chunk, send_loop}
use hislip.Server.Data.Responds.{
  wire, chunk_writer, conn-chunk_writer, chunked-IsOpen, chunked-wire, chunked-rest,
}
use hislip.Server.Data.Chunks.{CanSend, Reads, chunked, send_chunk-chunked, loop-step}

-- The bytes of the chunks.
abbrev pub total : List Bytes → ℕ
total [] = 0
total (b ∷ bs) = length b + total bs

module _ {D : Type 0} where
  -- The session in front of the chunk that ends the reads: the chunks before are on the wire of
  -- connection `k`, and the response goes on.
  pub record IsUnderWay (k : ℕ) (r : Response) (bs : List Bytes) (w : Writer) (s u : State D)
      : Type 0 where
    pub is_open : IsOpen on_sync channel_synchronous w u
    pub can_send : CanSend u.sess.tx.state
    pub conn : w.conn ≡ k
    pub written : (u.conns k).written ≡ (s.conns k).written ++ wire r.message_id bs
    pub others : (j : ℕ) → (k == j) ≡ false → u.conns j ≡ s.conns j
    pub async_w : u.sess.async_w ≡ s.sess.async_w
    pub rmt : u.sess.rmt ≡ s.sess.rmt
    pub id : u.sess.tx.id ≡ s.sess.tx.id

  -- One more chunk in front; the read has changed the instrument.
  IsUnderWay-chunked :
      (k : ℕ) (r : Response) (w w' : Writer) (b : Bytes) (bs : List Bytes) (d1 : D) (s u : State D)
      → w.conn ≡ k
      → IsUnderWay k r bs w' (chunked r w b (record s { dev = d1 })) u
      → IsUnderWay k r (b ∷ bs) w' s u
  IsUnderWay-chunked k r w w' b bs d1 s u kc v =
      let s' = record s { dev = d1 } in
      record {
        is_open = v.is_open;
        can_send = v.can_send;
        conn = v.conn;
        written =
            v.written
            ∙ subst
                (λ j.
                  ((chunked r w b s').conns j).written ++ wire r.message_id bs
                  ≡ (s.conns j).written ++ wire r.message_id (b ∷ bs))
                kc (chunked-wire r w b bs s');
        others = λ j ne. v.others j ne ∙ (chunked-rest r w b s').1 j (ground arith);
        async_w = v.async_w ∙ ground arith;
        rmt = v.rmt ∙ ground arith;
        id = v.id ∙ ground arith;
      }

  -- The loop reads the chunks before the last one.
  pub loop-prefix :
      (dev : Device D) (r : Response) (w : Writer) (fuel delivered k : ℕ) (s : State D) (d : D)
      (bs : List Bytes) (c : Chunk) (d' : D)
      → s.dev ≡ d
      → w.conn ≡ k
      → Reads dev r.scratch d bs c d'
      → length bs < fuel
      → IsOpen on_sync channel_synchronous w s
      → CanSend s.sess.tx.state
      → (u : State D) × (w' : Writer) × (again : ℕ → State D → Attempt D) × (send_loop dev r fuel
            delivered s
          ≡ send_chunk r c
              (delivered + total bs)
              (record u { dev = d' })
              (after_chunk c.error c.end r c.bytes again))
        × IsUnderWay k r bs w' s u
  loop-prefix dev r w zero delivered k s d bs c d' a kc e h o p = absurd (omega arith)
  loop-prefix dev r w (suc fuel) delivered k s d [] c d' a kc e h o p = (
    s,
    w,
    (λ n t. send_loop dev r fuel n t),
    loop-step dev r fuel delivered s c d' (ap (λ x. dev.read x r.scratch) a ∙ e)
        ∙ ap
            (λ n.
              send_chunk r c n (record s { dev = d' })
                (after_chunk c.error c.end r c.bytes (λ n t. send_loop dev r fuel n t)))
            (omega arith),
    record {
      is_open = o;
      can_send = p;
      conn = kc;
      written = sym (append-nil (s.conns k).written);
      others = λ j ne. refl;
      async_w = refl;
      rmt = refl;
      id = refl;
    },
  )
  loop-prefix dev r w (suc fuel) delivered k s d (b ∷ bs) c d' a kc (d1, e, es) h o p =
      let s' = record s { dev = d1 } in
      let open' = chunked-IsOpen r w b s' (ground arith) p in
      let (u, w', again, run, v) =
        loop-prefix dev r (chunk_writer w b) fuel (delivered + length b) k (chunked r w b s') d1 bs
          c d' (chunked-rest r w b s').0 (conn-chunk_writer w b ∙ kc) es (omega arith) open'.0
          open'.1 in
      (
        u,
        w',
        again,
        loop-step dev r fuel delivered s _ d1 (ap (λ x. dev.read x r.scratch) a ∙ e)
            ∙ send_chunk-chunked r w b delivered s' _ (ground arith) p
            ∙ run
            ∙ ap
                (λ n.
                  send_chunk r c n (record u { dev = d' })
                    (after_chunk c.error c.end r c.bytes again))
                (omega arith),
        IsUnderWay-chunked k r w w' b bs d1 s u kc v,
      )
