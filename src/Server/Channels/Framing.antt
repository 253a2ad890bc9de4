-- ===== src/Server/Channels/Framing.antt =====
-- What goes out on the two connections of a session over time.
use hislip.Prelude.{
  ℕ, ◌≡◌, ◌≢◌, refl, ap, sym, ◌∙◌, subst, ◌⊎◌, inl, inr, true, false, some, [], ◌++◌, Bytes, length,
  ◌==◌, ==_iff, ==-self, Bool-cases, arith, if-true, if-false,
}
use hislip.Protocol.MessageType.{Channel, channel_synchronous, channel_asynchronous, legal_on}
use hislip.Protocol.Header.{Header}
use hislip.Protocol.Stream.{Stream}
use hislip.Protocol.Codec.Framing.{message_bytes, write_message_refused}
use hislip.Server.Session.{Session, Writer}
use hislip.Errors.{Result, err, err_payload_length}
use hislip.Server.State.{
  State, update, Side, on_sync, on_async, writer_of, with_writer, send, writer_write,
}
use hislip.Server.State.Sends.{sent, send-sent, send_wrong_channel, grown}
use hislip.Server.State.Keeps.{IsStable}

-- Whole messages, one after the other, each legal on the channel.
pub data IsWire (channel : Channel) : Bytes → Type 0 where
  nothing : IsWire channel []
  message :
      {bytes : Bytes} (h : Header) (payload : Bytes)
      → IsWire channel bytes
      → legal_on h.type channel ≡ true
      → IsWire channel (bytes ++ message_bytes h payload)

abbrev opposite : Side → Side
opposite on_sync = on_async
opposite on_async = on_sync

with_writer_self :
    (side : Side) (w : Writer) (x : Session) → writer_of side x ≡ some w → with_writer side x w ≡ x
with_writer_self on_sync w x i = ap (λ v. record x { sync_w = v }) (sym i)
with_writer_self on_async w x i = ap (λ v. record x { async_w = v }) (sym i)

update_self : (f : ℕ → Stream) (k j : ℕ) → update f k (f k) j ≡ f j
update_self f k j = elim (Bool-cases (k == j)) [
  | inl e ↦ if-true (k == j) (f k) (f j) e ∙ ap f ((==_iff k j).0 e)
  | inr e ↦ if-false (k == j) (f k) (f j) e
]

fits_or_not : (n m : ℕ) → ((n ≡ 0) ⊎ (n ≡ m)) ⊎ ((n ≢ 0) × (n ≢ m))
fits_or_not n m = ground arith

module _ {D : Type 0} where
  -- A side of a session: its writer, and what its connection has taken.
  pub record IsSide (side : Side) (channel : Channel) (k : ℕ) (s : State D) : Type 0 where
    pub writer : Writer
    pub installed : writer_of side s.sess ≡ some writer
    pub conn : writer.conn ≡ k
    pub on_channel : writer.channel ≡ channel
    pub takes_all : (s.conns k).outcomes ≡ []
    pub wire : IsWire channel (s.conns k).written

  -- Connection `k` is the session's synchronous one, `l` its asynchronous one; the others are those of `f`.
  pub record IsFramed (k l : ℕ) (f : ℕ → Stream) (s : State D) : Type 0 where
    pub sync : IsSide on_sync channel_synchronous k s
    pub async : IsSide on_async channel_asynchronous l s
    pub others : (j : ℕ) → (k == j) ≡ false → (l == j) ≡ false → s.conns j ≡ f j

  IsSide-quiet :
      (side : Side) (channel : Channel) (k : ℕ) (s t : State D)
      → t.conns k ≡ s.conns k
      → writer_of side t.sess ≡ writer_of side s.sess
      → IsSide side channel k s
      → IsSide side channel k t
  IsSide-quiet side channel k s t c w o = record {
    writer = o.writer;
    installed = w ∙ o.installed;
    conn = o.conn;
    on_channel = o.on_channel;
    takes_all = ap (λ (x : Stream). x.outcomes) c ∙ o.takes_all;
    wire = subst (λ (x : Stream). IsWire channel x.written) (sym c) o.wire;
  }

  -- What a send through the writer of one side does: its stream takes the message whole, or nothing.
  record IsSent (side : Side) (channel : Channel) (k : ℕ) (s t : State D) : Type 0 where
    writer : Writer
    installed : writer_of side t.sess ≡ some writer
    conn : writer.conn ≡ k
    on_channel : writer.channel ≡ channel
    took :
        (t.conns k ≡ s.conns k)
        ⊎ ((h : Header) × (payload : Bytes) × (legal_on h.type channel ≡ true)
            × (t.conns k ≡ grown (s.conns k) h payload))
    beside : (j : ℕ) → (k == j) ≡ false → t.conns j ≡ s.conns j
    other_side : writer_of (opposite side) t.sess ≡ writer_of (opposite side) s.sess

  -- A message that is refused.
  refused-IsSent :
      (side : Side) (channel : Channel) (k : ℕ) (s t : State D)
      → IsSide side channel k s
      → ((j : ℕ) → t.conns j ≡ s.conns j)
      → t.sess ≡ s.sess
      → IsSent side channel k s t
  refused-IsSent side channel k s t o same e = record {
    writer = o.writer;
    installed = ap (writer_of side) e ∙ o.installed;
    conn = o.conn;
    on_channel = o.on_channel;
    took = inl (same k);
    beside = λ j ne. same j;
    other_side = ap (writer_of (opposite side)) e;
  }

  sent-IsSent :
      (side : Side) (channel : Channel) (k : ℕ) (h : Header) (payload : Bytes) (s : State D)
      (o : IsSide side channel k s)
      → legal_on h.type channel ≡ true
      → IsSent side channel k s (sent side o.writer h payload s)
  sent-IsSent on_sync channel k h payload s o legal = record {
    writer = _;
    installed = refl;
    conn = o.conn;
    on_channel = o.on_channel;
    took = inr (h, payload, legal, ground (arith, o.conn, ==-self k));
    beside = λ j ne. ground (arith, o.conn);
    other_side = refl;
  }
  sent-IsSent on_async channel k h payload s o legal = record {
    writer = _;
    installed = refl;
    conn = o.conn;
    on_channel = o.on_channel;
    took = inr (h, payload, legal, ground (arith, o.conn, ==-self k));
    beside = λ j ne. ground (arith, o.conn);
    other_side = refl;
  }

  -- The state behind a message whose Length is set, and is not the payload's.
  abbrev unsent : Side → Writer → State D → State D
  unsent side w s = record s {
    conns = update s.conns w.conn (s.conns w.conn);
    sess = with_writer side s.sess w;
  }

  send-unsent :
      (side : Side) (w : Writer) (h : Header) (payload : Bytes) (s : State D)
      → writer_of side s.sess ≡ some w
      → legal_on h.type w.channel ≡ true
      → h.length ≢ 0
      → h.length ≢ length payload
      → send side h payload s ≡ (err err_payload_length, unsent side w s)
  unfolding send writer_write
  send-unsent on_sync w h payload s i legal set wrong =
      ground (arith, write_message_refused (s.conns w.conn) h payload set wrong)
  send-unsent on_async w h payload s i legal set wrong =
      ground (arith, write_message_refused (s.conns w.conn) h payload set wrong)

  send-IsSent :
      (side : Side) (channel : Channel) (k : ℕ) (h : Header) (payload : Bytes) (s : State D)
      → IsSide side channel k s
      → IsSent side channel k s (send side h payload s).1
  send-IsSent side channel k h payload s o = elim (Bool-cases (legal_on h.type channel)) [
    | inr illegal ↦
        refused-IsSent side channel k s _ o
          (λ j.
            ap (λ (r : Result (Unit {0}) × State D). r.1.conns j)
              (send_wrong_channel side o.writer h payload s o.installed
                (ap (legal_on h.type) o.on_channel ∙ illegal)))
          (ap (λ (r : Result (Unit {0}) × State D). r.1.sess)
            (send_wrong_channel side o.writer h payload s o.installed
              (ap (legal_on h.type) o.on_channel ∙ illegal)))
    | inl legal ↦ elim (fits_or_not h.length (length payload)) [
      | inl fits ↦
          subst (λ (r : Result (Unit {0}) × State D). IsSent side channel k s r.1)
            (sym (
              send-sent side channel o.writer h payload s
                (record {
                  installed = o.installed;
                  on_channel = o.on_channel;
                  takes_all = ap (λ c. (s.conns c).outcomes) o.conn ∙ o.takes_all;
                })
                legal fits))
            (sent-IsSent side channel k h payload s o legal)
      | inr (set, wrong) ↦
          subst (λ (r : Result (Unit {0}) × State D). IsSent side channel k s r.1)
            (sym (
              send-unsent side o.writer h payload s o.installed
                (ap (legal_on h.type) o.on_channel ∙ legal) set wrong))
            (refused-IsSent side channel k s (unsent side o.writer s) o
              (update_self s.conns o.writer.conn)
              (with_writer_self side o.writer s.sess o.installed))
    ]
  ]

  IsSide-sent :
      (side : Side) (channel : Channel) (k : ℕ) (s t : State D)
      → IsSide side channel k s
      → IsSent side channel k s t
      → IsSide side channel k t
  IsSide-sent side channel k s t o v = elim v.took [
    | inl same ↦ record {
      writer = v.writer;
      installed = v.installed;
      conn = v.conn;
      on_channel = v.on_channel;
      takes_all = ap (λ (x : Stream). x.outcomes) same ∙ o.takes_all;
      wire = subst (λ (x : Stream). IsWire channel x.written) (sym same) o.wire;
    }
    | inr (h, payload, legal, more) ↦ record {
      writer = v.writer;
      installed = v.installed;
      conn = v.conn;
      on_channel = v.on_channel;
      takes_all = ap (λ (x : Stream). x.outcomes) more;
      wire =
          subst (λ (x : Stream). IsWire channel x.written) (sym more)
            (message h payload o.wire legal);
    }
  ]

  IsFramed-send :
      (k l : ℕ) (f : ℕ → Stream) (side : Side) (h : Header) (payload : Bytes) (s : State D)
      → (k == l) ≡ false
      → IsFramed k l f s
      → IsFramed k l f (send side h payload s).1
  IsFramed-send k l f on_sync h payload s apart o =
      let t = (send on_sync h payload s).1 in
      let v = send-IsSent on_sync channel_synchronous k h payload s o.sync in
      record {
        sync = IsSide-sent on_sync channel_synchronous k s t o.sync v;
        async =
            IsSide-quiet on_async channel_asynchronous l s t (v.beside l apart) v.other_side
              o.async;
        others = λ j nk nl. v.beside j nk ∙ o.others j nk nl;
      }
  IsFramed-send k l f on_async h payload s apart o =
      let t = (send on_async h payload s).1 in
      let v = send-IsSent on_async channel_asynchronous l h payload s o.async in
      record {
        sync =
            IsSide-quiet on_sync channel_synchronous k s t (v.beside k (ground (arith, apart)))
              v.other_side o.sync;
        async = IsSide-sent on_async channel_asynchronous l s t o.async v;
        others = λ j nk nl. v.beside j nl ∙ o.others j nk nl;
      }

  pub IsFramed-IsStable : (k l : ℕ) (f : ℕ → Stream) → (k == l) ≡ false → IsStable (IsFramed k l f)
  IsFramed-IsStable k l f apart = record {
    quiet = λ s t q o. record {
      sync = IsSide-quiet on_sync channel_synchronous k s t (ap (λ c. c k) q.conns) q.sync_w o.sync;
      async =
          IsSide-quiet on_async channel_asynchronous l s t (ap (λ c. c l) q.conns) q.async_w
            o.async;
      others = λ j nk nl. ap (λ c. c j) q.conns ∙ o.others j nk nl;
    };
    sends = λ side h payload s o. IsFramed-send k l f side h payload s apart o;
  }
