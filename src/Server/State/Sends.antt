-- ===== src/Server/State/Sends.antt =====
-- What a message sent through a session's writer leaves behind.
use hislip.Prelude.{◌+◌, ◌%◌, ◌^◌, ◌≡◌, ◌⊎◌, true, false, some, [], ◌++◌, Bytes, length, arith}
use hislip.Errors.{ok, err, err_wrong_channel}
use hislip.Protocol.MessageType.{Channel, legal_on}
use hislip.Protocol.Header.{Header, header_size}
use hislip.Protocol.Stream.{Stream}
use hislip.Protocol.Codec.Framing.{message_bytes, write_message-written}
use hislip.Server.Session.{Writer}
use hislip.Server.State.{
  State, update, writer_write, Side, on_sync, on_async, writer_of, with_writer, send,
}

-- A stream that has taken one more message.
abbrev pub grown : Stream → Header → Bytes → Stream
grown s h payload = record s { written = s.written ++ message_bytes h payload; outcomes = [] }

module _ {D : Type 0} where
  -- The state behind a message that was sent through writer `w`.
  abbrev pub sent : Side → Writer → Header → Bytes → State D → State D
  sent side w h payload s = record s {
    conns = update s.conns w.conn (grown (s.conns w.conn) h payload);
    sess =
        with_writer side s.sess
          (record w { written = (w.written + header_size + length payload) % 2 ^ 64 });
  }

  -- A writer of one side whose connection takes every write, and whose channel is `channel`.
  pub record IsOpen (side : Side) (channel : Channel) (w : Writer) (s : State D) : Type 0 where
    pub installed : writer_of side s.sess ≡ some w
    pub on_channel : w.channel ≡ channel
    pub takes_all : (s.conns w.conn).outcomes ≡ []

  pub send-sent :
      (side : Side) (channel : Channel) (w : Writer) (h : Header) (payload : Bytes) (s : State D)
      → IsOpen side channel w s
      → legal_on h.type channel ≡ true
      → (h.length ≡ 0) ⊎ (h.length ≡ length payload)
      → send side h payload s ≡ (ok tt, sent side w h payload s)
  unfolding send writer_write
  send-sent on_sync channel w h payload s o legal fits =
      ground (arith, write_message-written (s.conns w.conn) h payload o.takes_all fits)
  send-sent on_async channel w h payload s o legal fits =
      ground (arith, write_message-written (s.conns w.conn) h payload o.takes_all fits)

  -- A message that is not legal on the writer's channel is refused, and nothing changes.
  pub send_wrong_channel :
      (side : Side) (w : Writer) (h : Header) (payload : Bytes) (s : State D)
      → writer_of side s.sess ≡ some w
      → legal_on h.type w.channel ≡ false
      → send side h payload s ≡ (err err_wrong_channel, s)
  unfolding send writer_write
  send_wrong_channel on_sync w h payload s i illegal = ground arith
  send_wrong_channel on_async w h payload s i illegal = ground arith
