-- ===== src/Server/Lifetimes/Writes.antt =====
-- What writes and closes leave of the connections of a server.
use hislip.Prelude.{
  ℕ, ◌≡◌, refl, ◌∙◌, inl, inr, Bool, true, false, Option, none, some, [], ◌∷◌, Bytes, length, not,
  ◌==◌, Bool-cases, if◌then◌else◌, arith,
}
use hislip.Errors.{Error, err_wrong_channel}
use hislip.Protocol.MessageType.{legal_on, channel_synchronous}
use hislip.Protocol.Header.{Header, header_bytes}
use hislip.Protocol.Stream.{Stream, close, write}
use hislip.Protocol.Codec.{write_header, write_message, write_rest}
use hislip.Server.Session.{Writer, new_writer}
use hislip.Server.State.{update, writer_write, written_more}
use hislip.Server.Registry.{Registry}
use hislip.Server.Registry.Owners.{Accounted, Due}
use hislip.Server.Channels.{Serving, refuse}
use hislip.Server.Channels.Initializes.{refusal}

closed-write : (s : Stream) (p : Bytes) → (write s p).1.closed ≡ s.closed
unfolding write
closed-write s p = ground arith

closed-write_rest : (p : Bytes) (r : Option Error × Stream) → (write_rest p r).1.closed ≡ r.1.closed
closed-write_rest p (some e, s) = refl
closed-write_rest [] (none, s) = refl
closed-write_rest (x ∷ xs) (none, s) = closed-write s (x ∷ xs)

closed-write_message :
    (s : Stream) (h : Header) (p : Bytes) → (write_message s h p).1.closed ≡ s.closed
unfolding write_message
closed-write_message s h p =
    let h' = record h { length = length p } in
    ground (arith, closed-write_rest p (write_header s h') ∙ closed-write s (header_bytes h'))

closed-written_more :
    (r : Option Error × Stream) (conns : ℕ → Stream) (w : Writer) (p : Bytes) (k : ℕ)
    → r.1.closed ≡ (conns w.conn).closed
    → ((written_more r conns w p).1 k).closed ≡ (conns k).closed
closed-written_more (some e, s) conns w p k c = ground (arith)
closed-written_more (none, s) conns w p k c = ground (arith)

closed-guarded :
    (illegal : Bool) (r : Option Error × Stream) (conns : ℕ → Stream) (w : Writer) (p : Bytes)
    (k : ℕ)
    → r.1.closed ≡ (conns w.conn).closed
    → ((if illegal then (some err_wrong_channel, conns, w) else written_more r conns w p).1
        k).closed
      ≡ (conns k).closed
closed-guarded true r conns w p k c = refl
closed-guarded false r conns w p k c = closed-written_more r conns w p k c

-- Writing closes nothing and opens nothing.
pub closed-writer_write :
    (conns : ℕ → Stream) (w : Writer) (h : Header) (p : Bytes) (k : ℕ)
    → ((writer_write conns w h p).1 k).closed ≡ (conns k).closed
unfolding writer_write
closed-writer_write conns w h p k =
    closed-guarded (not (legal_on h.type w.channel)) (write_message (conns w.conn) h p) conns w p k
      (closed-write_message (conns w.conn) h p)

-- A read of the connection that is being set up.
pub Due-update :
    (stream k : ℕ) (s : Stream) (g : Registry)
    → Due stream k g
    → Due stream k (record g { conns = update g.conns stream s })
Due-update stream k s g (inl here) = inl here
Due-update stream k s g (inr a) = elim (Bool-cases (stream == k)) [
  | inl here ↦ inl here
  | inr other ↦ inr (ground arith)
]

-- Writes to any connections.
pub Accounted-conns :
    (k : ℕ) (conns : ℕ → Stream) (g : Registry)
    → (conns k).closed ≡ (g.conns k).closed
    → Accounted k g
    → Accounted k (record g { conns = conns })
Accounted-conns k conns g same (inl c) = inl (same ∙ c)
Accounted-conns k conns g same (inr o) = inr o

closing-Accounted :
    (stream k : ℕ) (conns : ℕ → Stream) (g : Registry)
    → (conns k).closed ≡ (g.conns k).closed
    → Due stream k g
    → Accounted k (record g { conns = update conns stream (close (conns stream)).1 })
unfolding close
closing-Accounted stream k conns g same d = ground arith

pub refuse-Accounted :
    (stream k code : ℕ) (description : Bytes) (g : Serving)
    → Due stream k g.reg
    → Accounted k (refuse stream code description g).reg
unfolding refuse
refuse-Accounted stream k code description g d =
    let w = new_writer stream channel_synchronous in
    closing-Accounted stream k (writer_write g.reg.conns w (refusal code) description).1 g.reg
      (closed-writer_write g.reg.conns w (refusal code) description k) d
