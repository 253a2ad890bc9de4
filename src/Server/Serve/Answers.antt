-- ===== src/Server/Serve/Answers.antt =====
-- Every request on the asynchronous channel is answered, and once.
use hislip.Prelude.{
  ℕ, ◌+◌, ◌≡◌, ◌≢◌, refl, ap, ◌∙◌, sym, inl, inr, Bool, true, false, Bytes, [], ◌++◌, ◌==◌,
  if◌then◌else◌, ==_iff, arith,
}
use hislip.Prelude.Text.{codes}
use hislip.Protocol.ErrorCode.{fatal_invalid_init_sequence, non_fatal_unrecognized_message_type}
use hislip.Errors.{Result, ok, err, err_invalid_init_sequence, err_client_fatal}
use hislip.Protocol.MessageType
use hislip.Protocol.MessageType.{channel_asynchronous, legal_on}
use hislip.Protocol.Header.{Header, no_header}
use hislip.Protocol.Header.BigEndian.{put_be, length-put_be}
use hislip.Protocol.Stream.{Stream}
use hislip.Protocol.Codec.Framing.{message_bytes}
use hislip.Server.Rmt.{rmt_queried}
use hislip.Server.Status.{take_service_request, set_response_pending}
use hislip.Server.Locks.{info}
use hislip.Server.Transaction.{clear}
use hislip.Server.Session.{Writer, require_ready, abort_operation, begin_clear}
use hislip.Server.Config.{Config}
use hislip.Server.Device.{Device, mode_valid}
use hislip.Server.State.{State, M, ◌>>=◌, ◌>>◌, fail, count, on_async, send, send_error}
use hislip.Server.State.Sends.{IsOpen, send-sent}
use hislip.Server.Reports.{ignored, one_fatal, one_non_fatal}
use hislip.Server.Async.{status_query, lock_info, remote_local, maximum_message_size}
use hislip.Server.Clear.{begin_device_clear}
use hislip.Server.Serve.{handle_async_other, reply, polled, put_uint64, decode_max_size}
use hislip.Server.Serve.Sending.{
  error_legal, fatal_legal, size_legal, sent-IsAnswered, report-IsAnswered, IsAnswered,
}
use hislip.Server.Reports.Outcomes.{error_header, fatal_header}

module _ {D : Type 0} where
  -- An operation leaves the connections and the asynchronous writer, and answers with a header that is
  -- legal on its channel.
  record Answers (s : State D) (r : Result Header × State D) : Type 0 where
    conns : r.1.conns ≡ s.conns
    writer : r.1.sess.async_w ≡ s.sess.async_w
    legal :
        (h : Header) → r.0 ≡ ok h → (legal_on h.type channel_asynchronous ≡ true) × (h.length ≡ 0)

  IsOpen-behind :
      (w : Writer) (s t : State D)
      → t.conns ≡ s.conns
      → t.sess.async_w ≡ s.sess.async_w
      → IsOpen on_async channel_asynchronous w s
      → IsOpen on_async channel_asynchronous w t
  IsOpen-behind w s t c a o = record {
    installed = a ∙ o.installed;
    on_channel = o.on_channel;
    takes_all = ap (λ (f : ℕ → Stream). (f w.conn).outcomes) c ∙ o.takes_all;
  }

  rebase : (k : ℕ) (s x t : State D) → x.conns ≡ s.conns → IsAnswered k x t → IsAnswered k s t
  rebase k s x t same v = record {
    header = v.header;
    payload = v.payload;
    written =
        v.written ∙ ap (λ (f : ℕ → Stream). (f k).written ++ message_bytes v.header v.payload) same;
    others = λ j ne. v.others j ne ∙ ap (λ (f : ℕ → Stream). f j) same;
  }

  reply-IsAnswered :
      (w : Writer) (s : State D) (r : Result Header × State D)
      → IsOpen on_async channel_asynchronous w s
      → Answers s r
      → IsAnswered w.conn s (reply r).1
  reply-IsAnswered w s (err e, t) o a =
      rebase w.conn s t _ a.conns (report-IsAnswered w e t (IsOpen-behind w s t a.conns a.writer o))
  reply-IsAnswered w s (ok h, t) o a =
      let l = a.legal h refl in
      sent-IsAnswered w h [] s t _ a.conns (
        ap (λ (x : Result (Unit {0}) × State D). x.1)
          (send-sent on_async channel_asynchronous w h [] t (IsOpen-behind w s t a.conns a.writer o)
            l.0 (inl l.1)))

  clear-Answers : (cfg : Config) (s : State D) → Answers s (begin_device_clear cfg s)
  unfolding begin_device_clear require_ready abort_operation set_response_pending clear begin_clear
      legal_on
  clear-Answers cfg s = record {
    conns = ground arith;
    writer = ground arith;
    legal = λ h e. ground arith;
  }

  status-Answers :
      (dev : Device D) (h : Header) (s : State D) → Answers s (polled (status_query dev h s))
  unfolding status_query require_ready rmt_queried take_service_request legal_on
  status-Answers dev h s = record {
    conns = ground arith;
    writer = ground arith;
    legal = λ x e. ground arith;
  }

  info-Answers : (h : Header) (s : State D) → Answers s (lock_info h s)
  unfolding lock_info require_ready info legal_on
  info-Answers h s = record {
    conns = ground arith;
    writer = ground arith;
    legal = λ x e. ground arith;
  }

  mode-Answers : (dev : Device D) (h : Header) (s : State D) → Answers s (remote_local dev h s)
  unfolding remote_local require_ready mode_valid legal_on
  mode-Answers dev h s = record {
    conns = ground arith;
    writer = ground arith;
    legal = λ x e. ground arith;
  }

  size-IsAnswered :
      (cfg : Config) (w : Writer) (client_max : ℕ) (s : State D)
      → IsOpen on_async channel_asynchronous w s
      → IsAnswered w.conn s
          ((maximum_message_size cfg client_max >>= (λ r. send on_async r.0 (put_uint64 r.1))) s).1
  unfolding maximum_message_size put_uint64
  size-IsAnswered cfg w client_max s o =
      let t = (maximum_message_size cfg client_max s).1 in
      let h = record no_header {
        type = MessageType.async_maximum_message_size_response;
        length = 8;
      } in
      sent-IsAnswered w h (put_be 8 cfg.max_rx_payload) s t _ (ground arith) (
        ap (λ (x : Result (Unit {0}) × State D). x.1)
          (send-sent on_async channel_asynchronous w h (put_be 8 cfg.max_rx_payload) t
            (IsOpen-behind w s t (ground arith) (ground arith) o) size_legal
            (inr (sym (length-put_be 8 cfg.max_rx_payload)))))

  -- Counting leaves the connections and the writers.
  abbrev one_more : State D → State D
  one_more s = record s {
    counters = record (s.counters) { non_fatal_errors = s.counters.non_fatal_errors + 1 };
  }

  unsupported-IsAnswered :
      (w : Writer) (code : ℕ) (description : Bytes) (s : State D)
      → IsOpen on_async channel_asynchronous w s
      → IsAnswered w.conn s (send_error on_async code description (one_more s)).1
  unfolding send_error
  unsupported-IsAnswered w code description s o =
      sent-IsAnswered w (error_header code) description s (one_more s) _ refl (
        ap (λ (x : Result (Unit {0}) × State D). x.1)
          (send-sent on_async channel_asynchronous w (error_header code) description (one_more s)
            (IsOpen-behind w s (one_more s) refl refl o) error_legal (inl refl)))

  again-IsAnswered :
      (w : Writer) (code : ℕ) (s : State D)
      → IsOpen on_async channel_asynchronous w s
      → IsAnswered w.conn s (send on_async (fatal_header code) [] s).1
  again-IsAnswered w code s o = sent-IsAnswered w (fatal_header code) [] s s _ refl (
      ap (λ (x : Result (Unit {0}) × State D). x.1)
        (send-sent on_async channel_asynchronous w (fatal_header code) [] s o fatal_legal
          (inl refl)))

  -- Either branch of a switch.
  Branches : ℕ → State D → Bool → M D (Unit {0}) → M D (Unit {0}) → Type 0
  Branches k s b m n = (b ≡ true → IsAnswered k s (m s).1) × (b ≡ false → IsAnswered k s (n s).1)

  by_test :
      (k : ℕ) (s : State D) (b : Bool) (m n : M D (Unit {0}))
      → Branches k s b m n
      → IsAnswered k s ((if b then m else n) s).1
  unfolding Branches
  by_test k s true m n a = a.0 refl
  by_test k s false m n a = a.1 refl

  -- The switch of the asynchronous handler, for a message that was accepted and is neither an AsyncLock,
  -- which is handled apart, nor a FatalError or an Error of the client: on an asynchronous connection
  -- that takes every write exactly one message goes out, whether the operation succeeds, is refused, is
  -- not known, or the instrument fails; and nothing goes out on any other connection.
  pub handle_async_other-IsAnswered :
      (dev : Device D) (cfg : Config) (h : Header) (payload : Bytes) (w : Writer) (s : State D)
      → IsOpen on_async channel_asynchronous w s
      → h.type ≢ MessageType.fatal_error
      → h.type ≢ MessageType.error
      → IsAnswered w.conn s (handle_async_other dev cfg h payload s).1
  unfolding handle_async_other Branches
  handle_async_other-IsAnswered dev cfg h payload w s o nf ne =
      by_test w.conn s (h.type == MessageType.async_device_clear)
        (λ x. reply (begin_device_clear cfg x)) _
        (
          λ a. reply-IsAnswered w s _ o (clear-Answers cfg s),
          λ a.
              by_test w.conn s (h.type == MessageType.async_status_query)
                (λ x. reply (polled (status_query dev h x))) _
                (
                  λ b. reply-IsAnswered w s _ o (status-Answers dev h s),
                  λ b.
                      by_test w.conn s (h.type == MessageType.async_lock_info)
                        (λ x. reply (lock_info h x)) _
                        (
                          λ c. reply-IsAnswered w s _ o (info-Answers h s),
                          λ c.
                              by_test w.conn s (h.type == MessageType.async_remote_local_control)
                                (λ x. reply (remote_local dev h x)) _
                                (
                                  λ d. reply-IsAnswered w s _ o (mode-Answers dev h s),
                                  λ d.
                                      by_test w.conn s
                                        (h.type == MessageType.async_maximum_message_size)
                                        (maximum_message_size cfg (decode_max_size payload)
                                          >>= (λ r. send on_async r.0 (put_uint64 r.1)))
                                        _
                                        (
                                          λ e. size-IsAnswered cfg w (decode_max_size payload) s o,
                                          λ e.
                                              by_test w.conn s
                                                (h.type == MessageType.async_initialize)
                                                (ignored (
                                                    send on_async
                                                      (fatal_header fatal_invalid_init_sequence) [])
                                                  >> fail err_invalid_init_sequence)
                                                _
                                                (
                                                  λ f.
                                                      again-IsAnswered w fatal_invalid_init_sequence
                                                        s o,
                                                  λ f.
                                                      by_test w.conn s
                                                        (h.type == MessageType.fatal_error)
                                                        (count one_fatal >> fail err_client_fatal) _
                                                        (
                                                          λ g. absurd (nf ((==_iff _ _).0 g)),
                                                          λ g.
                                                            by_test w.conn s
                                                            (h.type == MessageType.error)
                                                            (count one_non_fatal) _
                                                            (
                                                            λ i. absurd (ne ((==_iff _ _).0 i)),
                                                            λ i.
                                                            unsupported-IsAnswered w
                                                            non_fatal_unrecognized_message_type
                                                            (codes "unsupported message") s o,
                                                            ),
                                                        ),
                                                ),
                                        ),
                                ),
                        ),
                ),
        )
