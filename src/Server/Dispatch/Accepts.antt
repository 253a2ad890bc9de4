-- ===== src/Server/Dispatch/Accepts.antt =====
-- Which messages a session accepts, and with what class.
use hislip.Prelude.{
  ℕ, ◌≤◌, ◌<◌, ◌≡◌, refl, ◌⊎◌, ◌↔◌, Bool, true, false, not, ◌&&◌, ◌||◌, some, all_below,
  all_below_sound, if◌then◌else◌, arith,
}
use hislip.Errors.{
  Result, ok, err, err_reserved_message_type, err_unknown_message_type, err_wrong_channel,
  err_protocol_version,
}
use hislip.Protocol.Version.{less}
use hislip.Protocol.MessageType.{
  Channel, channel_synchronous, reserved, defined, vendor_specific, legal_on, min_version_of,
}
use hislip.Protocol.Header.{Header}
use hislip.Protocol.Codec.{check_length}
use hislip.Server.Session.{Session, require_ready, state_ready, state_clearing}
use hislip.Server.Config.{Config}
use hislip.Server.Dispatch.{
  Class, class_undefined, class_of, after_length, is_undefined, is_lifecycle, ready_for, accept,
  queued, preempts, ordered,
}

-- The conditions that the comment on Accept lists.
pub record IsAccepted (sess : Session) (h : Header) (channel : Channel) : Type 0 where
  pub known : defined h.type || vendor_specific h.type ≡ true
  pub not_reserved : reserved h.type ≡ false
  pub legal : legal_on h.type channel ≡ true
  pub in_version : less sess.version (min_version_of h.type) ≡ false
  pub has_class : is_undefined (class_of h.type) ≡ false
  pub fits : (sess.max_rx ≡ 0) ⊎ (h.length ≤ sess.max_rx)
  pub ready_or_lifecycle :
      (is_lifecycle (class_of h.type) ≡ true)
      ⊎ (sess.state ≡ state_ready)
      ⊎ (sess.state ≡ state_clearing)

length_iff : (n max : ℕ) → (check_length n max ≡ ok tt) ↔ ((max ≡ 0) ⊎ (n ≤ max))
unfolding check_length
length_iff n max = (λ e. ground arith, λ a. ground arith)

ready_iff :
    (class : Class) (sess : Session)
    → (ready_for class (some sess) ≡ ok tt)
      ↔ ((is_lifecycle class ≡ true) ⊎ (sess.state ≡ state_ready) ⊎ (sess.state ≡ state_clearing))
unfolding require_ready
ready_iff class sess = (λ e. ground arith, λ a. ground arith)

-- The guards of Accept, over their tests.
guards :
    (rs df vs lg old un : Bool) (class : Class) (last : Class × Result (Unit {0}))
    → (if rs
        then (class_undefined, err err_reserved_message_type)
        else if not df && not vs
        then (class_undefined, err err_unknown_message_type)
        else if not lg
        then (class_undefined, err err_wrong_channel)
        else if old
        then (class_undefined, err err_protocol_version)
        else if un
        then (class, err err_unknown_message_type)
        else last).1
      ≡ ok tt
    → (rs ≡ false)
      × (df || vs ≡ true)
      × (lg ≡ true)
      × (old ≡ false)
      × (un ≡ false)
      × (last.1 ≡ ok tt)
guards true df vs lg old un class last e = ground arith
guards false false false lg old un class last e = ground arith
guards false df vs false old un class last e = ground arith
guards false df vs true true un class last e = ground arith
guards false df vs true false true class last e = ground arith
guards false true vs true false false class last e = ground arith
guards false false true true false false class last e = ground arith

after_length_iff :
    (class : Class) (sess : Session) (r : Result (Unit {0}))
    → (after_length class (some sess) r).1 ≡ ok tt
    → (r ≡ ok tt) × (ready_for class (some sess) ≡ ok tt)
after_length_iff class sess (ok _) e = (refl, e)
after_length_iff class sess (err x) e = ground arith

-- Accept by its tests.
tests_iff :
    (cfg : Config) (sess : Session) (h : Header) (channel : Channel)
    → ((accept cfg (some sess) h channel).1 ≡ ok tt) ↔ (
        (reserved h.type ≡ false)
        × (defined h.type || vendor_specific h.type ≡ true)
        × (legal_on h.type channel ≡ true)
        × (less sess.version (min_version_of h.type) ≡ false)
        × (is_undefined (class_of h.type) ≡ false)
        × (check_length h.length sess.max_rx ≡ ok tt)
        × (ready_for (class_of h.type) (some sess) ≡ ok tt))
unfolding accept
tests_iff cfg sess h channel = (
  λ e.
      let class = class_of h.type in
      let len = check_length h.length sess.max_rx in
      let a =
        guards (reserved h.type) (defined h.type) (vendor_specific h.type) (legal_on h.type channel)
          (less sess.version (min_version_of h.type)) (is_undefined class) class
          (after_length class (some sess) len) e in
      let b = after_length_iff class sess len a.5 in (a.0, a.1, a.2, a.3, a.4, b.0, b.1),
  λ a. ground arith,
)

-- A session accepts a message exactly if its type is known and not reserved, it is legal on the
-- channel, the session's version has it, the server receives messages of its type, its payload is
-- within the session's limit, and the session is ready or clearing, or the message is of the lifecycle.
pub accept_iff :
    (cfg : Config) (sess : Session) (h : Header) (channel : Channel)
    → ((accept cfg (some sess) h channel).1 ≡ ok tt) ↔ IsAccepted sess h channel
accept_iff cfg sess h channel =
    let t = tests_iff cfg sess h channel in
    let l = length_iff h.length sess.max_rx in
    let r = ready_iff (class_of h.type) sess in
    (
      λ e.
          let a = t.0 e in
          record {
            known = a.1;
            not_reserved = a.0;
            legal = a.2;
            in_version = a.3;
            has_class = a.4;
            fits = l.0 a.5;
            ready_or_lifecycle = r.0 a.6;
          },
      λ a. t.1 (
        a.not_reserved,
        a.known,
        a.legal,
        a.in_version,
        a.has_class,
        l.1 a.fits,
        r.1 a.ready_or_lifecycle,
      ),
    )

abbrev order_check : ℕ → Bool
order_check t =
    (not (ordered (class_of t)) || queued (class_of t))
    && ((not (preempts (class_of t)) || queued (class_of t))
        && (not (preempts (class_of t)) || not (ordered (class_of t))))
    && (not (preempts (class_of t)) || not (legal_on t channel_synchronous))

class_table : all_below 256 order_check ≡ true
unfolding all_below class_of ordered queued preempts legal_on vendor_specific
class_table = refl

-- For every byte: what is ordered or preempts an operation waits for the bus; nothing does both; and
-- what preempts an operation never comes on the synchronous channel, which the operation blocks.
pub class_order :
    (t : ℕ)
    → t < 256
    → (ordered (class_of t) ≡ true → queued (class_of t) ≡ true)
      × (preempts (class_of t) ≡ true → queued (class_of t) ≡ true)
      × (preempts (class_of t) ≡ true → ordered (class_of t) ≡ false)
      × (preempts (class_of t) ≡ true → legal_on t channel_synchronous ≡ false)
class_order t h = ground (arith, all_below_sound 256 order_check t class_table h)
