-- ===== src/Server/State/Keeps.antt =====
-- What every step keeps that only writes through the session's writers, for any property of the state
-- that such writes keep: the rules by which the handlers are gone through.
use hislip.Prelude.{ℕ, ◌≡◌, refl, Bool, Option, none, some, Bytes, if◌then◌else◌, if-both, arith}
use hislip.Errors.{Error, Result, ok, err}
use hislip.Protocol.Header.{Header}
use hislip.Server.Transaction.{Transaction}
use hislip.Server.Session.{Session}
use hislip.Server.State.{
  Counters, State, M, and_then, ◌>>=◌, ◌>>◌, pure, fail, count, change, Side, send, send_error,
  send_fatal_error,
}
use hislip.Server.Data.{step_tx, dev_result}

module _ {D : Type 0} where
  -- The connections and the writers of two states are the same.
  pub record IsQuiet (s t : State D) : Type 0 where
    pub conns : t.conns ≡ s.conns
    pub sync_w : t.sess.sync_w ≡ s.sess.sync_w
    pub async_w : t.sess.async_w ≡ s.sess.async_w

  pub record IsStable (P : State D → Type 0) : Type 0 where
    pub quiet : (s t : State D) → IsQuiet s t → P s → P t
    pub sends :
        (side : Side) (h : Header) (payload : Bytes) (s : State D)
        → P s
        → P (send side h payload s).1

  -- A step keeps the property, whether it succeeds or fails.
  pub record Keeps (P : State D → Type 0) {A : Type 0} (m : M D A) : Type 0 where
    pub after : (s : State D) → P s → P (m s).1

  -- What a step came to has the property.
  pub record Safe (P : State D → Type 0) {R : Type 0} (r : R × State D) : Type 0 where
    pub holds : P r.1

module _ {D : Type 0} {P : State D → Type 0} (stable : IsStable P) where
  pub quiet-Keeps : {A : Type 0} {m : M D A} → ((s : State D) → IsQuiet s (m s).1) → Keeps P m
  quiet-Keeps q = record { after = λ s p. stable.quiet s _ (q s) p }

  pub and_then-P :
      {A B : Type 0} (r : Result A × State D) (f : A → M D B)
      → P r.1
      → ((a : A) → Keeps P (f a))
      → P (and_then r f).1
  and_then-P (ok a, s) f p k = (k a).after s p
  and_then-P (err e, s) f p k = p

  pub bind-Keeps :
      {A B : Type 0} {m : M D A} {f : A → M D B}
      → Keeps P m
      → ((a : A) → Keeps P (f a))
      → Keeps P (m >>= f)
  bind-Keeps {A} {B} {m} {f} k l = record { after = λ s p. and_then-P (m s) f (k.after s p) l }

  pub then-Keeps :
      {B : Type 0} {m : M D (Unit {0})} {n : M D B} → Keeps P m → Keeps P n → Keeps P (m >> n)
  then-Keeps {B} {m} {n} k l = bind-Keeps {m = m} {f = λ _. n} k (λ _. l)

  pub if-Keeps :
      {A : Type 0} (b : Bool) (m n : M D A) → Keeps P m → Keeps P n → Keeps P (if b then m else n)
  if-Keeps {A} b m n k l = if-both (λ (x : M D A). Keeps P x) b m n k l

  pub pure-Keeps : {A : Type 0} {a : A} → Keeps P (pure a)
  pure-Keeps = record { after = λ s p. p }

  pub fail-Keeps : {A : Type 0} {e : Error} → Keeps P {A = A} (fail e)
  fail-Keeps = record { after = λ s p. p }

  pub count-Keeps : (f : Counters → Counters) → Keeps P (count f)
  count-Keeps f = quiet-Keeps (λ s. record { conns = refl; sync_w = refl; async_w = refl })

  pub change-Keeps :
      (f : Session → Session)
      → ((x : Session) → ((f x).sync_w ≡ x.sync_w) × ((f x).async_w ≡ x.async_w))
      → Keeps P (change f)
  change-Keeps f q =
      quiet-Keeps (λ s. record { conns = refl; sync_w = (q s.sess).0; async_w = (q s.sess).1 })

  step_tx-IsQuiet : (f : Transaction → Result Transaction) (s : State D) → IsQuiet s (step_tx f s).1
  step_tx-IsQuiet f s = record {
    conns = ground arith;
    sync_w = ground arith;
    async_w = ground arith;
  }

  pub step_tx-Keeps : (f : Transaction → Result Transaction) → Keeps P (step_tx f)
  step_tx-Keeps f = quiet-Keeps (step_tx-IsQuiet f)

  pub dev_result-P : (r : Option Error × D) (s : State D) → P s → P (dev_result r s).1
  dev_result-P (none, d) s =
      stable.quiet s _ (record { conns = refl; sync_w = refl; async_w = refl })
  dev_result-P (some e, d) s =
      stable.quiet s _ (record { conns = refl; sync_w = refl; async_w = refl })

  pub send-Keeps : (side : Side) (h : Header) (payload : Bytes) → Keeps P (send side h payload)
  send-Keeps side h payload = record { after = stable.sends side h payload }

  pub send_error-Keeps :
      (side : Side) (code : ℕ) (text : Bytes) → Keeps P (send_error side code text)
  unfolding send_error
  send_error-Keeps side code text = record { after = stable.sends side _ text }

  pub send_fatal_error-Keeps :
      (side : Side) (code : ℕ) (text : Bytes) → Keeps P (send_fatal_error side code text)
  unfolding send_fatal_error
  send_fatal_error-Keeps side code text = record { after = stable.sends side _ text }

  pub if-Safe :
      {R : Type 0} (b : Bool) (r q : R × State D)
      → Safe P r
      → Safe P q
      → Safe P (if b then r else q)
  if-Safe {R} b r q k l = if-both (λ (x : R × State D). Safe P x) b r q k l

  pub pair-Safe : {R : Type 0} (r : R) (s : State D) → P s → Safe P (r, s)
  pair-Safe r s p = record { holds = p }

  pub step_tx-Safe :
      (f : Transaction → Result Transaction) (s : State D) → P s → Safe P (step_tx f s)
  step_tx-Safe f s p = record { holds = (step_tx-Keeps f).after s p }

  pub send-Safe :
      (side : Side) (h : Header) (payload : Bytes) (s : State D)
      → P s
      → Safe P (send side h payload s)
  send-Safe side h payload s p = record { holds = stable.sends side h payload s p }

  pub send_error-Safe :
      (side : Side) (code : ℕ) (text : Bytes) (s : State D)
      → P s
      → Safe P (send_error side code text s)
  send_error-Safe side code text s p = record {
    holds = (send_error-Keeps side code text).after s p;
  }

  pub ruleset safe_steps = (if-Safe, pair-Safe, step_tx-Safe, send-Safe, send_error-Safe)

  pub ruleset keeping = (
    then-Keeps, if-Keeps, pure-Keeps, fail-Keeps, count-Keeps, step_tx-Keeps, send-Keeps,
    send_error-Keeps, send_fatal_error-Keeps,
  )
