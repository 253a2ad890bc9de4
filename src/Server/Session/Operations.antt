-- ===== src/Server/Session/Operations.antt =====
-- Operation, its release function, abortOperation and close of server/session.go over time: which bus
-- operation a Device Clear or a close abandons.
use hislip.Prelude.{
  ℕ, suc, ◌<◌, ◌≡◌, ◌≢◌, refl, ◌⊎◌, inl, inr, Bool, true, false, ◌||◌, Option, none, some, List, [],
  ◌∷◌, All, ap, ◌∙◌, subst, ◌==◌, arith,
}
use hislip.Protocol.Version.{Version}
use hislip.Server.Config.{Config}
use hislip.Server.Session.{
  Session, new_session, operation, release_operation, abort_operation, close_session, cancel,
}

abbrev among : ℕ → List ℕ → Bool
among op [] = false
among op (x ∷ xs) = x == op || among op xs

abbrev pub is_cancelled : Session → ℕ → Bool
is_cancelled s op = among op s.cancelled

-- The session, and the operation that its handler runs. The handler starts an operation only when it
-- has released the one before; the other channel and the server come at any time.
pub data Step : Session → Option ℕ → Session → Option ℕ → Type 0 where
  starts : (s : Session) → Step s none (operation s).1 (some (operation s).0)
  finishes : (s : Session) (op : ℕ) → Step s (some op) (release_operation s op) none
  aborts : (s : Session) (running : Option ℕ) → Step s running (abort_operation s) running
  closes : (s : Session) (running : Option ℕ) → Step s running (close_session s) running

pub data Steps (s : Session) (r : Option ℕ) : Session → Option ℕ → Type 0 where
  stays : Steps s r s r
  goes : {t u : Session} {q p : Option ℕ} → Steps s r t q → Step t q u p → Steps s r u p

-- What is running, is registered or cancelled, and nothing else is registered.
abbrev IsTracked : Session → Option ℕ → Type 0
IsTracked s none = s.op_cancel ≡ none
IsTracked s (some op) =
    (op < s.next_op)
    × ((s.op_cancel ≡ some op) ⊎ ((s.op_cancel ≡ none) × (is_cancelled s op ≡ true)))

pub record IsOrderly (s : Session) (running : Option ℕ) : Type 0 where
  pub tracked : IsTracked s running
  pub old : All (λ op. op < s.next_op) s.cancelled

old-fresh : (n : ℕ) (xs : List ℕ) → All (λ op. op < n) xs → among n xs ≡ false
old-fresh n [] old = refl
old-fresh n (x ∷ xs) old = ground (arith, old-fresh n xs old.1)

old-suc : (n : ℕ) (xs : List ℕ) → All (λ op. op < n) xs → All (λ op. op < suc n) xs
old-suc n [] old = tt
old-suc n (x ∷ xs) old = (omega (arith, old.0), old-suc n xs old.1)

All-cancel :
    (n : ℕ) (o : Option ℕ) (xs : List ℕ)
    → ((op : ℕ) → o ≡ some op → op < n)
    → All (λ op. op < n) xs
    → All (λ op. op < n) (cancel o xs)
All-cancel n none xs new old = old
All-cancel n (some op) xs new old = (new op refl, old)

-- What a Device Clear or a close leaves of the operation.
abandoned-IsTracked : (s : Session) (r : Option ℕ) → IsOrderly s r → IsTracked (abort_operation s) r
unfolding abort_operation
abandoned-IsTracked s none o = refl
abandoned-IsTracked s (some op) o = ground (arith, o.tracked)

abandoned-old :
    (s : Session) (r : Option ℕ)
    → IsOrderly s r
    → All (λ op. op < s.next_op) (cancel s.op_cancel s.cancelled)
abandoned-old s none o =
    All-cancel s.next_op s.op_cancel s.cancelled (λ op e. ground (arith, o.tracked)) o.old
abandoned-old s (some op) o =
    All-cancel s.next_op s.op_cancel s.cancelled (λ op' e. ground (arith, o.tracked)) o.old

Step-IsOrderly : {s t : Session} {r q : Option ℕ} → Step s r t q → IsOrderly s r → IsOrderly t q
unfolding operation release_operation abort_operation close_session
Step-IsOrderly (starts s) o = record {
  tracked = (omega arith, inl refl);
  old = old-suc s.next_op s.cancelled o.old;
}
Step-IsOrderly (finishes s op) o = record { tracked = refl; old = (o.tracked.0, o.old) }
Step-IsOrderly (aborts s r) o = record {
  tracked = abandoned-IsTracked s r o;
  old = abandoned-old s r o;
}
Step-IsOrderly (closes s none) o = record { tracked = refl; old = abandoned-old s none o }
Step-IsOrderly (closes s (some op)) o = record {
  tracked = abandoned-IsTracked s (some op) o;
  old = abandoned-old s (some op) o;
}

Steps-IsOrderly :
    {s : Session} {r q : Option ℕ} {t : Session} → Steps s r t q → IsOrderly s r → IsOrderly t q
Steps-IsOrderly stays o = o
Steps-IsOrderly (goes before step) o = Step-IsOrderly step (Steps-IsOrderly before o)

-- The cancel function that was registered has been called.
among-cancel :
    (op : ℕ) (o : Option ℕ) (xs : List ℕ)
    → (o ≡ some op → among op (cancel o xs) ≡ true)
      × (o ≢ some op → among op (cancel o xs) ≡ among op xs)
among-cancel op none xs = ((λ e. cc), λ ne. refl)
among-cancel op (some x) xs = ((λ e. ground arith), λ ne. ground arith)

cancels_running :
    (s : Session) (op : ℕ)
    → IsOrderly s (some op)
    → among op (cancel s.op_cancel s.cancelled) ≡ true
cancels_running s op o = elim (o.tracked.1) [
  | inl e ↦ (among-cancel op s.op_cancel s.cancelled).0 e
  | inr e ↦ ap (λ c. among op (cancel c s.cancelled)) e.0 ∙ e.1
]

registered_runs :
    (s : Session) (running : Option ℕ) (op : ℕ)
    → IsOrderly s running
    → s.op_cancel ≡ some op
    → running ≡ some op
registered_runs s none op o e = ground (arith, o.tracked)
registered_runs s (some x) op o e = ground (arith, o.tracked)

spares_others :
    (s : Session) (running : Option ℕ) (op : ℕ)
    → IsOrderly s running
    → running ≢ some op
    → among op (cancel s.op_cancel s.cancelled) ≡ among op s.cancelled
spares_others s running op o ne =
    (among-cancel op s.op_cancel s.cancelled).1 (λ e. ne (registered_runs s running op o e))

module _ (id sync : ℕ) (version : Version) (cfg : Config) where
  new_session-IsOrderly : IsOrderly (new_session id version sync cfg) none
  unfolding new_session
  new_session-IsOrderly = record { tracked = refl; old = tt }

  -- Whatever has happened to a session, a Device Clear cancels the operation that its handler runs, as
  -- does closing the session; neither cancels another operation; and an operation that starts is not
  -- cancelled yet.
  pub abort_reaches :
      {t : Session} {running : Option ℕ}
      → Steps (new_session id version sync cfg) none t running
      → ((op : ℕ)
          → running ≡ some op
          → (is_cancelled (abort_operation t) op ≡ true)
            × (is_cancelled (close_session t) op ≡ true))
        × ((op : ℕ)
            → running ≢ some op
            → (is_cancelled (abort_operation t) op ≡ is_cancelled t op)
              × (is_cancelled (close_session t) op ≡ is_cancelled t op))
        × (is_cancelled (operation t).1 (operation t).0 ≡ false)
  unfolding operation abort_operation close_session
  abort_reaches {t} {running} history =
      let o = Steps-IsOrderly history new_session-IsOrderly in
      (
        (λ op e. let hit = cancels_running t op (subst (IsOrderly t) e o) in (hit, hit)),
        (λ op ne. let spared = spares_others t running op o ne in (spared, spared)),
        old-fresh t.next_op t.cancelled o.old,
      )

  -- With two operations outstanding, the release function of the first unregisters the second: a Device
  -- Clear then cancels neither, though without that release it cancels the second.
  pub stale_release :
      {t : Session} {running : Option ℕ}
      → Steps (new_session id version sync cfg) none t running
      → let first = operation t in
        let second = operation first.1 in
        (is_cancelled (abort_operation (release_operation second.1 first.0)) second.0 ≡ false)
        × (is_cancelled (abort_operation second.1) second.0 ≡ true)
  unfolding operation release_operation abort_operation
  stale_release {t} {running} history =
      let o = Steps-IsOrderly history new_session-IsOrderly in
      ground (arith, old-fresh (suc t.next_op) t.cancelled (old-suc t.next_op t.cancelled o.old))
