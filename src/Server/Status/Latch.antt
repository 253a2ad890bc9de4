-- ===== src/Server/Status/Latch.antt =====
-- Service requests coalesce until a status query takes them.
use hislip.Prelude.{ℕ, suc, ◌+◌, ◌≡◌, Bool, true, false, List, [], ◌∷◌, arith, if◌then◌else◌}
use hislip.Server.Status.{Status, latch_service_request, take_service_request}

-- The instrument asks for service with a status byte, or a status query takes the latch.
pub data Event : Type 0 where
  latch : ℕ → Event
  take : Event

pub record Tally : Type 0 where
  pub status : Status
  pub sent : ℕ
  pub taken : ℕ

abbrev bump : Bool → ℕ → ℕ
bump true n = suc n
bump false n = n

unfoldable pub event_step : Tally → Event → Tally
unfolding latch_service_request take_service_request
event_step t (latch b) =
    let (new, s) = latch_service_request t.status b in
    record t { status = s; sent = bump new t.sent }
event_step t take =
    let (was, s) = take_service_request t.status in
    record t { status = s; taken = bump was t.taken }

unfoldable pub tally : Tally → List Event → Tally
unfolding event_step
tally t [] = t
tally t (e ∷ es) = tally (event_step t e) es

abbrev pub outstanding : Status → ℕ
outstanding s = if s.srq_latched then 1 else 0

balanced_step :
    (t : Tally) (e : Event)
    → t.sent ≡ t.taken + outstanding t.status
    → (event_step t e).sent ≡ (event_step t e).taken + outstanding (event_step t e).status
unfolding event_step
balanced_step t (latch b) h = ground arith
balanced_step t take h = ground arith

-- In any history of service requests and status queries, the requests sent are the requests that
-- queries have taken, and one more exactly while the latch is set: no second request goes out before
-- the first is taken, and none is taken twice.
pub requests_balanced :
    (t : Tally) (es : List Event)
    → t.sent ≡ t.taken + outstanding t.status
    → (tally t es).sent ≡ (tally t es).taken + outstanding (tally t es).status
unfolding tally
requests_balanced t [] h = h
requests_balanced t (e ∷ es) h = requests_balanced (event_step t e) es (balanced_step t e h)
