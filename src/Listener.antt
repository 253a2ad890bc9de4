-- ===== src/Listener.antt =====
-- listen.go: the listener that hands accepted connections to a server. The accept loop, the tasks of the
-- connections, the cancellation of the context and calls of Close come in any order: an event is a
-- stretch of one of them in which it holds the mutex, or works on its own. What the network does (a
-- connection comes, Accept fails, a task's Serve ends) is the environment's choice.
pub mod Ends
pub mod Closes
pub mod Lives
pub mod Late
use hislip.Prelude.{
  ℕ, Bool, true, false, not, ◌&&◌, ◌||◌, Option, none, some, List, [], ◌∷◌, ◌++◌, Bytes, ◌==◌,
  if◌then◌else◌,
}
use hislip.Prelude.Text.{codes}
use hislip.Errors.{Error, external, Result, ok, err, ◌>>=◌, ◌>>◌, fail_if}

-- Where the loop of Serve stands: at Accept, with a connection that is not tracked yet, at the wait for
-- the tasks, or behind its return.
pub data Phase : Type 0 where
  accepting waiting : Phase
  holding : ℕ → Phase
  returned : Option Error → Phase

-- `conns` are the keys of the map, `tasks` the connections whose task has not ended, `shut` those that
-- Close has closed. `closing` is what a Close has still to close, and `ln_open` the network listener.
-- `registered` are the connections of the sessions that are registered at the server.
pub record Listener : Type 0 where
  pub closed : Bool
  pub conns : List ℕ
  pub has_on_error : Bool
  pub reported : List Error
  pub tasks : List ℕ
  pub registered : List ℕ
  pub ln_open : Bool
  pub cancelled : Bool
  pub closing : Option (List ℕ)
  pub shut : ℕ → Bool
  pub phase : Phase

-- A listener at the first Accept of its Serve.
abbrev pub new_listener : Listener
new_listener = record {
  closed = false;
  conns = [];
  has_on_error = false;
  reported = [];
  tasks = [];
  registered = [];
  ln_open = true;
  cancelled = false;
  closing = none;
  shut = λ k. false;
  phase = accepting;
}

abbrev address_or_default : Bytes → Bytes
address_or_default [] = codes ":4880"
address_or_default (x ∷ xs) = x ∷ xs

-- Listen, over what net.Listen does with an address.
unfoldable pub listen : Bool → Bytes → (Bytes → Result (Unit {0})) → Result Listener
listen has_server addr net_listen = do
  fail_if (not has_server) (external (codes "hislip: nil server"))
  net_listen (address_or_default addr)
  ok new_listener

-- OnError.
unfoldable pub on_error : Listener → Listener
on_error l = record l { has_on_error = true }

abbrev pub among : List ℕ → ℕ → Bool
among [] k = false
among (x ∷ xs) k = x == k || among xs k

abbrev pub without : List ℕ → ℕ → List ℕ
without [] k = []
without (x ∷ xs) k = let rest = without xs k in if x == k then rest else x ∷ rest

unfoldable pub track : Listener → ℕ → Listener
track l k = record l { conns = k ∷ l.conns }

unfoldable pub untrack : Listener → ℕ → Listener
untrack l k = record l { conns = without l.conns k }

unfoldable pub report : Listener → Error → Listener
report l e = record l { reported = if l.has_on_error then l.reported ++ e ∷ [] else l.reported }

-- Close up to the end of its critical section; a listener that is closed returns there.
unfoldable pub begin_close : Listener → Listener
begin_close l = if l.closed then l else record l { closed = true; closing = some l.conns }

-- The rest of Close, the server's CloseAll with it: that closes the connections of every registered
-- session, and none is registered behind it.
abbrev pub end_close : Option (List ℕ) → Listener → Listener
end_close none l = l
end_close (some conns) l = record l {
  ln_open = false;
  closing = none;
  shut = λ k. among conns k || (among l.registered k || l.shut k);
  registered = [];
}

-- What Serve does with an error of Accept.
unfoldable pub accept_failed : Listener → Error → Listener
accept_failed l e =
    if l.closed || l.cancelled
    then record l { phase = waiting }
    else record l { phase = returned (some e) }

-- The connection is tracked, its task is started, and the loop goes back to Accept.
unfoldable pub start_task : Listener → ℕ → Listener
unfolding track
start_task l k = let t = track l k in record t { tasks = k ∷ t.tasks; phase = accepting }

abbrev report_if : Option Error → Listener → Listener
report_if none l = l
report_if (some e) l = report l e

-- The task's Serve has ended.
unfoldable pub end_task : Listener → ℕ → Option Error → Listener
unfolding untrack report
end_task l k e = let u = untrack (report_if e l) k in record u { tasks = without u.tasks k }

-- Initialize or AsyncInitialize makes the connection of a running task one of a registered session.
abbrev pub register : Listener → ℕ → Listener
register l k = if among l.tasks k then record l { registered = k ∷ l.registered } else l

-- The session of the connection is removed.
abbrev pub unregister : Listener → ℕ → Listener
unregister l k = record l { registered = without l.registered k }

pub data Event : Type 0 where
  accepts : ℕ → Event
  accept_fails : Error → Event
  starts : Event
  task_ends : ℕ → Option Error → Event
  cancels : Event
  close_begins : Event
  close_ends : Event
  wait_ends : Event
  registers : ℕ → Event
  unregisters : ℕ → Event

-- A new connection is neither one that has a task nor one that was closed.
abbrev pub at_accept : Phase → Listener → ℕ → Listener
at_accept accepting l k =
    if l.ln_open && not (among l.tasks k || l.shut k) then record l { phase = holding k } else l
at_accept _ l k = l

abbrev pub at_failure : Phase → Listener → Error → Listener
at_failure accepting l e = accept_failed l e
at_failure _ l e = l

abbrev pub at_start : Phase → Listener → Listener
at_start (holding k) l = start_task l k
at_start _ l = l

abbrev pub no_tasks : List ℕ → Bool
no_tasks [] = true
no_tasks (x ∷ xs) = false

abbrev pub at_wait : Phase → Listener → Listener
at_wait waiting l = if no_tasks l.tasks then record l { phase = returned none } else l
at_wait _ l = l

-- An event that cannot happen where the listener stands changes nothing.
unfoldable pub happens : Event → Listener → Listener
unfolding accept_failed start_task end_task begin_close
happens (accepts k) l = at_accept l.phase l k
happens (accept_fails e) l = at_failure l.phase l e
happens starts l = at_start l.phase l
happens (task_ends k e) l = if among l.tasks k then end_task l k e else l
happens cancels l = record l { cancelled = true }
happens close_begins l = begin_close l
happens close_ends l = end_close l.closing l
happens wait_ends l = at_wait l.phase l
happens (registers k) l = register l k
happens (unregisters k) l = unregister l k

unfoldable pub history : List Event → Listener → Listener
unfolding happens
history [] l = l
history (e ∷ es) l = history es (happens e l)
