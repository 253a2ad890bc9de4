-- ===== src/Protocol/MessageId.antt =====
-- protocol/messageid.go: the MessageID counter of a session. A MessageID is a 32-bit number.
pub mod Sequence
use hislip.Prelude.{ℕ, ◌+◌, ◌-◌, ◌%◌, ◌^◌, Bool, true, false, if◌then◌else◌}

abbrev pub initial_message_id : ℕ
initial_message_id = 0xffff_ff00

abbrev pub no_message_id : ℕ
no_message_id = 0xffff_ffff

abbrev pub status_query_initial_message_id : ℕ
status_query_initial_message_id = 0xffff_fefe

abbrev pub message_id_increment : ℕ
message_id_increment = 2

-- Addition and subtraction of a uint32 wrap.
unfoldable pub next : ℕ → ℕ
next m = (m + message_id_increment) % 2 ^ 32

unfoldable pub previous : ℕ → ℕ
previous m = (m + 2 ^ 32 - message_id_increment) % 2 ^ 32

pub record Counter : Type 0 where
  pub current : ℕ
  pub started : Bool

-- Counter.Reset.
abbrev pub reset : Counter → Counter
reset c = record { current = initial_message_id; started = true }

unfoldable pub new_counter : Counter
new_counter = reset (record { current = 0; started = false })

-- `if !c.started { c.Reset() }`, as Current begins.
abbrev ensure_started : Counter → Counter
ensure_started c = if c.started then c else reset c

-- Counter.Current, with the counter that it may have reset.
unfoldable pub current_id : Counter → ℕ × Counter
current_id c = ((ensure_started c).current, ensure_started c)

-- Counter.Take.
unfoldable pub take_id : Counter → ℕ × Counter
unfolding next current_id
take_id c = let (id, c') = current_id c in (id, record c' { current = next id })

-- Counter.Last.
unfoldable pub last_id : Counter → ℕ × Counter
unfolding previous current_id
last_id c = let (id, c') = current_id c in (previous id, c')
