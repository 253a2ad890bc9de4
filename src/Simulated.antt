-- ===== src/Simulated.antt =====
-- examples/server/main.go: the simulated SCPI instrument. Logs are left out, and a program message is
-- taken to be ASCII, as SCPI is. A voltage is a float64, whose type, zero, parser and printer the
-- theorems take.
pub mod Events
pub mod Queries
pub mod Strings
use hislip.Prelude.{
  ℕ, zero, suc, ◌+◌, ◌-◌, ◌/◌, ◌%◌, ◌≤◌, Bool, true, false, not, ◌||◌, Option, none, some, List, [],
  ◌∷◌, ◌++◌, Bytes, same, length, take, drop, length-take, ◌==◌, if◌then◌else◌, arith,
}
use hislip.Prelude.Text.{codes}
use hislip.Errors.{Error, Result, ok, external}
use hislip.Server.Device.{Device, Chunk}
use hislip.Simulated.Strings.{trim_line_end, split, trim_space, to_upper, starts_with, fields, itoa}

-- What the instrument uses of float64: zero, strconv.ParseFloat and the format %.6E.
pub record Floats (V : Type 0) : Type 0 where
  pub zero_volts : V
  pub parse_float : Bytes → Option V
  pub format_e : V → Bytes

-- The type instrument.
pub record Instrument (V : Type 0) : Type 0 where
  pub input : Bytes
  pub response : Bytes
  pub status : ℕ
  pub esr : ℕ
  pub voltage : V
  pub triggered : ℕ

-- Bit 5 of a byte: statusESB and esrCME.
abbrev pub bit5 : ℕ
bit5 = 32

-- `x & (1 << 5) != 0`, `x | 1 << 5` and `x &^ (1 << 5)`.
abbrev pub has_bit5 : ℕ → Bool
has_bit5 x = (x / bit5) % 2 == 1

abbrev pub set_bit5 : ℕ → ℕ
set_bit5 x = if has_bit5 x then x else x + bit5

abbrev pub clear_bit5 : ℕ → ℕ
clear_bit5 x = if has_bit5 x then x - bit5 else x

-- `make([]byte, n)` with `payload[i] = byte(i)`.
abbrev pub ramp : ℕ → Bytes
ramp zero = []
ramp (suc n) = ramp n ++ n % 256 ∷ []

abbrev pub no_response : Chunk
no_response = record {
  bytes = [];
  end = false;
  error = some (external (codes "instrument: no response available"));
}

module _ {V : Type 0} where
  unfoldable pub reply : Bytes → Instrument V → Instrument V
  reply s d = record d { response = d.response ++ (s ++ 10 ∷ []) }

  unfoldable pub command_error : Instrument V → Instrument V
  command_error d = record d { esr = set_bit5 d.esr; status = set_bit5 d.status }

  abbrev cleared_events : Instrument V → Instrument V
  cleared_events d = record d { esr = 0; status = clear_bit5 d.status }

  -- SYST:ERR?
  unfoldable pub next_error : Instrument V → Instrument V
  unfolding reply
  next_error d =
      if has_bit5 d.esr
      then record (reply (codes "-113,\"Undefined header\"") d) { esr = clear_bit5 d.esr }
      else reply (codes "0,\"No error\"") d

  abbrev set_volts : Option V → Instrument V → Instrument V
  set_volts none d = command_error d
  set_volts (some v) d = record d { voltage = v }

  -- SOUR:VOLT, by the words of the command.
  unfoldable pub source_voltage : Floats V → List Bytes → Instrument V → Instrument V
  unfolding command_error
  source_voltage floats (word ∷ volts ∷ []) d = set_volts (floats.parse_float volts) d
  source_voltage floats _ d = command_error d

  abbrev pub curve : Instrument V → Instrument V
  curve d = record d { response = d.response ++ (codes "#44096" ++ (ramp 4096 ++ 10 ∷ [])) }

  -- The cases of the switch with a fixed name; `none` for the others.
  unfoldable pub execute_one : Floats V → Bytes → Instrument V → Instrument V
  unfolding reply command_error next_error source_voltage to_upper starts_with fields itoa
  execute_one floats cmd d =
      let upper = to_upper cmd in
      if same upper (codes "*IDN?")
      then reply (codes "GoTMC,HiSLIP Simulated Instrument,0,0.1.0") d
      else if same upper (codes "*RST")
      then record d { voltage = floats.zero_volts; triggered = 0; esr = 0; status = 0 }
      else if same upper (codes "*CLS")
      then cleared_events d
      else if same upper (codes "*OPC?")
      then reply (codes "1") d
      else if same upper (codes "*ESR?")
      then cleared_events (reply (itoa d.esr) d)
      else if same upper (codes "*STB?")
      then reply (itoa d.status) d
      else if same upper (codes "*TST?")
      then reply (codes "0") d
      else if same upper (codes "SYST:ERR?") || same upper (codes "SYSTEM:ERROR?")
      then next_error d
      else if same upper (codes "MEAS:VOLT?") || same upper (codes "MEASURE:VOLTAGE?")
      then reply (floats.format_e d.voltage) d
      else if same upper (codes "TRIG:COUNT?")
      then reply (itoa d.triggered) d
      else if starts_with (codes "SOUR:VOLT ") upper || starts_with (codes "SOURCE:VOLTAGE ") upper
      then source_voltage floats (fields cmd) d
      else if same upper (codes "CURV?") || same upper (codes "WAV:DATA?")
      then curve d
      else command_error d

  abbrev pub execute_unless_empty : Floats V → Bytes → Instrument V → Instrument V
  execute_unless_empty floats [] d = d
  execute_unless_empty floats (c ∷ cs) d = execute_one floats (c ∷ cs) d

  abbrev pub execute_all : Floats V → List Bytes → Instrument V → Instrument V
  execute_all floats [] d = d
  execute_all floats (cmd ∷ cmds) d =
      execute_all floats cmds (execute_unless_empty floats (trim_space cmd) d)

  unfoldable pub execute : Floats V → Bytes → Instrument V → Instrument V
  unfolding execute_one split trim_space
  execute floats program d = execute_all floats (split program) d

  unfoldable pub write : Floats V → Instrument V → Bytes → Bool → Option Error × Instrument V
  unfolding execute trim_line_end
  write floats d p end =
      let input = d.input ++ p in
      (
        none,
        if not end
            then record d { input = input }
            else execute floats (trim_line_end input) (record d { input = [] }),
      )

  unfoldable pub read : Instrument V → ℕ → Chunk × Instrument V
  read d n = if length d.response == 0 then (no_response, d) else (
    record { bytes = take n d.response; end = length (drop n d.response) == 0; error = none },
    record d { response = drop n d.response },
  )

  unfoldable pub clear : Instrument V → Option Error × Instrument V
  clear d = (none, record d { input = []; response = [] })

  unfoldable pub trigger : Instrument V → Option Error × Instrument V
  trigger d = (none, record d { triggered = d.triggered + 1 })

  unfoldable pub read_status_byte : Instrument V → Result ℕ × Instrument V
  read_status_byte d = (ok d.status, d)

  unfoldable pub remote_local : Instrument V → ℕ → Option Error × Instrument V
  remote_local d mode = (none, d)

  pub read_fits : (d : Instrument V) (n : ℕ) → length (read d n).0.bytes ≤ n
  unfolding read
  read_fits d n = ground (arith, length-take n d.response)

  -- The instrument as the server sees it.
  unfoldable pub instrument : Floats V → Device (Instrument V)
  unfolding write read clear trigger read_status_byte remote_local
  instrument floats = record {
    write = write floats;
    read = read;
    clear = clear;
    trigger = trigger;
    read_status_byte = read_status_byte;
    remote_local = remote_local;
    read_fits = read_fits;
  }
