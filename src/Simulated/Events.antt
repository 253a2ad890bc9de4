-- ===== src/Simulated/Events.antt =====
-- The event and status registers of the simulated instrument.
use hislip.Prelude.{
  ℕ, same, ◌||◌, ◌++◌, drop, not, ◌+◌, ◌≡◌, ◌⊎◌, Bool, Option, none, some, List, [], ◌∷◌, Bytes,
  if◌then◌else◌, if-both, arith,
}
use hislip.Prelude.Text.{codes}
use hislip.Server.Device.{Chunk}
use hislip.Simulated.Strings.{to_upper, starts_with, fields, itoa, trim_line_end, trim_space, split}
use hislip.Simulated.{
  Floats, Instrument, reply, command_error, cleared_events, next_error, set_volts, source_voltage,
  curve, execute_one, execute_unless_empty, execute_all, execute, instrument, write, read, clear,
  trigger,
}

-- Only bit 5 is used, and the event bit is summarised in the status byte.
pub record IsSound {V : Type 0} (d : Instrument V) : Type 0 where
  pub esr : (d.esr ≡ 0) ⊎ (d.esr ≡ 32)
  pub status : (d.status ≡ 0) ⊎ (d.status ≡ 32)
  pub summarised : d.esr ≡ 32 → d.status ≡ 32

module _ {V : Type 0} where
  reply-IsSound : (s : Bytes) (d : Instrument V) → IsSound d → IsSound (reply s d)
  unfolding reply
  reply-IsSound s d o = ground (arith, o.summarised)

  command_error-IsSound : (d : Instrument V) → IsSound d → IsSound (command_error d)
  unfolding command_error
  command_error-IsSound d o = ground (arith, o.esr, o.status, o.summarised)

  cleared_events-IsSound : (d : Instrument V) → IsSound d → IsSound (cleared_events d)
  cleared_events-IsSound d o = ground (arith, o.esr, o.status)

  next_error-IsSound : (d : Instrument V) → IsSound d → IsSound (next_error d)
  unfolding next_error reply
  next_error-IsSound d o = ground (arith, o.esr, o.status, o.summarised)

  set_volts-IsSound : (v : Option V) (d : Instrument V) → IsSound d → IsSound (set_volts v d)
  set_volts-IsSound none d o = command_error-IsSound d o
  set_volts-IsSound (some v) d o = record {
    esr = o.esr;
    status = o.status;
    summarised = o.summarised;
  }

  source_voltage-IsSound :
      (floats : Floats V) (ws : List Bytes) (d : Instrument V)
      → IsSound d
      → IsSound (source_voltage floats ws d)
  unfolding source_voltage
  source_voltage-IsSound floats [] d o = command_error-IsSound d o
  source_voltage-IsSound floats (w ∷ []) d o = command_error-IsSound d o
  source_voltage-IsSound floats (w ∷ volts ∷ []) d o =
      set_volts-IsSound (floats.parse_float volts) d o
  source_voltage-IsSound floats (w ∷ volts ∷ more ∷ ws) d o = command_error-IsSound d o

  if-IsSound :
      (b : Bool) (d e : Instrument V) → IsSound d → IsSound e → IsSound (if b then d else e)
  if-IsSound b d e o p = if-both IsSound b d e o p

  -- The registers are as they were.
  moved-IsSound :
      (d : Instrument V) (input response : Bytes) (triggered : ℕ)
      → IsSound d
      → IsSound (record d { input = input; response = response; triggered = triggered })
  moved-IsSound d input response triggered o = record {
    esr = o.esr;
    status = o.status;
    summarised = o.summarised;
  }

  reset-IsSound :
      (v : V) (d : Instrument V)
      → IsSound (record d { voltage = v; triggered = 0; esr = 0; status = 0 })
  reset-IsSound v d = ground arith

  curve-IsSound : (d : Instrument V) → IsSound d → IsSound (curve d)
  curve-IsSound d o = record { esr = o.esr; status = o.status; summarised = o.summarised }

  execute_one-IsSound :
      (floats : Floats V) (cmd : Bytes) (d : Instrument V)
      → IsSound d
      → IsSound (execute_one floats cmd d)
  unfolding execute_one
  execute_one-IsSound floats cmd d o =
      let u = to_upper cmd in
      if-IsSound (same u (codes "*IDN?")) _ _
        (reply-IsSound (codes "GoTMC,HiSLIP Simulated Instrument,0,0.1.0") d o)
        (if-IsSound (same u (codes "*RST")) _ _ (reset-IsSound floats.zero_volts d) (
          if-IsSound (same u (codes "*CLS")) _ _ (cleared_events-IsSound d o) (
            if-IsSound (same u (codes "*OPC?")) _ _ (reply-IsSound (codes "1") d o) (
              if-IsSound (same u (codes "*ESR?")) _ _
                (cleared_events-IsSound (reply (itoa d.esr) d) (reply-IsSound (itoa d.esr) d o))
                (if-IsSound (same u (codes "*STB?")) _ _ (reply-IsSound (itoa d.status) d o) (
                  if-IsSound (same u (codes "*TST?")) _ _ (reply-IsSound (codes "0") d o) (
                    if-IsSound (same u (codes "SYST:ERR?") || same u (codes "SYSTEM:ERROR?")) _ _
                      (next_error-IsSound d o)
                      (if-IsSound (same u (codes "MEAS:VOLT?") || same u (codes "MEASURE:VOLTAGE?"))
                        _ _ (reply-IsSound (floats.format_e d.voltage) d o)
                        (if-IsSound (same u (codes "TRIG:COUNT?")) _ _
                          (reply-IsSound (itoa d.triggered) d o)
                          (if-IsSound
                            (starts_with (codes "SOUR:VOLT ") u
                              || starts_with (codes "SOURCE:VOLTAGE ") u)
                            _ _ (source_voltage-IsSound floats (fields cmd) d o)
                            (if-IsSound (same u (codes "CURV?") || same u (codes "WAV:DATA?")) _ _
                              (curve-IsSound d o) (command_error-IsSound d o))))))))))))

  unless_empty-IsSound :
      (floats : Floats V) (cmd : Bytes) (d : Instrument V)
      → IsSound d
      → IsSound (execute_unless_empty floats cmd d)
  unless_empty-IsSound floats [] d o = o
  unless_empty-IsSound floats (c ∷ cs) d o = execute_one-IsSound floats (c ∷ cs) d o

  execute_all-IsSound :
      (floats : Floats V) (cmds : List Bytes) (d : Instrument V)
      → IsSound d
      → IsSound (execute_all floats cmds d)
  execute_all-IsSound floats [] d o = o
  execute_all-IsSound floats (cmd ∷ cmds) d o =
      execute_all-IsSound floats cmds _ (unless_empty-IsSound floats (trim_space cmd) d o)

  write-IsSound :
      (floats : Floats V) (d : Instrument V) (p : Bytes) (end : Bool)
      → IsSound d
      → IsSound (write floats d p end).1
  unfolding write execute
  write-IsSound floats d p end o =
      if-IsSound (not end) _ _ (moved-IsSound d (d.input ++ p) d.response d.triggered o) (
        execute_all-IsSound floats (split (trim_line_end (d.input ++ p))) _
          (moved-IsSound d [] d.response d.triggered o))

  read-IsSound : (d : Instrument V) (n : ℕ) → IsSound d → IsSound (read d n).1
  unfolding read
  read-IsSound d n o =
      if-both (λ (r : Chunk × Instrument V). IsSound r.1) _ _ _ o
        (moved-IsSound d d.input (drop n d.response) d.triggered o)

-- What the server asks of the instrument.
pub data Call : Type 0 where
  writes : (p : Bytes) (end : Bool) → Call
  reads : ℕ → Call
  clears triggers : Call

module _ {V : Type 0} where
  unfoldable pub called : Floats V → Call → Instrument V → Instrument V
  unfolding instrument
  called floats (writes p end) d = ((instrument floats).write d p end).1
  called floats (reads n) d = ((instrument floats).read d n).1
  called floats clears d = ((instrument floats).clear d).1
  called floats triggers d = ((instrument floats).trigger d).1

  unfoldable pub calls : Floats V → List Call → Instrument V → Instrument V
  unfolding called
  calls floats [] d = d
  calls floats (c ∷ cs) d = calls floats cs (called floats c d)

  called-IsSound :
      (floats : Floats V) (c : Call) (d : Instrument V) → IsSound d → IsSound (called floats c d)
  unfolding called instrument clear trigger
  called-IsSound floats (writes p end) d o = write-IsSound floats d p end o
  called-IsSound floats (reads n) d o = read-IsSound d n o
  called-IsSound floats clears d o = moved-IsSound d [] [] d.triggered o
  called-IsSound floats triggers d o = moved-IsSound d d.input d.response (d.triggered + 1) o

  -- Whatever messages, reads, clears and triggers come, with whatever commands: of the event register and
  -- of the status byte only bit 5 is ever used, and while the command error is set in the event register
  -- the status byte has its summary.
  pub calls-IsSound :
      (floats : Floats V) (cs : List Call) (d : Instrument V)
      → IsSound d
      → IsSound (calls floats cs d)
  unfolding calls
  calls-IsSound floats [] d o = o
  calls-IsSound floats (c ∷ cs) d o =
      calls-IsSound floats cs (called floats c d) (called-IsSound floats c d o)
