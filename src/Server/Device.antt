-- ===== src/Server/Device.antt =====
-- server/device.go: the instrument behind a server, and the remote/local modes.
use hislip.Prelude.{
  ℕ, ◌≤◌, Bool, Option, none, some, Bytes, length, leb, List, [], ◌∷◌, get_elem?, if◌then◌else◌,
}
use hislip.Errors.{Error, Result}

-- What a read gives: the bytes, whether the response is complete, and an error.
pub record Chunk : Type 0 where
  pub bytes : Bytes
  pub end : Bool
  pub error : Option Error

-- The interface Device, for an instrument whose state is a `D`. A backend is not part of this code; a
-- read is asked for at most `n` bytes, and gives no more.
pub record Device (D : Type 0) : Type 0 where
  pub write : D → Bytes → Bool → Option Error × D
  pub read : D → ℕ → Chunk × D
  pub clear : D → Option Error × D
  pub trigger : D → Option Error × D
  pub read_status_byte : D → Result ℕ × D
  pub remote_local : D → ℕ → Option Error × D
  pub read_fits : (d : D) (n : ℕ) → length (read d n).0.bytes ≤ n

-- Remote/local modes are the control codes on the wire.
abbrev pub max_remote_local_mode : ℕ
max_remote_local_mode = 6

pub data Effect : Type 0 where
  effect_no_change effect_false effect_true : Effect

pub record Effects : Type 0 where
  pub remote_enable : Effect
  pub local_lockout : Effect
  pub remote : Effect

abbrev three : Effect → Effect → Effect → Effects
three a b c = record { remote_enable = a; local_lockout = b; remote = c }

unfoldable pub remote_local_effects : List Effects
remote_local_effects =
    three effect_false effect_false effect_false
    ∷ three effect_true effect_no_change effect_no_change
    ∷ three effect_false effect_false effect_false
    ∷ three effect_true effect_no_change effect_true
    ∷ three effect_true effect_true effect_no_change
    ∷ three effect_true effect_true effect_true
    ∷ three effect_no_change effect_no_change effect_false
    ∷ []

-- RemoteLocalMode.Valid.
unfoldable pub mode_valid : ℕ → Bool
mode_valid m = leb m max_remote_local_mode

abbrev pub no_effects : Effects
no_effects = three effect_no_change effect_no_change effect_no_change

abbrev or_no_effects : Option Effects → Effects
or_no_effects none = no_effects
or_no_effects (some e) = e

-- RemoteLocalMode.Effects.
unfoldable pub effects_of : ℕ → Effects
unfolding remote_local_effects mode_valid
effects_of m = if mode_valid m then or_no_effects (get_elem? remote_local_effects m) else no_effects
