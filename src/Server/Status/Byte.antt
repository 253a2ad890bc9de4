-- ===== src/Server/Status/Byte.antt =====
-- The MAV rules, and the bits of the reported byte.
use Prim.Native.Nat.{bit_and, bit_or}
use hislip.Prelude.{
  ℕ, ◌/◌, ◌%◌, ◌<◌, ◌≡◌, refl, ◌↔◌, Bool, true, false, ◌&&◌, ◌==◌, all_below, all_below_sound,
  arith,
}
use hislip.Server.Status.{Status, mav, status_byte, last_received_id}

set_check : ℕ → Bool
set_check d =
    (bit_or d 0x10 / 32 == d / 32)
    && ((bit_or d 0x10 % 16 == d % 16) && (bit_or d 0x10 / 16 % 2 == 1))

clear_check : ℕ → Bool
clear_check d =
    (bit_and d 0xef / 32 == d / 32)
    && ((bit_and d 0xef % 16 == d % 16) && (bit_and d 0xef / 16 % 2 == 0))

set_table : all_below 256 set_check ≡ true
unfolding all_below set_check
set_table = refl

clear_table : all_below 256 clear_check ≡ true
unfolding all_below clear_check
clear_table = refl

-- The reported byte differs from the instrument's in bit 4 alone, and that bit is set exactly if the
-- query names the last received message, does not carry RMT-delivered, and a response is pending.
pub status_byte_bits :
    (s : Status) (device query_id : ℕ) (rmt_delivered : Bool)
    → device < 256
    → let b = status_byte s device query_id rmt_delivered in
      (b / 32 ≡ device / 32)
      × (b % 16 ≡ device % 16)
      × ((b / 16 % 2 ≡ 1) ↔ (
          (query_id ≡ last_received_id s) × (rmt_delivered ≡ false) × (s.response_pending ≡ true)))
unfolding status_byte mav set_check clear_check
status_byte_bits s device query_id rmt_delivered h = ground (
  arith,
  all_below_sound 256 set_check device set_table h,
  all_below_sound 256 clear_check device clear_table h,
)
