-- ===== src/Protocol/MessageType/Classes.antt =====
-- The ranges of the message types, decided for every byte by evaluation.
use hislip.Prelude.{
  ℕ, ◌<◌, ◌≡◌, refl, Bool, true, false, not, ◌&&◌, ◌||◌, arith, all_below, all_below_sound,
}
use hislip.Protocol.MessageType.{
  MessageType, channel_synchronous, channel_asynchronous, channel_none, channel_either, defined,
  vendor_specific, reserved, legal_on,
}

abbrev pub exactly_one : Bool → Bool → Bool → Bool
exactly_one a b c = (a && not b && not c) || (not a && b && not c) || (not a && not b && c)

abbrev bool_eq : Bool → Bool → Bool
bool_eq true b = b
bool_eq false b = not b

classes_check : MessageType → Bool
classes_check t =
    exactly_one (defined t) (reserved t) (vendor_specific t)
    && (bool_eq (legal_on t channel_synchronous || legal_on t channel_asynchronous)
          (not (reserved t))
        && not (legal_on t channel_none || legal_on t channel_either))

classes_table : all_below 256 classes_check ≡ true
unfolding all_below classes_check defined reserved vendor_specific legal_on
classes_table = refl

-- A byte is a defined, a reserved or a vendor-specific message type, and just one of these. It is
-- legal on one of the two channels exactly if it is not reserved, and legal on nothing else.
pub type_classes :
    (t : ℕ)
    → t < 256
    → (exactly_one (defined t) (reserved t) (vendor_specific t) ≡ true)
      × ((legal_on t channel_synchronous || legal_on t channel_asynchronous) ≡ not (reserved t))
      × (legal_on t channel_none ≡ false)
      × (legal_on t channel_either ≡ false)
unfolding classes_check
type_classes t h = ground (arith, all_below_sound 256 classes_check t classes_table)
