-- ===== src/HighSpeed.antt =====
-- The command-53 codec (custom_components/amaran_ble/amaranble/highspeed.py). An `IntEnum` of one
-- bit is its value.
pub mod RoundTrip
mod Examples
use ha_amaran_ble.Base.{ℕ, Option, none, some, [], ◌∷◌, Result, ok, ◌>>=◌, if◌then◌else◌}
use ha_amaran_ble.Base.Bits.{shl}
use ha_amaran_ble.Base.Bytes.{Bytes, from_bytes_little}
use ha_amaran_ble.Packet.{field, bits, or_fields, finalize, has_header, one_bit}

abbrev pub cmd_high_speed : ℕ
cmd_high_speed = 53

pub record HighSpeedMessage : Type 0 where
  pub state : ℕ
  pub operation : ℕ

unfoldable pub build_high_speed : ℕ → ℕ → Result Bytes
build_high_speed state operation = do
  wire_state ← one_bit state
  wire_operation ← one_bit operation
  finalize
      (or_fields (shl wire_state 71) (field cmd_high_speed 72 7 ∷ field wire_operation 79 1 ∷ []))

unfoldable pub decode_high_speed : Bytes → Option HighSpeedMessage
decode_high_speed payload =
    if has_header payload cmd_high_speed
    then some (record {
      state = bits (from_bytes_little payload) 71 1;
      operation = bits (from_bytes_little payload) 79 1;
    })
    else none
