-- ===== src/Motion.antt =====
-- The opaque command-43 and command-44 frames
-- (custom_components/amaran_ble/amaranble/motion.py).
pub mod RoundTrip
mod Examples
use ha_amaran_ble.Base.{
  ℕ, ◌%◌, Option, none, some, List, [], ◌∷◌, ◌++◌, Result, guard, ok, value_error, ◌>>=◌, ◌>>◌,
  if◌then◌else◌, length, ◌==◌, get_or, bit_or,
}
use ha_amaran_ble.Base.Bits.{shl, shr, low_bits}
use ha_amaran_ble.Base.Bytes.{Bytes, slice, sum}
use ha_amaran_ble.Packet.{has_header, one_bit}

abbrev pub cmd_motion_config : ℕ
cmd_motion_config = 43

abbrev pub cmd_motion_live : ℕ
cmd_motion_live = 44

abbrev pub data_length : ℕ
data_length = 8

-- `MotionConfigMessage` and `MotionLiveMessage` have the same fields.
pub record MotionFrame : Type 0 where
  pub data_raw : Bytes
  pub operation : ℕ

pub data MotionMessage : Type 0 where
  motion_config : MotionFrame → MotionMessage
  motion_live : MotionFrame → MotionMessage

abbrev pub validate_data : Bytes → Result Bytes
validate_data data_raw = guard (length data_raw == data_length) value_error >> ok data_raw

-- payload[1:9] = data; payload[9] = command_byte; payload[0] is their sum.
abbrev pub with_command : Bytes → ℕ → Bytes
with_command body command_byte = let rest = body ++ (command_byte ∷ []) in sum rest % 256 ∷ rest

unfoldable pub build : ℕ → Bytes → ℕ → Result Bytes
build command data_raw operation = do
  body ← validate_data data_raw
  wire_operation ← one_bit operation
  ok (with_command body (bit_or command (shl wire_operation 7)))

abbrev pub build_motion_config : Bytes → ℕ → Result Bytes
build_motion_config data_raw operation = build cmd_motion_config data_raw operation

abbrev pub build_motion_live : Bytes → ℕ → Result Bytes
build_motion_live data_raw operation = build cmd_motion_live data_raw operation

-- The operation of a frame whose header is right.
unfoldable pub decode_header : Bytes → ℕ → Option ℕ
decode_header payload command =
    if has_header payload command then some (low_bits (shr (get_or payload 9 0) 7) 1) else none

abbrev pub frame_of : Bytes → Option ℕ → Option MotionFrame
frame_of payload none = none
frame_of payload (some operation) =
    some (record { data_raw = slice 1 9 payload; operation = operation })

abbrev pub as_config : Option MotionFrame → Option MotionMessage
as_config none = none
as_config (some m) = some (motion_config m)

abbrev pub as_live : Option MotionFrame → Option MotionMessage
as_live none = none
as_live (some m) = some (motion_live m)

unfoldable pub decode_motion_config : Bytes → Option MotionFrame
decode_motion_config payload = frame_of payload (decode_header payload cmd_motion_config)

unfoldable pub decode_motion_live : Bytes → Option MotionFrame
decode_motion_live payload = frame_of payload (decode_header payload cmd_motion_live)

unfoldable pub decode_motion : Bytes → Option MotionMessage
decode_motion payload =
    let command = low_bits (get_or payload 9 0) 7 in
    if length payload == 10
    then if command == cmd_motion_config
      then as_config (decode_motion_config payload)
      else if command == cmd_motion_live
      then as_live (decode_motion_live payload)
      else none
    else none
