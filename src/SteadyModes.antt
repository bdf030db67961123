-- ===== src/SteadyModes.antt =====
-- Gel, RGBW and CIE-XY steady modes, commands 3 to 5
-- (custom_components/amaran_ble/amaranble/steady_modes.py). An `IntEnum` of one bit is its value.
pub mod RoundTrip
mod Examples
use ha_amaran_ble.Base.{
  ℕ, ◌+◌, Bool, Option, none, some, List, [], ◌∷◌, Result, ok, ◌>>=◌, if◌then◌else◌, length, ◌==◌,
  get_or, bit_or, truthy,
}
use ha_amaran_ble.Base.Bits.{shl, low_bits}
use ha_amaran_ble.Base.Bytes.{Bytes, from_bytes_little}
use ha_amaran_ble.Packet.{
  Field, field, bits, or_fields, or_masked, finalize, has_header, one_bit, wire_value,
}

abbrev pub cmd_gel : ℕ
cmd_gel = 3

abbrev pub cmd_rgbw : ℕ
cmd_rgbw = 4

abbrev pub cmd_xy : ℕ
cmd_xy = 5

pub record GelState : Type 0 where
  pub on : Bool
  pub operation : ℕ
  pub intensity : ℕ
  pub cct_raw : ℕ
  pub origin : ℕ
  pub gel_type : ℕ
  pub color : ℕ

pub record RgbwState : Type 0 where
  pub on : Bool
  pub operation : ℕ
  pub intensity : ℕ
  pub red_raw : ℕ
  pub green_raw : ℕ
  pub blue_raw : ℕ
  pub warm_white_raw : ℕ
  pub cool_white_raw : ℕ

pub record XyState : Type 0 where
  pub on : Bool
  pub operation : ℕ
  pub intensity : ℕ
  pub x_raw : ℕ
  pub y_raw : ℕ

pub data SteadyModeState : Type 0 where
  gel : GelState → SteadyModeState
  rgbw : RgbwState → SteadyModeState
  xy : XyState → SteadyModeState

unfoldable pub build_payload : ℕ → ℕ → List Field → Result Bytes
build_payload command operation fields = do
  wire_operation ← one_bit operation
  finalize (or_fields (or_masked 0 fields) (field command 72 7 ∷ field wire_operation 79 1 ∷ []))

-- The packet, its `on` bit and its operation.
pub record Header : Type 0 where
  pub packet : ℕ
  pub on : Bool
  pub operation : ℕ

unfoldable pub decode_header : Bytes → ℕ → Option Header
decode_header payload command =
    let packet = from_bytes_little payload in
    if has_header payload command
    then some
        (record { packet = packet; on = truthy (bits packet 8 1); operation = bits packet 79 1 })
    else none

unfoldable pub build_gel : ℕ → ℕ → ℕ → ℕ → ℕ → ℕ → ℕ → Result Bytes
build_gel intensity cct_raw origin gel_type color on operation = do
  on_value ← wire_value on 1
  color_value ← wire_value color 10
  type_value ← wire_value gel_type 4
  origin_value ← one_bit origin
  cct_value ← wire_value cct_raw 10
  intensity_value ← wire_value intensity 10
  build_payload cmd_gel operation (
      field on_value 8 1
      ∷ field color_value 37 10
      ∷ field type_value 47 4
      ∷ field origin_value 51 1
      ∷ field cct_value 52 10
      ∷ field intensity_value 62 10
      ∷ [])

abbrev pub gel_of : Option Header → Option GelState
gel_of none = none
gel_of (some h) = some (record {
  on = h.on;
  operation = h.operation;
  intensity = bits h.packet 62 10;
  cct_raw = bits h.packet 52 10;
  origin = bits h.packet 51 1;
  gel_type = bits h.packet 47 4;
  color = bits h.packet 37 10;
})

unfoldable pub decode_gel : Bytes → Option GelState
decode_gel payload = gel_of (decode_header payload cmd_gel)

unfoldable pub build_rgbw : ℕ → ℕ → ℕ → ℕ → ℕ → ℕ → ℕ → ℕ → Result Bytes
build_rgbw intensity red_raw green_raw blue_raw warm_white_raw cool_white_raw on operation = do
  on_value ← wire_value on 1
  intensity_value ← wire_value intensity 10
  cool_value ← wire_value cool_white_raw 10
  warm_value ← wire_value warm_white_raw 10
  blue_value ← wire_value blue_raw 10
  green_value ← wire_value green_raw 10
  red_value ← wire_value red_raw 10
  build_payload cmd_rgbw operation (
      field on_value 8 1
      ∷ field intensity_value 12 10
      ∷ field cool_value 22 10
      ∷ field warm_value 32 10
      ∷ field blue_value 42 10
      ∷ field green_value 52 10
      ∷ field red_value 62 10
      ∷ [])

abbrev pub rgbw_of : Option Header → Option RgbwState
rgbw_of none = none
rgbw_of (some h) = some (record {
  on = h.on;
  operation = h.operation;
  intensity = bits h.packet 12 10;
  red_raw = bits h.packet 62 10;
  green_raw = bits h.packet 52 10;
  blue_raw = bits h.packet 42 10;
  warm_white_raw = bits h.packet 32 10;
  cool_white_raw = bits h.packet 22 10;
})

unfoldable pub decode_rgbw : Bytes → Option RgbwState
decode_rgbw payload = rgbw_of (decode_header payload cmd_rgbw)

unfoldable pub build_xy : ℕ → ℕ → ℕ → ℕ → ℕ → Result Bytes
build_xy intensity x_raw y_raw on operation = do
  on_value ← wire_value on 1
  y_value ← wire_value y_raw 14
  x_value ← wire_value x_raw 14
  intensity_value ← wire_value intensity 10
  build_payload cmd_xy operation (
      field on_value 8 1
      ∷ field y_value 34 14
      ∷ field x_value 48 14
      ∷ field intensity_value 62 10
      ∷ [])

abbrev pub xy_of : Option Header → Option XyState
xy_of none = none
xy_of (some h) = some (record {
  on = h.on;
  operation = h.operation;
  intensity = bits h.packet 62 10;
  x_raw = bits h.packet 48 14;
  y_raw = bits h.packet 34 14;
})

unfoldable pub decode_xy : Bytes → Option XyState
decode_xy payload = xy_of (decode_header payload cmd_xy)

abbrev pub as_mode {ℓ} : {A : Type ℓ} → (A → SteadyModeState) → Option A → Option SteadyModeState
as_mode f none = none
as_mode f (some a) = some (f a)

unfoldable pub decode_steady_mode : Bytes → Option SteadyModeState
decode_steady_mode payload =
    let command = low_bits (get_or payload 9 0) 7 in
    if length payload == 10
    then if command == cmd_gel
      then as_mode gel (decode_gel payload)
      else if command == cmd_rgbw
      then as_mode rgbw (decode_rgbw payload)
      else if command == cmd_xy
      then as_mode xy (decode_xy payload)
      else none
    else none
