-- ===== src/Partition.antt =====
-- Legacy partition commands 35, 36 and 38
-- (custom_components/amaran_ble/amaranble/partition.py). An `IntEnum` of one bit is its value.
pub mod Effect
pub mod Indexes
pub mod RoundTrip
mod Examples
use ha_amaran_ble.Base.{
  ℕ, zero, suc, ◌+◌, ◌-◌, Bool, true, false, ◌||◌, Option, none, some, List, [], ◌∷◌, Result, ok,
  err, guard, not, value_error, ◌>>=◌, ◌>>◌, if◌then◌else◌, length, ◌==◌, leb, get_or, bit_or,
}
use ha_amaran_ble.Base.Bits.{shl, low_bits}
use ha_amaran_ble.Base.Bytes.{Bytes, from_bytes_little}
use ha_amaran_ble.Packet.{Field, field, bits, or_fields, finalize, has_header, wire_value}

abbrev pub cmd_partition_color : ℕ
cmd_partition_color = 35

abbrev pub cmd_partition_effect : ℕ
cmd_partition_effect = 36

abbrev pub cmd_partition_config : ℕ
cmd_partition_config = 38

-- `PartitionOperation` and `PartitionLightMode`.
abbrev pub op_read : ℕ
op_read = 0

abbrev pub op_write : ℕ
op_write = 1

abbrev pub mode_cct : ℕ
mode_cct = 0

abbrev pub mode_hsi : ℕ
mode_hsi = 1

pub record PartitionColorState : Type 0 where
  pub light_mode : ℕ
  pub intensity_raw : ℕ
  pub fx_state_raw : ℕ
  pub indexes_list : List ℕ
  pub cct_raw : Option ℕ
  pub duv_raw : Option ℕ
  pub hue_raw : Option ℕ
  pub saturation_raw : Option ℕ

pub record PartitionEffectState : Type 0 where
  pub operation : ℕ
  pub intensity_min_raw : ℕ
  pub trigger_mode_wire_raw : ℕ
  pub frequency_max_raw : ℕ
  pub frequency_min_raw : ℕ
  pub interval_max_raw : ℕ
  pub interval_min_raw : ℕ
  pub lasting_max_raw : ℕ
  pub lasting_min_raw : ℕ
  pub fx_mode_raw : ℕ

abbrev pub trigger_mode_input_raw : PartitionEffectState → ℕ
trigger_mode_input_raw state = 1 - state.trigger_mode_wire_raw

pub record PartitionConfigState : Type 0 where
  pub operation : ℕ
  pub xy_mode_raw : ℕ
  pub pixel_x1_raw : ℕ
  pub pixel_y1_raw : ℕ
  pub pixel_x2_raw : ℕ
  pub pixel_y2_raw : ℕ

pub data PartitionState : Type 0 where
  color : PartitionColorState → PartitionState
  effect : PartitionEffectState → PartitionState
  config : PartitionConfigState → PartitionState

unfoldable pub build_payload : ℕ → ℕ → List Field → Result Bytes
build_payload command operation fields =
    finalize (or_fields (shl command 72) (field operation 79 1 ∷ fields))

-- The packet and its operation.
pub record Header : Type 0 where
  pub packet : ℕ
  pub operation : ℕ

unfoldable pub decode_header : Bytes → ℕ → Option Header
decode_header payload command =
    if has_header payload command
    then some (record {
      packet = from_bytes_little payload;
      operation = bits (from_bytes_little payload) 79 1;
    })
    else none

-- index in seen
unfoldable pub contains : ℕ → List ℕ → Bool
contains index [] = false
contains index (x ∷ xs) = (index == x) || contains index xs

unfoldable pub mask_onto : ℕ → List ℕ → List ℕ → Result ℕ
mask_onto mask seen [] = ok mask
mask_onto mask seen (index ∷ rest) = do
  guard (leb index 35) value_error
  guard (not (contains index seen)) value_error
  mask_onto (bit_or mask (shl 1 (35 - index))) (index ∷ seen) rest

unfoldable pub index_mask : List ℕ → Result ℕ
index_mask selected = mask_onto 0 [] selected

-- tuple(index for index in range(36) if mask & (1 << (35 - index))), from `index` on: the test
-- reads the one bit.
unfoldable pub indexes_from : ℕ → ℕ → ℕ → List ℕ
indexes_from mask index zero = []
indexes_from mask index (suc count) =
    if bits mask (35 - index) 1 == 1
    then index ∷ indexes_from mask (suc index) count
    else indexes_from mask (suc index) count

unfoldable pub indexes : ℕ → List ℕ
indexes mask = indexes_from mask 0 36

unfoldable pub build_partition_color_cct : List ℕ → ℕ → ℕ → ℕ → ℕ → Result Bytes
build_partition_color_cct selected intensity_raw cct_raw duv_raw fx_state_raw = do
  duv ← wire_value duv_raw 8
  cct ← wire_value cct_raw 8
  intensity ← wire_value intensity_raw 10
  fx_state ← wire_value fx_state_raw 1
  mask ← index_mask selected
  build_payload cmd_partition_color op_write (
      field duv 8 8
      ∷ field cct 16 8
      ∷ field intensity 24 10
      ∷ field mode_cct 34 1
      ∷ field fx_state 35 1
      ∷ field mask 36 36
      ∷ [])

unfoldable pub build_partition_color_hsi : List ℕ → ℕ → ℕ → ℕ → ℕ → Result Bytes
build_partition_color_hsi selected intensity_raw hue_raw saturation_raw fx_state_raw = do
  saturation ← wire_value saturation_raw 7
  hue ← wire_value hue_raw 9
  intensity ← wire_value intensity_raw 10
  fx_state ← wire_value fx_state_raw 1
  mask ← index_mask selected
  build_payload cmd_partition_color op_write (
      field saturation 8 7
      ∷ field hue 15 9
      ∷ field intensity 24 10
      ∷ field mode_hsi 34 1
      ∷ field fx_state 35 1
      ∷ field mask 36 36
      ∷ [])

abbrev pub color_cct : ℕ → PartitionColorState
color_cct packet = record {
  light_mode = bits packet 34 1;
  intensity_raw = bits packet 24 10;
  fx_state_raw = bits packet 35 1;
  indexes_list = indexes (bits packet 36 36);
  cct_raw = some (bits packet 8 8);
  duv_raw = some (bits packet 16 8);
  hue_raw = none;
  saturation_raw = none;
}

abbrev pub color_hsi : ℕ → PartitionColorState
color_hsi packet = record {
  light_mode = bits packet 34 1;
  intensity_raw = bits packet 24 10;
  fx_state_raw = bits packet 35 1;
  indexes_list = indexes (bits packet 36 36);
  cct_raw = none;
  duv_raw = none;
  hue_raw = some (bits packet 15 9);
  saturation_raw = some (bits packet 8 7);
}

abbrev pub color_of : Option Header → Option PartitionColorState
color_of none = none
color_of (some h) =
    if h.operation == op_write
    then if bits h.packet 34 1 == mode_cct
      then some (color_cct h.packet)
      else some (color_hsi h.packet)
    else none

unfoldable pub decode_partition_color : Bytes → Option PartitionColorState
decode_partition_color payload = color_of (decode_header payload cmd_partition_color)
