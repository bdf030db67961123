-- ===== src/Partition/Effect.antt =====
-- Commands 36 and 38 and the dispatcher over the three partition commands
-- (custom_components/amaran_ble/amaranble/partition.py).
use ha_amaran_ble.Base.{
  ℕ, ◌-◌, Option, none, some, [], ◌∷◌, Result, ◌>>=◌, if◌then◌else◌, length, ◌==◌, get_or,
}
use ha_amaran_ble.Base.Bits.{low_bits}
use ha_amaran_ble.Base.Bytes.{Bytes}
use ha_amaran_ble.Packet.{field, bits, wire_value}
use ha_amaran_ble.Partition.{
  cmd_partition_color, cmd_partition_effect, cmd_partition_config, op_read, op_write,
  PartitionEffectState, PartitionConfigState, PartitionState, color, effect, config, Header,
  build_payload, decode_header, decode_partition_color,
}

-- The arguments, in the order of the source's keywords.
unfoldable pub build_partition_effect : ℕ → ℕ → ℕ → ℕ → ℕ → ℕ → ℕ → ℕ → ℕ → ℕ → Result Bytes
build_partition_effect intensity_min_raw trigger_mode_input_raw frequency_max_raw frequency_min_raw
      interval_max_raw interval_min_raw lasting_max_raw lasting_min_raw fx_mode_raw operation =
    do
      trigger_input ← wire_value trigger_mode_input_raw 1
      op ← wire_value operation 1
      intensity_min ← wire_value intensity_min_raw 7
      frequency_max ← wire_value frequency_max_raw 5
      frequency_min ← wire_value frequency_min_raw 5
      interval_max ← wire_value interval_max_raw 7
      interval_min ← wire_value interval_min_raw 7
      lasting_max ← wire_value lasting_max_raw 7
      lasting_min ← wire_value lasting_min_raw 7
      fx_mode ← wire_value fx_mode_raw 2
      build_payload cmd_partition_effect op (
          field intensity_min 24 7
          ∷ field (1 - trigger_input) 31 1
          ∷ field frequency_max 32 5
          ∷ field frequency_min 37 5
          ∷ field interval_max 42 7
          ∷ field interval_min 49 7
          ∷ field lasting_max 56 7
          ∷ field lasting_min 63 7
          ∷ field fx_mode 70 2
          ∷ [])

abbrev pub effect_of : Option Header → Option PartitionEffectState
effect_of none = none
effect_of (some h) =
    if bits h.packet 8 16 == 0
    then some (record {
      operation = h.operation;
      intensity_min_raw = bits h.packet 24 7;
      trigger_mode_wire_raw = bits h.packet 31 1;
      frequency_max_raw = bits h.packet 32 5;
      frequency_min_raw = bits h.packet 37 5;
      interval_max_raw = bits h.packet 42 7;
      interval_min_raw = bits h.packet 49 7;
      lasting_max_raw = bits h.packet 56 7;
      lasting_min_raw = bits h.packet 63 7;
      fx_mode_raw = bits h.packet 70 2;
    })
    else none

unfoldable pub decode_partition_effect : Bytes → Option PartitionEffectState
decode_partition_effect payload = effect_of (decode_header payload cmd_partition_effect)

unfoldable pub build_partition_config_read : Result Bytes
build_partition_config_read = build_payload cmd_partition_config op_read []

unfoldable pub build_partition_config_write : ℕ → Result Bytes
build_partition_config_write xy_mode_raw = do
  xy_mode ← wire_value xy_mode_raw 4
  build_payload cmd_partition_config op_write (field xy_mode 68 4 ∷ [])

abbrev pub config_of : Option Header → Option PartitionConfigState
config_of none = none
config_of (some h) =
    if bits h.packet 8 40 == 0
    then some (record {
      operation = h.operation;
      xy_mode_raw = bits h.packet 68 4;
      pixel_x1_raw = bits h.packet 64 4;
      pixel_y1_raw = bits h.packet 60 4;
      pixel_x2_raw = bits h.packet 54 6;
      pixel_y2_raw = bits h.packet 48 6;
    })
    else none

unfoldable pub decode_partition_config : Bytes → Option PartitionConfigState
decode_partition_config payload = config_of (decode_header payload cmd_partition_config)

abbrev pub as_state {ℓ} : {A : Type ℓ} → (A → PartitionState) → Option A → Option PartitionState
as_state f none = none
as_state f (some a) = some (f a)

unfoldable pub decode_partition : Bytes → Option PartitionState
decode_partition payload =
    let command = low_bits (get_or payload 9 0) 7 in
    if length payload == 10
    then if command == cmd_partition_color
      then as_state color (decode_partition_color payload)
      else if command == cmd_partition_effect
      then as_state effect (decode_partition_effect payload)
      else if command == cmd_partition_config
      then as_state config (decode_partition_config payload)
      else none
    else none
