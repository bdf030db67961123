-- ===== src/Telink/Dispatch.antt =====
-- The power and version reports, and the dispatcher
-- (custom_components/amaran_ble/amaranble/telink.py, `decode_power`, `decode_version`,
-- `decode_version2` and `decode_report`).
use ha_amaran_ble.Base.{
  ℕ, ◌%◌, Bool, false, not, ◌&&◌, ◌||◌, Option, none, some, List, [], ◌∷◌, Result, ◌==◌, leb,
  if◌then◌else◌, truthy, length, drop, get_or,
}
use ha_amaran_ble.Base.Bits.{low_bits}
use ha_amaran_ble.Base.Bytes.{Bytes, sum}
use ha_amaran_ble.Packet.{field, has_header}
use ha_amaran_ble.Telink.{build_payload, get_bits, cmd_system_effect}
use ha_amaran_ble.Telink.Effects.{EffectState}
use ha_amaran_ble.Telink.Decode.{decode_effect}
use ha_amaran_ble.Telink.Reports.{
  cmd_boost, cmd_fan, BoostState, FanState, decode_boost, decode_fan,
}
use ha_amaran_ble.Telink.Status.{cmd_hsi, cmd_cct, LightState, decode_status}

abbrev pub cmd_version : ℕ
cmd_version = 0x00

abbrev pub cmd_power : ℕ
cmd_power = 0x0A

abbrev pub cmd_version_2 : ℕ
cmd_version_2 = 0x25

pub data PowerSource : Type 0 where
  battery external : PowerSource

pub record PowerState : Type 0 where
  pub source : PowerSource
  pub power_state_raw : Bool
  pub battery_percent : ℕ
  pub runtime_minutes : ℕ
  pub battery_voltage_raw : ℕ
  pub external_voltage_raw : ℕ

pub record VersionState : Type 0 where
  pub protocol_version : ℕ
  pub function : ℕ
  pub led_type : ℕ
  pub cct_low_raw : ℕ
  pub cct_high_raw : ℕ
  pub machine : ℕ
  pub manual_fx_supported : Bool
  pub program_fx_supported : Bool
  pub picker_fx_supported : Bool
  pub touchbar_fx_supported : Bool
  pub music_fx_supported : Bool
  pub control_hardware_version_raw : ℕ
  pub control_software_version_raw : ℕ
  pub driver_hardware_version_raw : ℕ
  pub driver_software_version_raw : ℕ
  pub upgrade_type : ℕ
  pub gatt_version : ℕ

pub record Version2State : Type 0 where
  pub system_effects_2_supported : Bool
  pub system_effect_groups : List Bool
  pub pixel_effects_supported : Bool
  pub pixel_effect_groups : List Bool
  pub pixel_x1 : ℕ
  pub pixel_y1 : ℕ
  pub pixel_x2 : ℕ
  pub pixel_y2 : ℕ
  pub effect_active : Bool
  pub sleeping : Bool
  pub pixel_num : ℕ
  pub motion_supported : Bool

unfoldable pub power_request : Result Bytes
power_request = build_payload cmd_power (field 1 8 24 ∷ []) false

unfoldable pub version_request : Result Bytes
version_request = build_payload cmd_version [] false

unfoldable pub version2_request : Result Bytes
version2_request = build_payload cmd_version_2 [] false

abbrev pub flag : Bytes → ℕ → Bool
flag payload bit = truthy (get_bits payload bit 1)

-- Protocol 42 widened the runtime from 9 to 12 bits.
unfoldable pub decode_power : Bytes → ℕ → Option PowerState
decode_power payload protocol_version =
    if has_header payload cmd_power
    then some (record {
      source = if truthy (get_bits payload 56 16) then external else battery;
      power_state_raw = flag payload 20;
      battery_percent = get_bits payload 33 7;
      runtime_minutes =
          if leb 42 protocol_version then get_bits payload 21 12 else get_bits payload 24 9;
      battery_voltage_raw = get_bits payload 40 16;
      external_voltage_raw = get_bits payload 56 16;
    })
    else none

-- Old CCT fixtures report two limits that differ, and mean 5600 K by it.
abbrev pub is_old_cct : Bytes → Bool
is_old_cct payload =
    (get_bits payload 62 4 == 0) && not (get_bits payload 50 7 == get_bits payload 43 7)

unfoldable pub decode_version : Bytes → Option VersionState
decode_version payload =
    if has_header payload cmd_version
    then some (record {
      protocol_version = get_bits payload 66 6;
      function = get_bits payload 62 4;
      led_type = get_bits payload 57 5;
      cct_low_raw = if is_old_cct payload then 56 else get_bits payload 50 7;
      cct_high_raw = if is_old_cct payload then 56 else get_bits payload 43 7;
      machine = get_bits payload 39 4;
      manual_fx_supported = flag payload 38;
      program_fx_supported = flag payload 37;
      picker_fx_supported = flag payload 36;
      touchbar_fx_supported = flag payload 35;
      music_fx_supported = flag payload 34;
      control_hardware_version_raw = get_bits payload 28 6;
      control_software_version_raw = get_bits payload 22 6;
      driver_hardware_version_raw = get_bits payload 16 6;
      driver_software_version_raw = get_bits payload 10 6;
      upgrade_type = get_bits payload 9 1;
      gatt_version = get_bits payload 8 1;
    })
    else none

abbrev pub flags : Bytes → List ℕ → List Bool
flags payload [] = []
flags payload (bit ∷ rest) = flag payload bit ∷ flags payload rest

unfoldable pub decode_version2 : Bytes → Option Version2State
decode_version2 payload =
    if has_header payload cmd_version_2
    then some (record {
      system_effects_2_supported = flag payload 71;
      system_effect_groups = flags payload (70 ∷ 69 ∷ 68 ∷ 67 ∷ 66 ∷ 65 ∷ 64 ∷ 63 ∷ []);
      pixel_effects_supported = flag payload 62;
      pixel_effect_groups = flags payload (61 ∷ 60 ∷ 59 ∷ 58 ∷ 57 ∷ 56 ∷ 55 ∷ []);
      pixel_x1 = get_bits payload 51 4;
      pixel_y1 = get_bits payload 47 4;
      pixel_x2 = get_bits payload 41 6;
      pixel_y2 = get_bits payload 35 6;
      effect_active = flag payload 34;
      sleeping = flag payload 33;
      pixel_num = get_bits payload 29 4;
      motion_supported = flag payload 28;
    })
    else none

pub data ProtocolReport : Type 0 where
  light : LightState → ProtocolReport
  effect : EffectState → ProtocolReport
  boost : BoostState → ProtocolReport
  fan : FanState → ProtocolReport
  power : PowerState → ProtocolReport
  version : VersionState → ProtocolReport
  version2 : Version2State → ProtocolReport

abbrev pub as_report : {A : Type 0} → (A → ProtocolReport) → Option A → Option ProtocolReport
as_report make none = none
as_report make (some state) = some (make state)

-- len(payload) != 10 or payload[0] != sum(payload[1:10]) & 0xFF, negated
abbrev pub is_sound : Bytes → Bool
is_sound payload = (length payload == 10) && (get_or payload 0 0 == sum (drop 1 payload) % 256)

abbrev pub command_of : Bytes → ℕ
command_of payload = low_bits (get_or payload 9 0) 7

unfoldable pub decode_report : Bytes → ℕ → Option ProtocolReport
decode_report payload protocol_version =
    let command = command_of payload in
    if not (is_sound payload)
    then none
    else if command == low_bits cmd_hsi 7 || command == low_bits cmd_cct 7
    then as_report light (decode_status payload)
    else if command == cmd_system_effect
    then as_report effect (decode_effect payload)
    else if command == cmd_boost
    then as_report boost (decode_boost payload)
    else if command == cmd_fan
    then as_report fan (decode_fan payload)
    else if command == cmd_power
    then as_report power (decode_power payload protocol_version)
    else if command == cmd_version
    then as_report version (decode_version payload)
    else if command == cmd_version_2
    then as_report version2 (decode_version2 payload)
    else none
