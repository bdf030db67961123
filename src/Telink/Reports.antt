-- ===== src/Telink/Reports.antt =====
-- Boost and fan commands and their reports
-- (custom_components/amaran_ble/amaranble/telink.py).
use ha_amaran_ble.Base.{
  ℕ, ◌*◌, ◌/◌, Bool, true, false, Option, none, some, List, [], ◌∷◌, Result, if◌then◌else◌, truthy,
  bool_to_nat, get_elem?,
}
use ha_amaran_ble.Base.Bytes.{Bytes}
use ha_amaran_ble.Packet.{field, has_header}
use ha_amaran_ble.Telink.{build_payload, get_bits, clamp_round}

abbrev pub cmd_boost : ℕ
cmd_boost = 0x46

abbrev pub cmd_fan : ℕ
cmd_fan = 0x09

abbrev pub ace_boost_min_kelvin : ℕ
ace_boost_min_kelvin = 3800

abbrev pub ace_boost_max_kelvin : ℕ
ace_boost_max_kelvin = 5500

pub record BoostState : Type 0 where
  pub enabled : Bool
  pub kelvin : ℕ
  pub gm : ℕ

unfoldable pub boost : Bool → ℕ → ℕ → Result Bytes
boost enabled kelvin gm =
    build_payload cmd_boost
      (field (clamp_round gm 0 255) 52 8
        ∷ field (clamp_round kelvin ace_boost_min_kelvin ace_boost_max_kelvin / 10) 60 11
        ∷ field (bool_to_nat enabled) 71 1
        ∷ [])
      true

unfoldable pub decode_boost : Bytes → Option BoostState
decode_boost payload =
    if has_header payload cmd_boost
    then some (record {
      enabled = truthy (get_bits payload 71 1);
      kelvin = get_bits payload 60 11 * 10;
      gm = get_bits payload 52 8;
    })
    else none

pub data FanMode : Type 0 where
  manual smart max_speed off high medium low silent : FanMode

abbrev pub fan_mode_id : FanMode → ℕ
fan_mode_id manual = 0
fan_mode_id smart = 1
fan_mode_id max_speed = 2
fan_mode_id off = 3
fan_mode_id high = 4
fan_mode_id medium = 5
fan_mode_id low = 6
fan_mode_id silent = 7

abbrev pub fan_support_bit : FanMode → ℕ
fan_support_bit silent = 28
fan_support_bit low = 29
fan_support_bit medium = 30
fan_support_bit high = 31
fan_support_bit off = 32
fan_support_bit max_speed = 33
fan_support_bit smart = 34
fan_support_bit manual = 35

-- The members of `FanMode` in their order, which is also that of their ids.
abbrev pub fan_modes : List FanMode
fan_modes = manual ∷ smart ∷ max_speed ∷ off ∷ high ∷ medium ∷ low ∷ silent ∷ []

pub record FanState : Type 0 where
  pub mode : FanMode
  pub fixture_speed : ℕ
  pub current_temperature_raw : ℕ
  pub high_temperature_raw : ℕ
  pub supported_modes : List FanMode

unfoldable pub fan : FanMode → ℕ → Result Bytes
fan mode fixture_speed =
    build_payload cmd_fan
      (field (clamp_round fixture_speed 0 1000) 48 16 ∷ field (fan_mode_id mode) 64 8 ∷ []) true

unfoldable pub fan_request : Result Bytes
fan_request = build_payload cmd_fan [] false

abbrev pub supported : Bytes → List FanMode → List FanMode
supported payload [] = []
supported payload (candidate ∷ rest) =
    if truthy (get_bits payload (fan_support_bit candidate) 1)
    then candidate ∷ supported payload rest
    else supported payload rest

abbrev pub fan_state : Bytes → Option FanMode → Option FanState
fan_state payload none = none
fan_state payload (some mode) = some (record {
  mode = mode;
  fixture_speed = get_bits payload 48 16;
  current_temperature_raw = get_bits payload 40 8;
  high_temperature_raw = get_bits payload 36 4;
  supported_modes = supported payload fan_modes;
})

unfoldable pub decode_fan : Bytes → Option FanState
decode_fan payload =
    if has_header payload cmd_fan
    then fan_state payload (get_elem? fan_modes (get_bits payload 64 8))
    else none
