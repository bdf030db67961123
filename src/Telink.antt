-- ===== src/Telink.antt =====
-- amaran's light control messages (custom_components/amaran_ble/amaranble/telink.py): the packet,
-- the clamped arguments of the effect builder and, in the modules below, the layouts, commands and
-- reports. Arguments that the source takes as floats are integers here, on which its rounding does
-- nothing.
pub mod Effects
pub mod Decode
pub mod RoundTrip
pub mod Reports
pub mod Status
pub mod Dispatch
mod Examples
use ha_amaran_ble.Base.{
  ℕ, ◌+◌, ◌-◌, ◌*◌, ◌/◌, min, max, Bool, true, false, Option, none, some, List, [], ◌∷◌, ◌++◌,
  Result, ltb, leb, ◌==◌, if◌then◌else◌, take, bool_to_nat,
}
use ha_amaran_ble.Base.Bits.{low_bits}
use ha_amaran_ble.Base.Bytes.{Bytes, from_bytes_little}
use ha_amaran_ble.Packet.{Field, field, bits, or_fields, or_masked, finalize}

abbrev pub cmd_system_effect : ℕ
cmd_system_effect = 0x07

abbrev pub min_kelvin : ℕ
min_kelvin = 800

abbrev pub max_kelvin : ℕ
max_kelvin = 20000

abbrev pub max_intensity : ℕ
max_intensity = 1000

pub data SystemEffect : Type 0 where
  off club_lights paparazzi fireworks faulty_bulb lightning tv candle pulsing strobe explosion fire
        welding cop_car color_chase party_lights :
      SystemEffect

abbrev pub effect_id : SystemEffect → ℕ
effect_id club_lights = 0
effect_id paparazzi = 1
effect_id lightning = 2
effect_id tv = 3
effect_id candle = 4
effect_id fire = 5
effect_id strobe = 6
effect_id explosion = 7
effect_id faulty_bulb = 8
effect_id pulsing = 9
effect_id welding = 10
effect_id cop_car = 11
effect_id color_chase = 12
effect_id party_lights = 13
effect_id fireworks = 14
effect_id off = 15

abbrev pub build_payload : ℕ → List Field → Bool → Result Bytes
build_payload command fields write = finalize (
    or_fields (or_masked 0 fields)
      (field (low_bits command 7) 72 7 ∷ field (bool_to_nat write) 79 1 ∷ []))

unfoldable pub get_bits : Bytes → ℕ → ℕ → ℕ
get_bits payload start width = bits (from_bytes_little (take 10 payload)) start width

abbrev pub clamp_round : ℕ → ℕ → ℕ → ℕ
clamp_round value low high = max low (min high value)

-- Division by ten truncates above neutral, and rounds half up at and below it.
abbrev pub coarse_gm_value : ℕ → ℕ
coarse_gm_value app_gm =
    let value = min 200 app_gm in if ltb 100 value then value / 10 else (value + 5) / 10

-- The keyword arguments of `effect`.
pub record EffectArguments : Type 0 where
  pub intensity : ℕ
  pub frequency : ℕ
  pub speed : Option ℕ
  pub trigger : Option ℕ
  pub kelvin : ℕ
  pub gm : ℕ
  pub gm_flag : Bool
  pub variant : Option ℕ
  pub mode : Option ℕ
  pub hue : ℕ
  pub saturation : Option ℕ

abbrev pub or_default : Option ℕ → ℕ → ℕ
or_default none d = d
or_default (some n) d = n

abbrev pub maximum_frequency : SystemEffect → ℕ
maximum_frequency club_lights = 10
maximum_frequency candle = 10
maximum_frequency fire = 10
maximum_frequency explosion = 10
maximum_frequency color_chase = 10
maximum_frequency party_lights = 10
maximum_frequency _ = 11

abbrev pub speed_of : SystemEffect → Option ℕ → ℕ
speed_of welding speed = clamp_round (or_default speed 18) 0 127
speed_of _ speed = clamp_round (or_default speed 5) 1 10

abbrev pub default_trigger : SystemEffect → ℕ
default_trigger lightning = 2
default_trigger strobe = 2
default_trigger explosion = 1
default_trigger faulty_bulb = 2
default_trigger pulsing = 2
default_trigger welding = 2
default_trigger _ = 0

abbrev pub default_variant : SystemEffect → ℕ
default_variant cop_car = 2
default_variant _ = 0

abbrev pub variant_of : SystemEffect → ℕ → ℕ
variant_of tv v = clamp_round v 0 2
variant_of candle v = clamp_round v 0 2
variant_of fire v = clamp_round v 0 2
variant_of fireworks v = clamp_round v 0 2
variant_of club_lights v = clamp_round v 0 7
variant_of cop_car v = clamp_round v 0 4
variant_of _ v = 0

-- The local variables of `effect`, as they stand when the packet is built; `tens` is kelvin / 10,
-- and `shift` the G/M value, exact with the flag, coarse without.
pub record EffectValues : Type 0 where
  pub value : ℕ
  pub rate : ℕ
  pub speed : ℕ
  pub trigger : ℕ
  pub tens : ℕ
  pub exact : Bool
  pub shift : ℕ
  pub variant : ℕ
  pub mode : ℕ
  pub hue : ℕ
  pub saturation : ℕ

unfoldable pub effect_values : SystemEffect → EffectArguments → EffectValues
effect_values selected a = record {
  value = clamp_round a.intensity 0 max_intensity;
  rate = clamp_round a.frequency 1 (maximum_frequency selected);
  speed = speed_of selected a.speed;
  trigger = clamp_round (or_default a.trigger (default_trigger selected)) 0 3;
  tens = clamp_round a.kelvin min_kelvin max_kelvin / 10;
  exact = a.gm_flag;
  shift = if a.gm_flag then clamp_round a.gm 0 200 else coarse_gm_value a.gm;
  variant = variant_of selected (or_default a.variant (default_variant selected));
  mode = clamp_round (or_default a.mode 1) 0 1;
  hue = clamp_round a.hue 0 360;
  saturation = clamp_round (or_default a.saturation 100) 0 100;
}

abbrev pub high_cct : EffectValues → ℕ
high_cct v = bool_to_nat (ltb 1000 v.tens)

abbrev pub cct_value : EffectValues → ℕ
cct_value v = if ltb 1000 v.tens then v.tens - 1000 else v.tens

abbrev pub gm_high : EffectValues → ℕ
gm_high v = if v.exact then bool_to_nat (ltb 100 v.shift) else 0

abbrev pub gm_low : EffectValues → ℕ
gm_low v = if v.exact then (if ltb 100 v.shift then v.shift - 100 else v.shift) else v.shift
