-- ===== src/Telink/Effects.antt =====
-- The layouts of the system effects, command 7
-- (custom_components/amaran_ble/amaranble/telink.py, `effect` and `decode_effect`).
use ha_amaran_ble.Base.{
  ℕ, Bool, true, false, Option, none, List, [], ◌∷◌, Result, ◌==◌, if◌then◌else◌, bool_to_nat,
}
use ha_amaran_ble.Base.Bytes.{Bytes}
use ha_amaran_ble.Packet.{Field, field}
use ha_amaran_ble.Telink.{
  cmd_system_effect, SystemEffect, off, club_lights, paparazzi, fireworks, faulty_bulb, lightning,
  tv, candle, pulsing, strobe, explosion, fire, welding, cop_car, color_chase, party_lights,
  effect_id, build_payload, EffectArguments, EffectValues, effect_values, high_cct, cct_value,
  gm_high, gm_low,
}

-- The rate and the intensity, where most effects have them.
abbrev pub upper_fields : EffectValues → List Field
upper_fields v = field v.rate 50 4 ∷ field v.value 54 10 ∷ []

-- The intensity, the rate and the mode, where the effects with two colour modes have them.
abbrev pub mode_fields : EffectValues → ℕ → List Field
mode_fields v mode = field v.value 46 10 ∷ field v.rate 56 4 ∷ field mode 60 4 ∷ []

abbrev pub colour_fields : EffectValues → List Field
colour_fields v = field v.saturation 30 7 ∷ field v.hue 37 9 ∷ mode_fields v v.mode

abbrev pub preset_fields : EffectValues → List Field
preset_fields v = field v.variant 46 4 ∷ upper_fields v

abbrev pub chase_fields : EffectValues → List Field
chase_fields v = field v.saturation 43 7 ∷ upper_fields v

abbrev pub kind_fields : EffectValues → List Field
kind_fields v = field v.variant 40 10 ∷ upper_fields v

abbrev pub fireworks_fields : EffectValues → List Field
fireworks_fields v = field v.variant 42 8 ∷ upper_fields v

abbrev pub paparazzi_fields : EffectValues → List Field
paparazzi_fields v =
    field (bool_to_nat v.exact) 31 1
    ∷ field (gm_high v) 32 1
    ∷ field (gm_low v) 33 7
    ∷ field (high_cct v) 30 1
    ∷ field (cct_value v) 40 10
    ∷ upper_fields v

abbrev pub lightning_fields : EffectValues → List Field
lightning_fields v =
    field (bool_to_nat v.exact) 25 1
    ∷ field (gm_high v) 26 1
    ∷ field v.speed 27 4
    ∷ field v.trigger 31 2
    ∷ field (gm_low v) 33 7
    ∷ field (high_cct v) 24 1
    ∷ field (cct_value v) 40 10
    ∷ upper_fields v

abbrev pub welding_colour : EffectValues → List Field
welding_colour v = field v.speed 21 7 ∷ field v.trigger 28 2 ∷ colour_fields v

abbrev pub welding_white : EffectValues → List Field
welding_white v =
    field (high_cct v) 17 1
    ∷ field (bool_to_nat v.exact) 18 1
    ∷ field (gm_high v) 19 1
    ∷ field v.speed 20 7
    ∷ field v.trigger 27 2
    ∷ field (gm_low v) 29 7
    ∷ field (cct_value v) 36 10
    ∷ mode_fields v v.mode

abbrev pub welding_fields : EffectValues → List Field
welding_fields v = if v.mode == 1 then welding_colour v else welding_white v

abbrev pub faulty_colour : EffectValues → List Field
faulty_colour v = field v.speed 24 4 ∷ field v.trigger 28 2 ∷ colour_fields v

abbrev pub faulty_white : EffectValues → List Field
faulty_white v =
    field (bool_to_nat v.exact) 21 1
    ∷ field (gm_high v) 22 1
    ∷ field v.speed 23 4
    ∷ field v.trigger 27 2
    ∷ field (gm_low v) 29 7
    ∷ field (high_cct v) 20 1
    ∷ field (cct_value v) 36 10
    ∷ mode_fields v 0

abbrev pub faulty_fields : EffectValues → List Field
faulty_fields v = if v.mode == 1 then faulty_colour v else faulty_white v

abbrev pub strobe_colour : EffectValues → List Field
strobe_colour v = field v.trigger 28 2 ∷ colour_fields v

abbrev pub strobe_white : EffectValues → List Field
strobe_white v =
    field (bool_to_nat v.exact) 25 1
    ∷ field (gm_high v) 26 1
    ∷ field v.trigger 27 2
    ∷ field (gm_low v) 29 7
    ∷ field (high_cct v) 24 1
    ∷ field (cct_value v) 36 10
    ∷ mode_fields v 0

abbrev pub strobe_fields : EffectValues → List Field
strobe_fields v = if v.mode == 1 then strobe_colour v else strobe_white v

abbrev pub layout_fields : SystemEffect → EffectValues → List Field
layout_fields off v = []
layout_fields club_lights v = preset_fields v
layout_fields cop_car v = preset_fields v
layout_fields color_chase v = chase_fields v
layout_fields party_lights v = chase_fields v
layout_fields candle v = kind_fields v
layout_fields tv v = kind_fields v
layout_fields fire v = kind_fields v
layout_fields fireworks v = fireworks_fields v
layout_fields paparazzi v = paparazzi_fields v
layout_fields lightning v = lightning_fields v
layout_fields welding v = welding_fields v
layout_fields faulty_bulb v = faulty_fields v
layout_fields pulsing v = faulty_fields v
layout_fields strobe v = strobe_fields v
layout_fields explosion v = strobe_fields v

unfoldable pub effect_off : Result Bytes
effect_off = build_payload cmd_system_effect (field (effect_id off) 64 8 ∷ []) true

unfoldable pub effect : SystemEffect → EffectArguments → Result Bytes
effect off a = effect_off
effect selected a =
    build_payload cmd_system_effect
      (field 1 8 1
        ∷ field (effect_id selected) 64 8
        ∷ layout_fields selected (effect_values selected a))
      true

pub record EffectState : Type 0 where
  pub on : Bool
  pub effect : SystemEffect
  pub intensity : ℕ
  pub frequency : ℕ
  pub speed : ℕ
  pub trigger : ℕ
  pub kelvin : Option ℕ
  pub gm : Option ℕ
  pub gm_flag : Bool
  pub variant : ℕ
  pub mode : ℕ
  pub hue : Option ℕ
  pub saturation : Option ℕ

-- The defaults of the other fields.
abbrev pub state_with : Bool → SystemEffect → ℕ → ℕ → EffectState
state_with on selected intensity frequency = record {
  on = on;
  effect = selected;
  intensity = intensity;
  frequency = frequency;
  speed = 0;
  trigger = 0;
  kelvin = none;
  gm = none;
  gm_flag = false;
  variant = 0;
  mode = 0;
  hue = none;
  saturation = none;
}
