-- ===== src/Telink/Decode.antt =====
-- `decode_effect` of custom_components/amaran_ble/amaranble/telink.py, one function per layout.
use ha_amaran_ble.Base.{
  ℕ, ◌+◌, ◌*◌, Bool, false, Option, none, some, List, [], ◌∷◌, ◌==◌, if◌then◌else◌, truthy,
  get_elem?,
}
use ha_amaran_ble.Base.Bytes.{Bytes}
use ha_amaran_ble.Packet.{has_header}
use ha_amaran_ble.Telink.{
  cmd_system_effect, SystemEffect, off, club_lights, paparazzi, fireworks, faulty_bulb, lightning,
  tv, candle, pulsing, strobe, explosion, fire, welding, cop_car, color_chase, party_lights,
  get_bits,
}
use ha_amaran_ble.Telink.Effects.{EffectState, state_with}

-- `_EFFECTS_BY_ID`, in the order of the ids.
abbrev pub effects_by_id : List SystemEffect
effects_by_id =
    club_lights ∷ paparazzi ∷ lightning ∷ tv ∷ candle ∷ fire ∷ strobe ∷ explosion ∷ faulty_bulb
    ∷ pulsing ∷ welding ∷ cop_car ∷ color_chase ∷ party_lights ∷ fireworks ∷ off ∷ []

unfoldable pub decode_kelvin : Bytes → ℕ → ℕ → ℕ
decode_kelvin payload high_bit value_bit =
    let cct = get_bits payload value_bit 10 in
    (if truthy (get_bits payload high_bit 1) then cct + 1000 else cct) * 10

unfoldable pub decode_effect_gm : Bytes → Bool → ℕ → ℕ → ℕ
decode_effect_gm payload gm_flag high_bit value_bit =
    let value = get_bits payload value_bit 7 in
    if gm_flag then value + 100 * get_bits payload high_bit 1 else value * 10

-- The bits 50 to 63.
abbrev pub upper_state : Bytes → Bool → SystemEffect → EffectState
upper_state payload on selected =
    state_with on selected (get_bits payload 54 10) (get_bits payload 50 4)

-- The bits 46 to 63.
abbrev pub mode_state : Bytes → Bool → SystemEffect → EffectState
mode_state payload on selected =
    record (state_with on selected (get_bits payload 46 10) (get_bits payload 56 4)) {
      mode = get_bits payload 60 4;
    }

abbrev pub with_white : Bytes → ℕ → ℕ → ℕ → ℕ → ℕ → EffectState → EffectState
with_white payload cct_high cct_at flag_at gm_high_at gm_at state = record state {
  kelvin = some (decode_kelvin payload cct_high cct_at);
  gm_flag = truthy (get_bits payload flag_at 1);
  gm = some (decode_effect_gm payload (truthy (get_bits payload flag_at 1)) gm_high_at gm_at);
}

abbrev pub with_colour : Bytes → EffectState → EffectState
with_colour payload state = record state {
  saturation = some (get_bits payload 30 7);
  hue = some (get_bits payload 37 9);
}

abbrev pub decode_preset : Bytes → Bool → SystemEffect → EffectState
decode_preset payload on selected = record (upper_state payload on selected) {
  variant = get_bits payload 46 4;
}

abbrev pub decode_chase : Bytes → Bool → SystemEffect → EffectState
decode_chase payload on selected = record (upper_state payload on selected) {
  saturation = some (get_bits payload 43 7);
}

abbrev pub decode_kind : Bytes → Bool → SystemEffect → EffectState
decode_kind payload on selected = record (upper_state payload on selected) {
  variant = get_bits payload 40 10;
}

abbrev pub decode_fireworks : Bytes → Bool → SystemEffect → EffectState
decode_fireworks payload on selected = record (upper_state payload on selected) {
  variant = get_bits payload 42 8;
}

abbrev pub decode_paparazzi : Bytes → Bool → SystemEffect → EffectState
decode_paparazzi payload on selected =
    with_white payload 30 40 31 32 33 (upper_state payload on selected)

abbrev pub decode_lightning : Bytes → Bool → SystemEffect → EffectState
decode_lightning payload on selected =
    record (with_white payload 24 40 25 26 33 (upper_state payload on selected)) {
      speed = get_bits payload 27 4;
      trigger = get_bits payload 31 2;
    }

-- A mode that is neither 0 nor 1 is refused.
abbrev pub by_mode : ℕ → EffectState → EffectState → Option EffectState
by_mode mode white colour =
    if mode == 0 then some white else if mode == 1 then some colour else none

unfoldable pub decode_welding : Bytes → Bool → SystemEffect → Option EffectState
decode_welding payload on selected =
    by_mode (get_bits payload 60 4)
      (record (with_white payload 17 36 18 19 29 (mode_state payload on selected)) {
        speed = get_bits payload 20 7;
        trigger = get_bits payload 27 2;
      })
      (record (with_colour payload (mode_state payload on selected)) {
        speed = get_bits payload 21 7;
        trigger = get_bits payload 28 2;
      })

unfoldable pub decode_faulty : Bytes → Bool → SystemEffect → Option EffectState
decode_faulty payload on selected =
    by_mode (get_bits payload 60 4)
      (record (with_white payload 20 36 21 22 29 (mode_state payload on selected)) {
        speed = get_bits payload 23 4;
        trigger = get_bits payload 27 2;
      })
      (record (with_colour payload (mode_state payload on selected)) {
        speed = get_bits payload 24 4;
        trigger = get_bits payload 28 2;
      })

unfoldable pub decode_strobe : Bytes → Bool → SystemEffect → Option EffectState
decode_strobe payload on selected =
    by_mode (get_bits payload 60 4)
      (record (with_white payload 24 36 25 26 29 (mode_state payload on selected)) {
        trigger = get_bits payload 27 2;
      })
      (record (with_colour payload (mode_state payload on selected)) {
        trigger = get_bits payload 28 2;
      })

abbrev pub decode_layout : SystemEffect → Bytes → Bool → Option EffectState
decode_layout off payload on = some (state_with false off 0 0)
decode_layout club_lights payload on = some (decode_preset payload on club_lights)
decode_layout cop_car payload on = some (decode_preset payload on cop_car)
decode_layout color_chase payload on = some (decode_chase payload on color_chase)
decode_layout party_lights payload on = some (decode_chase payload on party_lights)
decode_layout candle payload on = some (decode_kind payload on candle)
decode_layout paparazzi payload on = some (decode_paparazzi payload on paparazzi)
decode_layout fireworks payload on = some (decode_fireworks payload on fireworks)
decode_layout tv payload on = some (decode_kind payload on tv)
decode_layout fire payload on = some (decode_kind payload on fire)
decode_layout lightning payload on = some (decode_lightning payload on lightning)
decode_layout welding payload on = decode_welding payload on welding
decode_layout faulty_bulb payload on = decode_faulty payload on faulty_bulb
decode_layout pulsing payload on = decode_faulty payload on pulsing
decode_layout strobe payload on = decode_strobe payload on strobe
decode_layout explosion payload on = decode_strobe payload on explosion

abbrev pub decode_selected : Option SystemEffect → Bytes → Option EffectState
decode_selected none payload = none
decode_selected (some selected) payload =
    decode_layout selected payload (truthy (get_bits payload 8 1))

unfoldable pub decode_effect : Bytes → Option EffectState
decode_effect payload =
    if has_header payload cmd_system_effect
    then decode_selected (get_elem? effects_by_id (get_bits payload 64 8)) payload
    else none
