-- ===== src/Telink/RoundTrip/Effect.antt =====
-- The round trip of `effect` and `decode_effect`.
use ha_amaran_ble.Base.{◌≡◌, refl, ap, Bool-cases, inl, inr, some, ok, arith, ◌==◌}
use ha_amaran_ble.Base.Bytes.{Bytes}
use ha_amaran_ble.Telink.{
  SystemEffect, off, club_lights, paparazzi, fireworks, faulty_bulb, lightning, tv, candle, pulsing,
  strobe, explosion, fire, welding, cop_car, color_chase, party_lights, effect_values,
  EffectArguments,
}
use ha_amaran_ble.Telink.Effects.{
  preset_fields, chase_fields, kind_fields, fireworks_fields, paparazzi_fields, lightning_fields,
  welding_colour, welding_white, faulty_colour, faulty_white, strobe_colour, strobe_white, effect,
}
use ha_amaran_ble.Telink.Decode.{decode_effect}
use ha_amaran_ble.Telink.RoundTrip.{effect_values-IsInRange}
use ha_amaran_ble.Telink.RoundTrip.Layouts.{
  state_of, decode_preset_ok, decode_chase_ok, decode_kind_ok, decode_fireworks_ok,
  decode_paparazzi_ok, decode_lightning_ok,
}
use ha_amaran_ble.Telink.RoundTrip.Modes.{
  decode_welding_white, decode_welding_colour, decode_faulty_white, decode_faulty_colour,
  decode_strobe_white, decode_strobe_colour,
}
use ha_amaran_ble.Telink.RoundTrip.Fits.{
  common_fits, upper_fits, variant_fits, paparazzi_fits, lightning_fits, welding_colour_fits,
  welding_white_fits, faulty_colour_fits, faulty_white_fits, strobe_colour_fits, strobe_white_fits,
}
use ha_amaran_ble.Telink.RoundTrip.Assembly.{from_layout, decode-effect_off}

-- Whatever the arguments, every system effect is built, and the packet decodes to it with the
-- intensity, rate, speed, trigger, preset and colours that `effect` clamped them to, the colour
-- temperature in whole tens of kelvins and the G/M value as the fixture resolves it; `off` decodes
-- to a state that is off.
pub decode-effect :
    (e : SystemEffect) (a : EffectArguments)
    → (payload : Bytes) × (effect e a ≡ ok payload)
      × (decode_effect payload ≡ some (state_of e (effect_values e a)))
unfolding effect
decode-effect off a = decode-effect_off
decode-effect club_lights a =
    let v = effect_values club_lights a in
    let range = effect_values-IsInRange club_lights a in
    from_layout club_lights a (preset_fields v) (state_of club_lights v) refl refl
      (common_fits club_lights (preset_fields v) (
        (
          (variant_fits club_lights v range 4 (omega arith), omega arith),
          upper_fits club_lights v range,
        )))
      (refl, refl, refl) refl
      (λ payload frame. ap some (decode_preset_ok club_lights v payload frame))
decode-effect cop_car a =
    let v = effect_values cop_car a in
    let range = effect_values-IsInRange cop_car a in
    from_layout cop_car a (preset_fields v) (state_of cop_car v) refl refl
      (common_fits cop_car (preset_fields v)
        (((variant_fits cop_car v range 4 (omega arith), omega arith), upper_fits cop_car v range)))
      (refl, refl, refl) refl (λ payload frame. ap some (decode_preset_ok cop_car v payload frame))
decode-effect color_chase a =
    let v = effect_values color_chase a in
    let range = effect_values-IsInRange color_chase a in
    from_layout color_chase a (chase_fields v) (state_of color_chase v) refl refl
      (common_fits color_chase (chase_fields v)
        (((omega (arith, range.saturation), omega arith), upper_fits color_chase v range)))
      (refl, refl, refl) refl
      (λ payload frame. ap some (decode_chase_ok color_chase v payload frame))
decode-effect party_lights a =
    let v = effect_values party_lights a in
    let range = effect_values-IsInRange party_lights a in
    from_layout party_lights a (chase_fields v) (state_of party_lights v) refl refl
      (common_fits party_lights (chase_fields v)
        (((omega (arith, range.saturation), omega arith), upper_fits party_lights v range)))
      (refl, refl, refl) refl
      (λ payload frame. ap some (decode_chase_ok party_lights v payload frame))
decode-effect candle a =
    let v = effect_values candle a in
    let range = effect_values-IsInRange candle a in
    from_layout candle a (kind_fields v) (state_of candle v) refl refl
      (common_fits candle (kind_fields v)
        (((variant_fits candle v range 10 (omega arith), omega arith), upper_fits candle v range)))
      (refl, refl, refl) refl (λ payload frame. ap some (decode_kind_ok candle v payload frame))
decode-effect tv a =
    let v = effect_values tv a in
    let range = effect_values-IsInRange tv a in
    from_layout tv a (kind_fields v) (state_of tv v) refl refl
      (common_fits tv (kind_fields v)
        (((variant_fits tv v range 10 (omega arith), omega arith), upper_fits tv v range)))
      (refl, refl, refl) refl (λ payload frame. ap some (decode_kind_ok tv v payload frame))
decode-effect fire a =
    let v = effect_values fire a in
    let range = effect_values-IsInRange fire a in
    from_layout fire a (kind_fields v) (state_of fire v) refl refl
      (common_fits fire (kind_fields v)
        (((variant_fits fire v range 10 (omega arith), omega arith), upper_fits fire v range)))
      (refl, refl, refl) refl (λ payload frame. ap some (decode_kind_ok fire v payload frame))
decode-effect fireworks a =
    let v = effect_values fireworks a in
    let range = effect_values-IsInRange fireworks a in
    from_layout fireworks a (fireworks_fields v) (state_of fireworks v) refl refl
      (common_fits fireworks (fireworks_fields v) (
        (
          (variant_fits fireworks v range 8 (omega arith), omega arith),
          upper_fits fireworks v range,
        )))
      (refl, refl, refl) refl
      (λ payload frame. ap some (decode_fireworks_ok fireworks v payload frame))
decode-effect paparazzi a =
    let v = effect_values paparazzi a in
    let range = effect_values-IsInRange paparazzi a in
    from_layout paparazzi a (paparazzi_fields v) (state_of paparazzi v) refl refl
      (common_fits paparazzi (paparazzi_fields v) (paparazzi_fits paparazzi v range))
      (refl, refl, refl) refl
      (λ payload frame. ap some (decode_paparazzi_ok paparazzi v payload range frame))
decode-effect lightning a =
    let v = effect_values lightning a in
    let range = effect_values-IsInRange lightning a in
    from_layout lightning a (lightning_fields v) (state_of lightning v) refl refl
      (common_fits lightning (lightning_fields v)
        (lightning_fits lightning v range (range.short_speed (λ h. cc))))
      (refl, refl, refl) refl
      (λ payload frame. ap some (decode_lightning_ok lightning v payload range frame))
decode-effect welding a =
    let v = effect_values welding a in
    let range = effect_values-IsInRange welding a in
    elim (Bool-cases (v.mode == 1)) [
      | inl h ↦
          from_layout welding a (welding_colour v) (state_of welding v) refl (rw h refl)
            (common_fits welding (welding_colour v) (welding_colour_fits welding v range))
            (refl, refl, refl) refl
            (λ payload frame.
              rw h (decode_welding_colour welding v payload (ground arith) range frame))
      | inr h ↦
          from_layout welding a (welding_white v) (state_of welding v) refl (rw h refl)
            (common_fits welding (welding_white v) (welding_white_fits welding v range))
            (refl, refl, refl) refl
            (λ payload frame.
              rw h
                (decode_welding_white welding v payload (ground (arith, range.mode)) range frame))
    ]
decode-effect faulty_bulb a =
    let v = effect_values faulty_bulb a in
    let range = effect_values-IsInRange faulty_bulb a in
    elim (Bool-cases (v.mode == 1)) [
      | inl h ↦
          from_layout faulty_bulb a (faulty_colour v) (state_of faulty_bulb v) refl (rw h refl)
            (common_fits faulty_bulb (faulty_colour v)
              (faulty_colour_fits faulty_bulb v range (range.short_speed (λ h. cc))))
            (refl, refl, refl) refl
            (λ payload frame.
              rw h (decode_faulty_colour faulty_bulb v payload (ground arith) range frame))
      | inr h ↦
          from_layout faulty_bulb a (faulty_white v) (state_of faulty_bulb v) refl (rw h refl)
            (common_fits faulty_bulb (faulty_white v)
              (faulty_white_fits faulty_bulb v range (range.short_speed (λ h. cc))))
            (refl, refl, refl) refl
            (λ payload frame.
              rw h (
                decode_faulty_white faulty_bulb v payload (ground (arith, range.mode)) range frame))
    ]
decode-effect pulsing a =
    let v = effect_values pulsing a in
    let range = effect_values-IsInRange pulsing a in
    elim (Bool-cases (v.mode == 1)) [
      | inl h ↦
          from_layout pulsing a (faulty_colour v) (state_of pulsing v) refl (rw h refl)
            (common_fits pulsing (faulty_colour v)
              (faulty_colour_fits pulsing v range (range.short_speed (λ h. cc))))
            (refl, refl, refl) refl
            (λ payload frame.
              rw h (decode_faulty_colour pulsing v payload (ground arith) range frame))
      | inr h ↦
          from_layout pulsing a (faulty_white v) (state_of pulsing v) refl (rw h refl)
            (common_fits pulsing (faulty_white v)
              (faulty_white_fits pulsing v range (range.short_speed (λ h. cc))))
            (refl, refl, refl) refl
            (λ payload frame.
              rw h (decode_faulty_white pulsing v payload (ground (arith, range.mode)) range frame))
    ]
decode-effect strobe a =
    let v = effect_values strobe a in
    let range = effect_values-IsInRange strobe a in
    elim (Bool-cases (v.mode == 1)) [
      | inl h ↦
          from_layout strobe a (strobe_colour v) (state_of strobe v) refl (rw h refl)
            (common_fits strobe (strobe_colour v) (strobe_colour_fits strobe v range))
            (refl, refl, refl) refl
            (λ payload frame.
              rw h (decode_strobe_colour strobe v payload (ground arith) range frame))
      | inr h ↦
          from_layout strobe a (strobe_white v) (state_of strobe v) refl (rw h refl)
            (common_fits strobe (strobe_white v) (strobe_white_fits strobe v range))
            (refl, refl, refl) refl
            (λ payload frame.
              rw h (decode_strobe_white strobe v payload (ground (arith, range.mode)) range frame))
    ]
decode-effect explosion a =
    let v = effect_values explosion a in
    let range = effect_values-IsInRange explosion a in
    elim (Bool-cases (v.mode == 1)) [
      | inl h ↦
          from_layout explosion a (strobe_colour v) (state_of explosion v) refl (rw h refl)
            (common_fits explosion (strobe_colour v) (strobe_colour_fits explosion v range))
            (refl, refl, refl) refl
            (λ payload frame.
              rw h (decode_strobe_colour explosion v payload (ground arith) range frame))
      | inr h ↦
          from_layout explosion a (strobe_white v) (state_of explosion v) refl (rw h refl)
            (common_fits explosion (strobe_white v) (strobe_white_fits explosion v range))
            (refl, refl, refl) refl
            (λ payload frame.
              rw h
                (decode_strobe_white explosion v payload (ground (arith, range.mode)) range frame))
    ]
