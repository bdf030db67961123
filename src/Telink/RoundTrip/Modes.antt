-- ===== src/Telink/RoundTrip/Modes.antt =====
-- The effects with a white and a colour mode, read back in either.
use ha_amaran_ble.Base.{◌≡◌, refl, true, some, arith, bool_to_nat, truthy-bool_to_nat}
use ha_amaran_ble.Base.Bytes.{Bytes}
use ha_amaran_ble.Telink.{SystemEffect, EffectValues, high_cct, cct_value, gm_high, gm_low}
use ha_amaran_ble.Telink.Effects.{
  welding_colour, welding_white, faulty_colour, faulty_white, strobe_colour, strobe_white,
}
use ha_amaran_ble.Telink.Decode.{decode_welding, decode_faulty, decode_strobe}
use ha_amaran_ble.Telink.RoundTrip.{IsInRange}
use ha_amaran_ble.Telink.RoundTrip.Layouts.{
  white_of, colour_of, mode_state_of, kelvin_back, gm_back, Carries, read,
}

module _ (e : SystemEffect) (v : EffectValues) (payload : Bytes) where
  pub decode_welding_white :
      v.mode ≡ 0
      → IsInRange e v
      → Carries e (welding_white v) payload
      → decode_welding payload true e
        ≡ some (record (white_of v (mode_state_of e v)) { speed = v.speed })
  unfolding decode_welding
  decode_welding_white is_mode range frame =
      let r = read e (welding_white v) payload frame in
      rw
        (
          r 60 4 v.mode (omega arith) refl,
          is_mode,
          r 18 1 (bool_to_nat v.exact) (omega arith) refl,
          truthy-bool_to_nat v.exact,
          kelvin_back v payload 17 36 range.tens (r 17 1 (high_cct v) (omega arith) refl)
              (r 36 10 (cct_value v) (omega arith) refl),
          gm_back v payload 19 29 range.shift (r 19 1 (gm_high v) (omega arith) refl)
              (r 29 7 (gm_low v) (omega arith) refl),
          r 46 10 v.value (omega arith) refl,
          r 56 4 v.rate (omega arith) refl,
          r 20 7 v.speed (omega arith) refl,
          r 27 2 v.trigger (omega arith) refl,
        )
        refl

  pub decode_welding_colour :
      v.mode ≡ 1
      → IsInRange e v
      → Carries e (welding_colour v) payload
      → decode_welding payload true e
        ≡ some (record (colour_of v (mode_state_of e v)) { speed = v.speed })
  unfolding decode_welding
  decode_welding_colour is_mode range frame =
      let r = read e (welding_colour v) payload frame in
      rw
        (
          r 60 4 v.mode (omega arith) refl,
          is_mode,
          r 30 7 v.saturation (omega arith) refl,
          r 37 9 v.hue (omega arith) refl,
          r 46 10 v.value (omega arith) refl,
          r 56 4 v.rate (omega arith) refl,
          r 21 7 v.speed (omega arith) refl,
          r 28 2 v.trigger (omega arith) refl,
        )
        refl

  pub decode_faulty_white :
      v.mode ≡ 0
      → IsInRange e v
      → Carries e (faulty_white v) payload
      → decode_faulty payload true e
        ≡ some (record (white_of v (mode_state_of e v)) { speed = v.speed })
  unfolding decode_faulty
  decode_faulty_white is_mode range frame =
      let r = read e (faulty_white v) payload frame in
      rw
        (
          r 60 4 0 (omega arith) refl,
          is_mode,
          r 21 1 (bool_to_nat v.exact) (omega arith) refl,
          truthy-bool_to_nat v.exact,
          kelvin_back v payload 20 36 range.tens (r 20 1 (high_cct v) (omega arith) refl)
              (r 36 10 (cct_value v) (omega arith) refl),
          gm_back v payload 22 29 range.shift (r 22 1 (gm_high v) (omega arith) refl)
              (r 29 7 (gm_low v) (omega arith) refl),
          r 46 10 v.value (omega arith) refl,
          r 56 4 v.rate (omega arith) refl,
          r 23 4 v.speed (omega arith) refl,
          r 27 2 v.trigger (omega arith) refl,
        )
        refl

  pub decode_faulty_colour :
      v.mode ≡ 1
      → IsInRange e v
      → Carries e (faulty_colour v) payload
      → decode_faulty payload true e
        ≡ some (record (colour_of v (mode_state_of e v)) { speed = v.speed })
  unfolding decode_faulty
  decode_faulty_colour is_mode range frame =
      let r = read e (faulty_colour v) payload frame in
      rw
        (
          r 60 4 v.mode (omega arith) refl,
          is_mode,
          r 30 7 v.saturation (omega arith) refl,
          r 37 9 v.hue (omega arith) refl,
          r 46 10 v.value (omega arith) refl,
          r 56 4 v.rate (omega arith) refl,
          r 24 4 v.speed (omega arith) refl,
          r 28 2 v.trigger (omega arith) refl,
        )
        refl

  pub decode_strobe_white :
      v.mode ≡ 0
      → IsInRange e v
      → Carries e (strobe_white v) payload
      → decode_strobe payload true e ≡ some (white_of v (mode_state_of e v))
  unfolding decode_strobe
  decode_strobe_white is_mode range frame =
      let r = read e (strobe_white v) payload frame in
      rw
        (
          r 60 4 0 (omega arith) refl,
          is_mode,
          r 25 1 (bool_to_nat v.exact) (omega arith) refl,
          truthy-bool_to_nat v.exact,
          kelvin_back v payload 24 36 range.tens (r 24 1 (high_cct v) (omega arith) refl)
              (r 36 10 (cct_value v) (omega arith) refl),
          gm_back v payload 26 29 range.shift (r 26 1 (gm_high v) (omega arith) refl)
              (r 29 7 (gm_low v) (omega arith) refl),
          r 46 10 v.value (omega arith) refl,
          r 56 4 v.rate (omega arith) refl,
          r 27 2 v.trigger (omega arith) refl,
        )
        refl

  pub decode_strobe_colour :
      v.mode ≡ 1
      → IsInRange e v
      → Carries e (strobe_colour v) payload
      → decode_strobe payload true e ≡ some (colour_of v (mode_state_of e v))
  unfolding decode_strobe
  decode_strobe_colour is_mode range frame =
      let r = read e (strobe_colour v) payload frame in
      rw
        (
          r 60 4 v.mode (omega arith) refl,
          is_mode,
          r 30 7 v.saturation (omega arith) refl,
          r 37 9 v.hue (omega arith) refl,
          r 46 10 v.value (omega arith) refl,
          r 56 4 v.rate (omega arith) refl,
          r 28 2 v.trigger (omega arith) refl,
        )
        refl
