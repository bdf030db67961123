-- ===== src/Telink/RoundTrip/Layouts.antt =====
-- Each effect layout, read back from a packet that carries it.
use ha_amaran_ble.Base.{
  ℕ, ◌*◌, ◌≤◌, ◌<◌, ◌≡◌, refl, true, false, some, List, ◌∷◌, ◌++◌, arith, if◌then◌else◌,
  bool_to_nat, truthy-bool_to_nat, ◌==◌,
}
use ha_amaran_ble.Base.Bytes.{Bytes}
use ha_amaran_ble.Packet.{Field, field}
use ha_amaran_ble.Packet.Fields.{lookup}
use ha_amaran_ble.Packet.Header.{IsFrame}
use ha_amaran_ble.Telink.{
  SystemEffect, off, paparazzi, faulty_bulb, lightning, pulsing, strobe, explosion, welding,
  color_chase, party_lights, effect_id, get_bits, EffectValues, high_cct, cct_value, gm_high,
  gm_low,
}
use ha_amaran_ble.Telink.Effects.{
  preset_fields, chase_fields, kind_fields, fireworks_fields, paparazzi_fields, lightning_fields,
  EffectState, state_with,
}
use ha_amaran_ble.Telink.Decode.{
  decode_kelvin, decode_effect_gm, decode_preset, decode_chase, decode_kind, decode_fireworks,
  decode_paparazzi, decode_lightning,
}
use ha_amaran_ble.Telink.RoundTrip.{tail, get_bits-IsFrame, IsInRange}

abbrev pub common : SystemEffect → List Field → List Field
common e fs = field 1 8 1 ∷ field (effect_id e) 64 8 ∷ fs

-- What was asked for, in the units of the report: whole kelvins, and the G/M value, which a
-- fixture without the flag keeps in steps of ten.
abbrev pub white_of : EffectValues → EffectState → EffectState
white_of v state = record state {
  kelvin = some (v.tens * 10);
  gm_flag = v.exact;
  gm = some (if v.exact then v.shift else v.shift * 10);
}

abbrev pub colour_of : EffectValues → EffectState → EffectState
colour_of v state = record state { saturation = some v.saturation; hue = some v.hue }

abbrev pub plain_state : SystemEffect → EffectValues → EffectState
plain_state e v = state_with true e v.value v.rate

abbrev pub mode_state_of : SystemEffect → EffectValues → EffectState
mode_state_of e v = record (plain_state e v) { mode = v.mode; trigger = v.trigger }

-- The state that a fixture running the effect reports.
abbrev pub state_of : SystemEffect → EffectValues → EffectState
state_of off v = state_with false off 0 0
state_of color_chase v = record (plain_state color_chase v) { saturation = some v.saturation }
state_of party_lights v = record (plain_state party_lights v) { saturation = some v.saturation }
state_of paparazzi v = white_of v (plain_state paparazzi v)
state_of lightning v = record (white_of v (plain_state lightning v)) {
  speed = v.speed;
  trigger = v.trigger;
}
state_of welding v =
    record (if v.mode == 1
      then colour_of v (mode_state_of welding v)
      else white_of v (mode_state_of welding v)) { speed = v.speed }
state_of faulty_bulb v =
    record (if v.mode == 1
      then colour_of v (mode_state_of faulty_bulb v)
      else white_of v (mode_state_of faulty_bulb v)) { speed = v.speed }
state_of pulsing v =
    record (if v.mode == 1
      then colour_of v (mode_state_of pulsing v)
      else white_of v (mode_state_of pulsing v)) { speed = v.speed }
state_of strobe v =
    if v.mode == 1
    then colour_of v (mode_state_of strobe v)
    else white_of v (mode_state_of strobe v)
state_of explosion v =
    if v.mode == 1
    then colour_of v (mode_state_of explosion v)
    else white_of v (mode_state_of explosion v)
state_of e v = record (plain_state e v) { variant = v.variant }

pub kelvin_back :
    (v : EffectValues) (payload : Bytes) (high_bit value_bit : ℕ)
    → v.tens ≤ 2000
    → get_bits payload high_bit 1 ≡ high_cct v
    → get_bits payload value_bit 10 ≡ cct_value v
    → decode_kelvin payload high_bit value_bit ≡ v.tens * 10
unfolding decode_kelvin
kelvin_back v payload high_bit value_bit h e1 e2 = rw (e1, e2) (ground arith)

pub gm_back :
    (v : EffectValues) (payload : Bytes) (high_bit value_bit : ℕ)
    → v.shift ≤ 200
    → get_bits payload high_bit 1 ≡ gm_high v
    → get_bits payload value_bit 7 ≡ gm_low v
    → decode_effect_gm payload v.exact high_bit value_bit
      ≡ (if v.exact then v.shift else v.shift * 10)
unfolding decode_effect_gm
gm_back v payload high_bit value_bit h e1 e2 = rw (e1, e2) (ground arith)

pub cct_value-lt : (v : EffectValues) → v.tens ≤ 2000 → cct_value v < 1024
cct_value-lt v h = ground arith

pub high_cct-lt : (v : EffectValues) → high_cct v < 2
high_cct-lt v = ground arith

pub gm_low-lt :
    (v : EffectValues) → v.shift ≤ 200 → (v.exact ≡ false → v.shift ≤ 20) → gm_low v < 128
gm_low-lt v h k = ground arith

pub gm_high-lt : (v : EffectValues) → gm_high v < 2
gm_high-lt v = ground arith

-- A packet that carries the fields `fs` of the effect `e`.
abbrev pub Carries : SystemEffect → List Field → Bytes → Type 0
Carries e fs payload = IsFrame (common e fs ++ tail 7 true) 7 payload

pub read :
    (e : SystemEffect) (fs : List Field) (payload : Bytes)
    → Carries e fs payload
    → (s w n : ℕ) → 8 ≤ s
    → lookup s w (common e fs ++ tail 7 true) ≡ some n
    → get_bits payload s w ≡ n
read e fs payload frame s w n le found =
    get_bits-IsFrame (common e fs ++ tail 7 true) 7 payload s w n frame le found

module _ (e : SystemEffect) (v : EffectValues) (payload : Bytes) where
  pub decode_preset_ok :
      Carries e (preset_fields v) payload
      → decode_preset payload true e ≡ record (plain_state e v) { variant = v.variant }
  decode_preset_ok frame =
      let r = read e (preset_fields v) payload frame in
      rw
        (
          r 54 10 v.value (omega arith) refl,
          r 50 4 v.rate (omega arith) refl,
          r 46 4 v.variant (omega arith) refl,
        )
        refl

  pub decode_chase_ok :
      Carries e (chase_fields v) payload
      → decode_chase payload true e ≡ record (plain_state e v) { saturation = some v.saturation }
  decode_chase_ok frame =
      let r = read e (chase_fields v) payload frame in
      rw
        (
          r 54 10 v.value (omega arith) refl,
          r 50 4 v.rate (omega arith) refl,
          r 43 7 v.saturation (omega arith) refl,
        )
        refl

  pub decode_kind_ok :
      Carries e (kind_fields v) payload
      → decode_kind payload true e ≡ record (plain_state e v) { variant = v.variant }
  decode_kind_ok frame =
      let r = read e (kind_fields v) payload frame in
      rw
        (
          r 54 10 v.value (omega arith) refl,
          r 50 4 v.rate (omega arith) refl,
          r 40 10 v.variant (omega arith) refl,
        )
        refl

  pub decode_fireworks_ok :
      Carries e (fireworks_fields v) payload
      → decode_fireworks payload true e ≡ record (plain_state e v) { variant = v.variant }
  decode_fireworks_ok frame =
      let r = read e (fireworks_fields v) payload frame in
      rw
        (
          r 54 10 v.value (omega arith) refl,
          r 50 4 v.rate (omega arith) refl,
          r 42 8 v.variant (omega arith) refl,
        )
        refl

  pub decode_paparazzi_ok :
      IsInRange e v
      → Carries e (paparazzi_fields v) payload
      → decode_paparazzi payload true e ≡ white_of v (plain_state e v)
  decode_paparazzi_ok range frame =
      let r = read e (paparazzi_fields v) payload frame in
      rw
        (
          r 31 1 (bool_to_nat v.exact) (omega arith) refl,
          truthy-bool_to_nat v.exact,
          kelvin_back v payload 30 40 range.tens (r 30 1 (high_cct v) (omega arith) refl)
              (r 40 10 (cct_value v) (omega arith) refl),
          gm_back v payload 32 33 range.shift (r 32 1 (gm_high v) (omega arith) refl)
              (r 33 7 (gm_low v) (omega arith) refl),
          r 54 10 v.value (omega arith) refl,
          r 50 4 v.rate (omega arith) refl,
        )
        refl

  pub decode_lightning_ok :
      IsInRange e v
      → Carries e (lightning_fields v) payload
      → decode_lightning payload true e
        ≡ record (white_of v (plain_state e v)) { speed = v.speed; trigger = v.trigger }
  decode_lightning_ok range frame =
      let r = read e (lightning_fields v) payload frame in
      rw
        (
          r 25 1 (bool_to_nat v.exact) (omega arith) refl,
          truthy-bool_to_nat v.exact,
          kelvin_back v payload 24 40 range.tens (r 24 1 (high_cct v) (omega arith) refl)
              (r 40 10 (cct_value v) (omega arith) refl),
          gm_back v payload 26 33 range.shift (r 26 1 (gm_high v) (omega arith) refl)
              (r 33 7 (gm_low v) (omega arith) refl),
          r 54 10 v.value (omega arith) refl,
          r 50 4 v.rate (omega arith) refl,
          r 27 4 v.speed (omega arith) refl,
          r 31 2 v.trigger (omega arith) refl,
        )
        refl
