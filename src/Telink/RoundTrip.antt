-- ===== src/Telink/RoundTrip.antt =====
-- What the commands that Telink builds are decoded to: readings of a built payload, and the range
-- of the clamped values of an effect.
pub mod Layouts
pub mod Modes
pub mod Fits
pub mod Assembly
pub mod Effect
pub mod Reports
pub mod Dispatch
pub mod Status
pub mod LowBytes
pub mod Steady
use ha_amaran_ble.Base.{
  ℕ, zero, suc, ◌+◌, ◌-◌, ◌*◌, ◌/◌, ◌^◌, ◌≤◌, ◌<◌, ◌≡◌, ◌≢◌, refl, sym, ap, ◌∙◌, min, max, Bool,
  true, false, Bool-cases, inl, inr, Option, none, some, List, [], ◌∷◌, ◌++◌, All, All-append,
  Result, ok, arith, ltb, ltb→lt, lt→ltb, if◌then◌else◌, truthy, bool_to_nat, length, take,
  get_elem?,
}
use ha_amaran_ble.Base.Bytes.{Bytes, from_bytes_little}
use ha_amaran_ble.Packet.{Field, field, bits, or_fields, finalize}
use ha_amaran_ble.Packet.Fields.{IsField, lookup}
use ha_amaran_ble.Packet.Header.{framed, framed-IsFrame, IsFrame, or_fields-or_masked}
use ha_amaran_ble.Telink.{
  cmd_system_effect, SystemEffect, off, club_lights, paparazzi, fireworks, faulty_bulb, lightning,
  tv, candle, pulsing, strobe, explosion, fire, welding, cop_car, color_chase, party_lights,
  effect_id, build_payload, get_bits, clamp_round, coarse_gm_value, EffectArguments, EffectValues,
  effect_values, high_cct, cct_value, gm_high, gm_low, maximum_frequency, speed_of, variant_of,
  or_default, default_variant,
}
use native.Mathlib.Nat.{mod-eq_of_lt}
use ha_amaran_ble.Base.Bits.{low_bits}
use ha_amaran_ble.Telink.Effects.{
  upper_fields, mode_fields, colour_fields, preset_fields, chase_fields, kind_fields,
  fireworks_fields, paparazzi_fields, lightning_fields, welding_fields, faulty_fields,
  strobe_fields, layout_fields, effect_off, effect, EffectState, state_with,
}
use ha_amaran_ble.Telink.Decode.{
  effects_by_id, decode_kelvin, decode_effect_gm, decode_preset, decode_chase, decode_kind,
  decode_fireworks, decode_paparazzi, decode_lightning, decode_welding, decode_faulty,
  decode_strobe, decode_layout, decode_selected, decode_effect,
}

abbrev pub tail : ℕ → Bool → List Field
tail command write = field command 72 7 ∷ field (bool_to_nat write) 79 1 ∷ []

abbrev pub payload_of : ℕ → List Field → Bool → Bytes
payload_of command fs write = framed (or_fields 0 (fs ++ tail command write))

pub bool_bit-lt : (b : Bool) → bool_to_nat b < 2
bool_bit-lt true = omega arith
bool_bit-lt false = omega arith

take_whole : (n : ℕ) (payload : Bytes) → length payload ≡ n → take n payload ≡ payload
take_whole zero [] h = refl
take_whole zero (b ∷ bs) h = absurd (omega arith)
take_whole (suc n) [] h = absurd (omega arith)
take_whole (suc n) (b ∷ bs) h = ap (λ t. b ∷ t) (take_whole n bs (omega arith))

-- A reading of a built payload.
pub get_bits-IsFrame :
    (fs : List Field) (command : ℕ) (payload : Bytes) (s w v : ℕ)
    → IsFrame fs command payload
    → 8 ≤ s
    → lookup s w fs ≡ some v
    → get_bits payload s w ≡ v
unfolding get_bits
get_bits-IsFrame fs command payload s w v frame le e =
    rw (take_whole 10 payload frame.length) (frame.read s w v le e)

pub build_payload-IsFrame :
    (command : ℕ) (fs : List Field) (write : Bool)
    → command < 128
    → All IsField fs
    → lookup 72 7 (fs ++ tail command write) ≡ some command
    → (build_payload command fs write ≡ ok (payload_of command fs write))
      × IsFrame (fs ++ tail command write) command (payload_of command fs write)
build_payload-IsFrame command fs write c h e =
    let masked : low_bits command 7 ≡ command = mod-eq_of_lt c in
    let fits : All IsField (fs ++ tail command write) =
      All-append IsField fs (tail command write) h
        ((c, omega arith), ((bool_bit-lt write, omega arith), tt)) in
    let (built, frame) = framed-IsFrame (fs ++ tail command write) command fits e in
    (rw (masked) (ap finalize (or_fields-or_masked 0 fs (tail command write) h) ∙ built), frame)

-- The clamped values fit the fields of their effect.
pub record IsInRange (selected : SystemEffect) (v : EffectValues) : Type 0 where
  pub value : v.value ≤ 1000
  pub rate : v.rate ≤ 11
  pub speed : v.speed ≤ 127
  pub short_speed : selected ≢ welding → v.speed ≤ 10
  pub trigger : v.trigger ≤ 3
  pub tens : v.tens ≤ 2000
  pub shift : v.shift ≤ 200
  pub coarse : v.exact ≡ false → v.shift ≤ 20
  pub variant : v.variant ≤ 7
  pub mode : v.mode ≤ 1
  pub hue : v.hue ≤ 360
  pub saturation : v.saturation ≤ 100

maximum_frequency-le : (e : SystemEffect) → maximum_frequency e ≤ 11
maximum_frequency-le e = ground arith

speed_of-le : (e : SystemEffect) (s : Option ℕ) → speed_of e s ≤ 127
speed_of-le e s = ground arith

speed_of-short : (e : SystemEffect) (s : Option ℕ) → e ≢ welding → speed_of e s ≤ 10
speed_of-short e s h = ground arith

variant_of-le : (e : SystemEffect) (n : ℕ) → variant_of e n ≤ 7
variant_of-le e n = ground arith

pub effect_values-IsInRange :
    (selected : SystemEffect) (a : EffectArguments) → IsInRange selected (effect_values selected a)
unfolding effect_values
effect_values-IsInRange selected a = record {
  value = omega arith;
  rate = omega (arith, maximum_frequency-le selected);
  speed = speed_of-le selected a.speed;
  short_speed = speed_of-short selected a.speed;
  trigger = omega arith;
  tens = omega arith;
  shift = ground arith;
  coarse = λ e. ground arith;
  variant = variant_of-le selected (or_default a.variant (default_variant selected));
  mode = omega arith;
  hue = omega arith;
  saturation = omega arith;
}
