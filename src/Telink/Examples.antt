-- ===== src/Telink/Examples.antt =====
-- Effects and lighting commands with concrete arguments.
use ha_amaran_ble.Base.{◌/◌, ◌≡◌, refl, true, none, some, [], ok, min, ◌∷◌, ◌↔◌}
use ha_amaran_ble.Base.Bytes.{Bytes}
use ha_amaran_ble.Telink.{
  EffectArguments, effect_values, welding, clamp_round, min_kelvin, max_kelvin,
}
use ha_amaran_ble.Telink.Effects.{effect}
use ha_amaran_ble.Telink.Decode.{decode_effect}
use ha_amaran_ble.Telink.RoundTrip.Layouts.{state_of}
use ha_amaran_ble.Telink.RoundTrip.Effect.{decode-effect}
use ha_amaran_ble.Telink.RoundTrip.Steady.{cct_state, decode_status-cct}
use ha_amaran_ble.Telink.Status.{negsuc, cct, cct_shift, decode_status}
use ha_amaran_ble.Telink.Reports.{FanState, off}
use ha_amaran_ble.Telink.Dispatch.{fan, decode_report}
use ha_amaran_ble.Telink.RoundTrip.Dispatch.{Claims, decode_report_iff}

-- Welding in its white mode, out of every range.
abbrev arguments : EffectArguments
arguments = record {
  intensity = 1800;
  frequency = 0;
  speed = some 300;
  trigger = none;
  kelvin = 12345;
  gm = 150;
  gm_flag = true;
  variant = none;
  mode = some 0;
  hue = 700;
  saturation = none;
}

-- What it is clamped to.
clamped : effect_values welding arguments ≡ record {
  value = 1000;
  rate = 1;
  speed = 127;
  trigger = 2;
  tens = 1234;
  exact = true;
  shift = 150;
  variant = 0;
  mode = 0;
  hue = 360;
  saturation = 100;
}
unfolding effect_values
clamped = refl

decode-effect_example :
    (payload : Bytes) × (effect welding arguments ≡ ok payload)
    × (decode_effect payload ≡ some (state_of welding (effect_values welding arguments)))
decode-effect_example = decode-effect welding arguments

decode_status-cct_example :
    (payload : Bytes) × (cct 15000 480 (negsuc 36) true ≡ ok payload)
    × (decode_status payload
        ≡ some (
            cct_state
              (min 1000 480)
              (clamp_round 15000 min_kelvin max_kelvin / 10)
              true
              (cct_shift true (negsuc 36))))
decode_status-cct_example = decode_status-cct 15000 480 (negsuc 36) true

-- A fan report.
abbrev fan_report : Bytes
fan_report = 0x0C ∷ 0 ∷ 0 ∷ 0 ∷ 0 ∷ 0 ∷ 0 ∷ 0 ∷ 3 ∷ 9 ∷ []

abbrev fan_state : FanState
fan_state = record {
  mode = off;
  fixture_speed = 0;
  current_temperature_raw = 0;
  high_temperature_raw = 0;
  supported_modes = [];
}

decode_report_iff_example :
    (decode_report fan_report 42 ≡ some (fan fan_state)) ↔ Claims fan_report 42 (fan fan_state)
decode_report_iff_example = decode_report_iff fan_report 42 (fan fan_state)
