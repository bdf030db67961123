-- ===== src/Telink/RoundTrip/Reports.antt =====
-- Round trips of the boost and fan commands.
use ha_amaran_ble.Base.{
  ℕ, ◌*◌, ◌/◌, ◌≤◌, ◌<◌, ◌≡◌, refl, Bool, true, some, List, [], ◌∷◌, ◌++◌, ok, arith,
  truthy-bool_to_nat, bool_to_nat, get_elem?,
}
use ha_amaran_ble.Base.Bytes.{Bytes}
use ha_amaran_ble.Packet.{Field, field}
use ha_amaran_ble.Packet.Header.{IsFrame}
use ha_amaran_ble.Telink.{get_bits, clamp_round}
use ha_amaran_ble.Telink.RoundTrip.{
  tail, payload_of, bool_bit-lt, build_payload-IsFrame, get_bits-IsFrame,
}
use ha_amaran_ble.Packet.Fields.{lookup}
use ha_amaran_ble.Telink.Reports.{
  cmd_boost, cmd_fan, ace_boost_min_kelvin, ace_boost_max_kelvin, boost, decode_boost, FanMode,
  manual, smart, max_speed, off, high, medium, low, silent, fan_mode_id, fan_modes, fan, decode_fan,
}

abbrev boost_fields : Bool → ℕ → ℕ → List Field
boost_fields enabled kelvin gm =
    field (clamp_round gm 0 255) 52 8
    ∷ field (clamp_round kelvin ace_boost_min_kelvin ace_boost_max_kelvin / 10) 60 11
    ∷ field (bool_to_nat enabled) 71 1
    ∷ []

decode_boost_ok :
    (enabled : Bool) (kelvin gm : ℕ) (payload : Bytes)
    → IsFrame (boost_fields enabled kelvin gm ++ tail cmd_boost true) cmd_boost payload
    → decode_boost payload
      ≡ some (record {
        enabled = enabled;
        kelvin = clamp_round kelvin ace_boost_min_kelvin ace_boost_max_kelvin / 10 * 10;
        gm = clamp_round gm 0 255;
      })
unfolding decode_boost
decode_boost_ok enabled kelvin gm payload frame =
    let fs = boost_fields enabled kelvin gm ++ tail cmd_boost true in
    rw
      (
        frame.header,
        get_bits-IsFrame fs cmd_boost payload 71 1 (bool_to_nat enabled) frame (omega arith) refl,
        truthy-bool_to_nat enabled,
        get_bits-IsFrame fs cmd_boost payload 60 11
            (clamp_round kelvin ace_boost_min_kelvin ace_boost_max_kelvin / 10) frame (omega arith)
            refl,
        get_bits-IsFrame fs cmd_boost payload 52 8 (clamp_round gm 0 255) frame (omega arith) refl,
      )
      refl

-- Whatever the arguments, a Boost command is built, and it decodes to its switch, the colour
-- temperature clamped to 3800 to 5500 K in whole tens, and the G/M value clamped to 255.
pub decode-boost :
    (enabled : Bool) (kelvin gm : ℕ)
    → (payload : Bytes) × (boost enabled kelvin gm ≡ ok payload)
      × (decode_boost payload
          ≡ some (record {
            enabled = enabled;
            kelvin = clamp_round kelvin ace_boost_min_kelvin ace_boost_max_kelvin / 10 * 10;
            gm = clamp_round gm 0 255;
          }))
unfolding boost
decode-boost enabled kelvin gm =
    let (built, frame) =
      build_payload-IsFrame cmd_boost (boost_fields enabled kelvin gm) true (omega arith)
        (
          (omega arith, omega arith),
          ((omega arith, omega arith), ((bool_bit-lt enabled, omega arith), tt)),
        )
        refl in
    (
      payload_of cmd_boost (boost_fields enabled kelvin gm) true,
      built,
      decode_boost_ok enabled kelvin gm _ frame,
    )

abbrev fan_fields : FanMode → ℕ → List Field
fan_fields mode speed = field (clamp_round speed 0 1000) 48 16 ∷ field (fan_mode_id mode) 64 8 ∷ []

fan_mode_id-lt : (mode : FanMode) → fan_mode_id mode < 256
fan_mode_id-lt mode = ground arith

fan_mode_back : (mode : FanMode) → get_elem? fan_modes (fan_mode_id mode) ≡ some mode
fan_mode_back manual = refl
fan_mode_back smart = refl
fan_mode_back max_speed = refl
fan_mode_back off = refl
fan_mode_back high = refl
fan_mode_back medium = refl
fan_mode_back low = refl
fan_mode_back silent = refl

decode_fan_ok :
    (mode : FanMode) (speed : ℕ) (payload : Bytes)
    → IsFrame (fan_fields mode speed ++ tail cmd_fan true) cmd_fan payload
    → decode_fan payload
      ≡ some (record {
        mode = mode;
        fixture_speed = clamp_round speed 0 1000;
        current_temperature_raw = 0;
        high_temperature_raw = 0;
        supported_modes = [];
      })
unfolding decode_fan
decode_fan_ok mode speed payload frame =
    let fs = fan_fields mode speed ++ tail cmd_fan true in
    let r : (s w n : ℕ) → 8 ≤ s → lookup s w fs ≡ some n → get_bits payload s w ≡ n =
      λ s w n le e. get_bits-IsFrame fs cmd_fan payload s w n frame le e in
    rw
      (
        frame.header,
        r 64 8 (fan_mode_id mode) (omega arith) refl,
        fan_mode_back mode,
        r 48 16 (clamp_round speed 0 1000) (omega arith) refl,
        r 40 8 0 (omega arith) refl,
        r 36 4 0 (omega arith) refl,
        r 35 1 0 (omega arith) refl,
        r 34 1 0 (omega arith) refl,
        r 33 1 0 (omega arith) refl,
        r 32 1 0 (omega arith) refl,
        r 31 1 0 (omega arith) refl,
        r 30 1 0 (omega arith) refl,
        r 29 1 0 (omega arith) refl,
        r 28 1 0 (omega arith) refl,
      )
      refl

-- Every fan mode is built with any speed, and decodes to that mode and the speed clamped to 1000;
-- a command carries no temperatures and no supported modes.
pub decode-fan :
    (mode : FanMode) (speed : ℕ)
    → (payload : Bytes) × (fan mode speed ≡ ok payload)
      × (decode_fan payload
          ≡ some (record {
            mode = mode;
            fixture_speed = clamp_round speed 0 1000;
            current_temperature_raw = 0;
            high_temperature_raw = 0;
            supported_modes = [];
          }))
unfolding fan
decode-fan mode speed =
    let (built, frame) =
      build_payload-IsFrame cmd_fan (fan_fields mode speed) true (omega arith)
        ((omega arith, omega arith), ((fan_mode_id-lt mode, omega arith), tt)) refl in
    (payload_of cmd_fan (fan_fields mode speed) true, built, decode_fan_ok mode speed _ frame)
