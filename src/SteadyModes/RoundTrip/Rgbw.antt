-- ===== src/SteadyModes/RoundTrip/Rgbw.antt =====
-- RGBW packets, built and read back.
use ha_amaran_ble.Packet.{Field, field}
use ha_amaran_ble.Base.{ℕ, ◌<◌, ◌≡◌, refl, some, List, [], ◌∷◌, ◌++◌, ok, arith, truthy}
use ha_amaran_ble.Base.Bytes.{Bytes}
use ha_amaran_ble.Packet.Header.{IsFrame, wire_value_ok}
use ha_amaran_ble.SteadyModes.{
  cmd_rgbw, rgbw, RgbwState, build_rgbw, decode_rgbw, decode_steady_mode,
}
use ha_amaran_ble.SteadyModes.RoundTrip.{tail, payload_of, build_payload-IsFrame, decode_header_ok}

abbrev rgbw_fields : ℕ → ℕ → ℕ → ℕ → ℕ → ℕ → ℕ → List Field
rgbw_fields intensity red green blue warm cool on =
    field on 8 1
    ∷ field intensity 12 10
    ∷ field cool 22 10
    ∷ field warm 32 10
    ∷ field blue 42 10
    ∷ field green 52 10
    ∷ field red 62 10
    ∷ []

abbrev pub rgbw_state : ℕ → ℕ → ℕ → ℕ → ℕ → ℕ → ℕ → ℕ → RgbwState
rgbw_state intensity red green blue warm cool on operation = record {
  on = truthy on;
  operation = operation;
  intensity = intensity;
  red_raw = red;
  green_raw = green;
  blue_raw = blue;
  warm_white_raw = warm;
  cool_white_raw = cool;
}

decode_rgbw_ok :
    (i r g b w c n p : ℕ) (payload : Bytes)
    → IsFrame (rgbw_fields i r g b w c n ++ tail cmd_rgbw p) cmd_rgbw payload
    → (decode_rgbw payload ≡ some (rgbw_state i r g b w c n p))
      × (decode_steady_mode payload ≡ some (rgbw (rgbw_state i r g b w c n p)))
unfolding decode_rgbw decode_steady_mode
decode_rgbw_ok i r g b w c n p payload frame =
    let decoded : decode_rgbw payload ≡ some (rgbw_state i r g b w c n p) =
      rw
        (decode_header_ok cmd_rgbw p n (rgbw_fields i r g b w c n ++ tail cmd_rgbw p) payload frame
          refl refl)
        (rw
          (
            frame.read 12 10 i (omega arith) refl,
            frame.read 62 10 r (omega arith) refl,
            frame.read 52 10 g (omega arith) refl,
            frame.read 42 10 b (omega arith) refl,
            frame.read 32 10 w (omega arith) refl,
            frame.read 22 10 c (omega arith) refl,
          )
          refl) in
    (decoded, rw (frame.length, frame.command_bits, decoded) refl)

-- Six 10-bit channels are encoded, and `decode_rgbw` and `decode_steady_mode` both give them back
-- in their places, with the `on` bit and the operation.
pub decode-build_rgbw :
    (intensity red green blue warm cool on operation : ℕ)
    → intensity < 1024
    → red < 1024
    → green < 1024
    → blue < 1024
    → warm < 1024
    → cool < 1024
    → on < 2
    → operation < 2
    → (payload : Bytes) × (build_rgbw intensity red green blue warm cool on operation ≡ ok payload)
      × (decode_rgbw payload ≡ some (rgbw_state intensity red green blue warm cool on operation))
      × (decode_steady_mode payload
          ≡ some (rgbw (rgbw_state intensity red green blue warm cool on operation)))
unfolding build_rgbw
decode-build_rgbw i r g b w c n p hi hr hg hb hw hc hn hp =
    let (built, frame) =
      build_payload-IsFrame cmd_rgbw p (rgbw_fields i r g b w c n) (omega arith) hp
        (
          (hn, omega arith),
          (
            (hi, omega arith),
            (
              (hc, omega arith),
              (
                (hw, omega arith),
                ((hb, omega arith), ((hg, omega arith), ((hr, omega arith), tt))),
              ),
            ),
          ),
        )
        refl in
    let (decoded, dispatched) = decode_rgbw_ok i r g b w c n p _ frame in
    (
      payload_of cmd_rgbw p (rgbw_fields i r g b w c n),
      rw
          (
            wire_value_ok n 1 hn,
            wire_value_ok i 10 hi,
            wire_value_ok c 10 hc,
            wire_value_ok w 10 hw,
            wire_value_ok b 10 hb,
            wire_value_ok g 10 hg,
            wire_value_ok r 10 hr,
          )
          built,
      decoded,
      dispatched,
    )
