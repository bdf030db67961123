-- ===== src/SteadyModes/RoundTrip/Xy.antt =====
-- CIE-XY packets, built and read back.
use ha_amaran_ble.Packet.{Field, field}
use ha_amaran_ble.Base.{ℕ, ◌<◌, ◌≡◌, refl, some, List, [], ◌∷◌, ◌++◌, ok, arith, truthy}
use ha_amaran_ble.Base.Bytes.{Bytes}
use ha_amaran_ble.Packet.Header.{IsFrame, wire_value_ok}
use ha_amaran_ble.SteadyModes.{cmd_xy, xy, XyState, build_xy, decode_xy, decode_steady_mode}
use ha_amaran_ble.SteadyModes.RoundTrip.{tail, payload_of, build_payload-IsFrame, decode_header_ok}

abbrev xy_fields : ℕ → ℕ → ℕ → ℕ → List Field
xy_fields intensity x y on =
    field on 8 1 ∷ field y 34 14 ∷ field x 48 14 ∷ field intensity 62 10 ∷ []

abbrev pub xy_state : ℕ → ℕ → ℕ → ℕ → ℕ → XyState
xy_state intensity x y on operation = record {
  on = truthy on;
  operation = operation;
  intensity = intensity;
  x_raw = x;
  y_raw = y;
}

decode_xy_ok :
    (i x y n p : ℕ) (payload : Bytes)
    → IsFrame (xy_fields i x y n ++ tail cmd_xy p) cmd_xy payload
    → (decode_xy payload ≡ some (xy_state i x y n p))
      × (decode_steady_mode payload ≡ some (xy (xy_state i x y n p)))
unfolding decode_xy decode_steady_mode
decode_xy_ok i x y n p payload frame =
    let decoded : decode_xy payload ≡ some (xy_state i x y n p) =
      rw (decode_header_ok cmd_xy p n (xy_fields i x y n ++ tail cmd_xy p) payload frame refl refl)
        (rw
          (
            frame.read 62 10 i (omega arith) refl,
            frame.read 48 14 x (omega arith) refl,
            frame.read 34 14 y (omega arith) refl,
          )
          refl) in
    (decoded, rw (frame.length, frame.command_bits, decoded) refl)

-- CIE coordinates of 14 bits are encoded, and `decode_xy` and `decode_steady_mode` both give them
-- back, with the intensity, the `on` bit and the operation.
pub decode-build_xy :
    (intensity x y on operation : ℕ)
    → intensity < 1024
    → x < 16384
    → y < 16384
    → on < 2
    → operation < 2
    → (payload : Bytes) × (build_xy intensity x y on operation ≡ ok payload)
      × (decode_xy payload ≡ some (xy_state intensity x y on operation))
      × (decode_steady_mode payload ≡ some (xy (xy_state intensity x y on operation)))
unfolding build_xy
decode-build_xy i x y n p hi hx hy hn hp =
    let (built, frame) =
      build_payload-IsFrame cmd_xy p (xy_fields i x y n) (omega arith) hp
        ((hn, omega arith), ((hy, omega arith), ((hx, omega arith), ((hi, omega arith), tt))))
        refl in
    let (decoded, dispatched) = decode_xy_ok i x y n p _ frame in
    (
      payload_of cmd_xy p (xy_fields i x y n),
      rw (wire_value_ok n 1 hn, wire_value_ok y 14 hy, wire_value_ok x 14 hx, wire_value_ok i 10 hi)
          built,
      decoded,
      dispatched,
    )
