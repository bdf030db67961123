-- ===== src/SteadyModes/RoundTrip/Gel.antt =====
-- Gel packets, built and read back.
use ha_amaran_ble.Packet.{Field, field}
use ha_amaran_ble.Base.{ℕ, ◌<◌, ◌≡◌, refl, some, List, [], ◌∷◌, ◌++◌, ok, arith, lt→ltb, truthy}
use ha_amaran_ble.Base.Bytes.{Bytes}
use ha_amaran_ble.Packet.Header.{IsFrame, wire_value_ok}
use ha_amaran_ble.SteadyModes.{cmd_gel, gel, GelState, build_gel, decode_gel, decode_steady_mode}
use ha_amaran_ble.SteadyModes.RoundTrip.{tail, payload_of, build_payload-IsFrame, decode_header_ok}

abbrev gel_fields : ℕ → ℕ → ℕ → ℕ → ℕ → ℕ → List Field
gel_fields intensity cct_raw origin gel_type color on =
    field on 8 1
    ∷ field color 37 10
    ∷ field gel_type 47 4
    ∷ field origin 51 1
    ∷ field cct_raw 52 10
    ∷ field intensity 62 10
    ∷ []

abbrev pub gel_state : ℕ → ℕ → ℕ → ℕ → ℕ → ℕ → ℕ → GelState
gel_state intensity cct_raw origin gel_type color on operation = record {
  on = truthy on;
  operation = operation;
  intensity = intensity;
  cct_raw = cct_raw;
  origin = origin;
  gel_type = gel_type;
  color = color;
}

decode_gel_ok :
    (i c o t l n p : ℕ) (payload : Bytes)
    → IsFrame (gel_fields i c o t l n ++ tail cmd_gel p) cmd_gel payload
    → (decode_gel payload ≡ some (gel_state i c o t l n p))
      × (decode_steady_mode payload ≡ some (gel (gel_state i c o t l n p)))
unfolding decode_gel decode_steady_mode
decode_gel_ok i c o t l n p payload frame =
    let decoded : decode_gel payload ≡ some (gel_state i c o t l n p) =
      rw
        (decode_header_ok cmd_gel p n (gel_fields i c o t l n ++ tail cmd_gel p) payload frame refl
          refl)
        (rw
          (
            frame.read 62 10 i (omega arith) refl,
            frame.read 52 10 c (omega arith) refl,
            frame.read 51 1 o (omega arith) refl,
            frame.read 47 4 t (omega arith) refl,
            frame.read 37 10 l (omega arith) refl,
          )
          refl) in
    (decoded, rw (frame.length, frame.command_bits, decoded) refl)

-- Gel fields within their widths are encoded, and `decode_gel` and `decode_steady_mode` both give
-- them back, with the origin and the operation.
pub decode-build_gel :
    (intensity cct_raw origin gel_type color on operation : ℕ)
    → intensity < 1024
    → cct_raw < 1024
    → origin < 2
    → gel_type < 16
    → color < 1024
    → on < 2
    → operation < 2
    → (payload : Bytes) × (build_gel intensity cct_raw origin gel_type color on operation
        ≡ ok payload)
      × (decode_gel payload ≡ some (gel_state intensity cct_raw origin gel_type color on operation))
      × (decode_steady_mode payload
          ≡ some (gel (gel_state intensity cct_raw origin gel_type color on operation)))
unfolding build_gel
decode-build_gel i c o t l n p hi hc ho ht hl hn hp =
    let (built, frame) =
      build_payload-IsFrame cmd_gel p (gel_fields i c o t l n) (omega arith) hp
        (
          (hn, omega arith),
          (
            (hl, omega arith),
            ((ht, omega arith), ((ho, omega arith), ((hc, omega arith), ((hi, omega arith), tt)))),
          ),
        )
        refl in
    let (decoded, dispatched) = decode_gel_ok i c o t l n p _ frame in
    (
      payload_of cmd_gel p (gel_fields i c o t l n),
      rw
          (
            wire_value_ok n 1 hn,
            wire_value_ok l 10 hl,
            wire_value_ok t 4 ht,
            lt→ltb o 2 ho,
            wire_value_ok c 10 hc,
            wire_value_ok i 10 hi,
          )
          built,
      decoded,
      dispatched,
    )
