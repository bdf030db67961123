-- ===== src/HighSpeed/RoundTrip.antt =====
-- The command-53 builder and decoder agree.
use ha_amaran_ble.Base.{List, [], ap, arith, lt→ltb, ok, refl, some, ℕ, ◌<◌, ◌∙◌, ◌∷◌, ◌≡◌}
use ha_amaran_ble.Base.Bytes.{Bytes}
use ha_amaran_ble.HighSpeed.{build_high_speed, cmd_high_speed, decode_high_speed}
use ha_amaran_ble.Packet.{Field, field, finalize, or_fields}
use ha_amaran_ble.Packet.Header.{framed, framed-IsFrame, or_fields_first}

abbrev fields : ℕ → ℕ → List Field
fields state operation = field state 71 1 ∷ field cmd_high_speed 72 7 ∷ field operation 79 1 ∷ []

-- For a state and an operation of one bit the builder succeeds, and the decoder reads both back.
pub decode-build_high_speed :
    (state operation : ℕ)
    → state < 2
    → operation < 2
    → (payload : Bytes) × (build_high_speed state operation ≡ ok payload)
      × (decode_high_speed payload ≡ some (record { state = state; operation = operation }))
unfolding build_high_speed decode_high_speed
decode-build_high_speed state operation h k =
    let (built, frame) =
      framed-IsFrame (fields state operation) cmd_high_speed
        ((h, omega arith), ((omega arith, omega arith), ((k, omega arith), tt))) refl in
    (
      framed (or_fields 0 (fields state operation)),
      rw (lt→ltb state 2 h, lt→ltb operation 2 k)
          (ap finalize (
              or_fields_first (field state 71 1)
                (field cmd_high_speed 72 7 ∷ field operation 79 1 ∷ []))
            ∙ built),
      rw
          (
            frame.header,
            frame.read 71 1 state (omega arith) refl,
            frame.read 79 1 operation (omega arith) refl,
          )
          refl,
    )
