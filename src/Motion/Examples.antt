-- ===== src/Motion/Examples.antt =====
-- A motion frame, both ways.
use ha_amaran_ble.Base.{[], arith, ok, refl, some, ◌∷◌, ◌≡◌}
use ha_amaran_ble.Base.Bytes.{Bytes}
use ha_amaran_ble.Packet.{has_header}
use ha_amaran_ble.Motion.{
  MotionMessage, motion_live, decode_motion, decode_motion_config, decode_motion_live,
  decode_header,
}
use ha_amaran_ble.Motion.RoundTrip.{rebuild, build-decode_motion}

abbrev eight : Bytes
eight = 1 ∷ 2 ∷ 3 ∷ 4 ∷ 5 ∷ 6 ∷ 7 ∷ 8 ∷ []

-- Command 44, written.
abbrev received : Bytes
received = 0xD0 ∷ 1 ∷ 2 ∷ 3 ∷ 4 ∷ 5 ∷ 6 ∷ 7 ∷ 8 ∷ 0xAC ∷ []

abbrev live_message : MotionMessage
live_message = motion_live (record { data_raw = eight; operation = 1 })

received_decodes : decode_motion received ≡ some live_message
unfolding decode_motion decode_motion_live decode_motion_config decode_header has_header
received_decodes = refl

build-decode_motion_example : rebuild live_message ≡ ok received
build-decode_motion_example =
    build-decode_motion received live_message
      (
        (omega arith),
        (
          (omega arith),
          (
            (omega arith),
            (
              (omega arith),
              (
                (omega arith),
                (
                  (omega arith),
                  ((omega arith), ((omega arith), ((omega arith), ((omega arith), tt)))),
                ),
              ),
            ),
          ),
        ),
      )
      received_decodes
