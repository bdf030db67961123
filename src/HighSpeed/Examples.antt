-- ===== src/HighSpeed/Examples.antt =====
-- High-speed photography on.
use ha_amaran_ble.Base.{arith, ok, some, ◌≡◌}
use ha_amaran_ble.Base.Bytes.{Bytes}
use ha_amaran_ble.HighSpeed.{build_high_speed, decode_high_speed}
use ha_amaran_ble.HighSpeed.RoundTrip.{decode-build_high_speed}

decode-build_high_speed_example :
    (payload : Bytes) × (build_high_speed 1 0 ≡ ok payload)
    × (decode_high_speed payload ≡ some (record { state = 1; operation = 0 }))
decode-build_high_speed_example = decode-build_high_speed 1 0 (omega arith) (omega arith)
