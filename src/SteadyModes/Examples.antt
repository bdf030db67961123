-- ===== src/SteadyModes/Examples.antt =====
-- A packet of the xy mode.
use ha_amaran_ble.Base.{arith, ok, some, ◌≡◌}
use ha_amaran_ble.Base.Bytes.{Bytes}
use ha_amaran_ble.SteadyModes.{xy, build_xy, decode_xy, decode_steady_mode}
use ha_amaran_ble.SteadyModes.RoundTrip.Xy.{xy_state, decode-build_xy}

decode-build_xy_example :
    (payload : Bytes) × (build_xy 10 3127 16383 1 0 ≡ ok payload)
    × (decode_xy payload ≡ some (xy_state 10 3127 16383 1 0))
    × (decode_steady_mode payload ≡ some (xy (xy_state 10 3127 16383 1 0)))
decode-build_xy_example =
    decode-build_xy 10 3127 16383 1 0 (omega arith) (omega arith) (omega arith) (omega arith)
      (omega arith)
