-- ===== src/Partition/RoundTrip/Config.antt =====
-- Partition configuration packets, built and read back.
use ha_amaran_ble.Base.Bytes.{Bytes}
use ha_amaran_ble.Packet.{Field, field}
use ha_amaran_ble.Base.{ℕ, ◌<◌, ◌≡◌, refl, some, List, [], ◌∷◌, ok, arith}
use ha_amaran_ble.Packet.Fields.{lookup}
use ha_amaran_ble.Packet.Header.{IsFrame, wire_value_ok}
use ha_amaran_ble.Partition.{cmd_partition_config, op_read, op_write, PartitionConfigState, config}
use ha_amaran_ble.Partition.Effect.{
  build_partition_config_read, build_partition_config_write, decode_partition_config,
  decode_partition,
}
use ha_amaran_ble.Partition.RoundTrip.{
  all_fields, payload_of, build_payload-IsFrame, decode_header_ok,
}

-- A request carries no geometry.
abbrev pub config_state : ℕ → ℕ → PartitionConfigState
config_state xy_mode operation = record {
  operation = operation;
  xy_mode_raw = xy_mode;
  pixel_x1_raw = 0;
  pixel_y1_raw = 0;
  pixel_x2_raw = 0;
  pixel_y2_raw = 0;
}

-- From the lookups that the decoder makes.
decode_config_ok :
    (fs : List Field) (xy_mode operation : ℕ) (payload : Bytes)
    → IsFrame fs cmd_partition_config payload
    → lookup 79 1 fs ≡ some operation
    → lookup 68 4 fs ≡ some xy_mode
    → (lookup 8 40 fs ≡ some 0)
      × (lookup 64 4 fs ≡ some 0)
      × (lookup 60 4 fs ≡ some 0)
      × (lookup 54 6 fs ≡ some 0)
      × (lookup 48 6 fs ≡ some 0)
    → decode_partition payload ≡ some (config (config_state xy_mode operation))
unfolding decode_partition_config decode_partition
decode_config_ok fs xy_mode operation payload frame e1 e2 (z1, z2, z3, z4, z5) =
    let decoded : decode_partition_config payload ≡ some (config_state xy_mode operation) =
      rw (decode_header_ok cmd_partition_config operation fs payload frame e1) (
        rw
          (
            frame.read 8 40 0 (omega arith) z1,
            frame.read 68 4 xy_mode (omega arith) e2,
            frame.read 64 4 0 (omega arith) z2,
            frame.read 60 4 0 (omega arith) z3,
            frame.read 54 6 0 (omega arith) z4,
            frame.read 48 6 0 (omega arith) z5,
          )
          refl) in
    rw (frame.length, frame.command_bits, decoded) refl

-- The configuration read request and the write request of a four-bit XY mode are both built, and
-- decoded with their operation, that mode (0 in a read) and no pixel geometry.
pub decode-build_config :
    (xy_mode : ℕ)
    → xy_mode < 16
    → ((payload : Bytes) × (build_partition_config_read ≡ ok payload)
        × (decode_partition payload ≡ some (config (config_state 0 op_read))))
      × ((payload : Bytes) × (build_partition_config_write xy_mode ≡ ok payload)
          × (decode_partition payload ≡ some (config (config_state xy_mode op_write))))
unfolding build_partition_config_read build_partition_config_write
decode-build_config m h =
    let read_fields : List Field = [] in
    let write_fields : List Field = field m 68 4 ∷ [] in
    let (built_r, frame_r) =
      build_payload-IsFrame cmd_partition_config op_read read_fields (omega arith) (omega arith) tt
        refl in
    let (built_w, frame_w) =
      build_payload-IsFrame cmd_partition_config op_write write_fields (omega arith) (omega arith)
        ((h, omega arith), tt) refl in
    (
      (
        payload_of cmd_partition_config op_read read_fields,
        built_r,
        decode_config_ok (all_fields cmd_partition_config op_read read_fields) 0 op_read _ frame_r
            refl refl (refl, refl, refl, refl, refl),
      ),
      (
        payload_of cmd_partition_config op_write write_fields,
        rw (wire_value_ok m 4 h) built_w,
        decode_config_ok (all_fields cmd_partition_config op_write write_fields) m op_write _
            frame_w refl refl (refl, refl, refl, refl, refl),
      ),
    )
