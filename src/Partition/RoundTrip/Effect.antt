-- ===== src/Partition/RoundTrip/Effect.antt =====
-- Partition effect packets, built and read back.
use ha_amaran_ble.Base.Bytes.{Bytes}
use ha_amaran_ble.Packet.{Field, field}
use ha_amaran_ble.Base.{ℕ, ◌-◌, ◌<◌, ◌≡◌, refl, some, List, [], ◌∷◌, ok, arith}
use ha_amaran_ble.Packet.Header.{IsFrame, wire_value_ok}
use ha_amaran_ble.Partition.{
  cmd_partition_effect, PartitionEffectState, trigger_mode_input_raw, effect,
}
use ha_amaran_ble.Partition.Effect.{
  build_partition_effect, decode_partition_effect, decode_partition,
}
use ha_amaran_ble.Partition.RoundTrip.{
  all_fields, payload_of, build_payload-IsFrame, decode_header_ok,
}

-- The trigger bit on the wire is the complement of the input.
abbrev pub effect_state : ℕ → ℕ → ℕ → ℕ → ℕ → ℕ → ℕ → ℕ → ℕ → ℕ → PartitionEffectState
effect_state intensity_min trigger frequency_max frequency_min interval_max interval_min lasting_max
      lasting_min fx_mode operation =
    record {
      operation = operation;
      intensity_min_raw = intensity_min;
      trigger_mode_wire_raw = 1 - trigger;
      frequency_max_raw = frequency_max;
      frequency_min_raw = frequency_min;
      interval_max_raw = interval_max;
      interval_min_raw = interval_min;
      lasting_max_raw = lasting_max;
      lasting_min_raw = lasting_min;
      fx_mode_raw = fx_mode;
    }

abbrev effect_fields : ℕ → ℕ → ℕ → ℕ → ℕ → ℕ → ℕ → ℕ → ℕ → List Field
effect_fields intensity_min trigger frequency_max frequency_min interval_max interval_min
      lasting_max lasting_min fx_mode =
    field intensity_min 24 7
    ∷ field (1 - trigger) 31 1
    ∷ field frequency_max 32 5
    ∷ field frequency_min 37 5
    ∷ field interval_max 42 7
    ∷ field interval_min 49 7
    ∷ field lasting_max 56 7
    ∷ field lasting_min 63 7
    ∷ field fx_mode 70 2
    ∷ []

decode_effect_ok :
    (i t a b c d e f m p : ℕ) (payload : Bytes)
    → IsFrame
        (all_fields cmd_partition_effect p (effect_fields i t a b c d e f m))
        cmd_partition_effect
        payload
    → (decode_partition_effect payload ≡ some (effect_state i t a b c d e f m p))
      × (decode_partition payload ≡ some (effect (effect_state i t a b c d e f m p)))
unfolding decode_partition_effect decode_partition
decode_effect_ok i t a b c d e f m p payload frame =
    let decoded : decode_partition_effect payload ≡ some (effect_state i t a b c d e f m p) =
      rw
        (decode_header_ok cmd_partition_effect p
          (all_fields cmd_partition_effect p (effect_fields i t a b c d e f m)) payload frame refl)
        (rw
          (
            frame.read 8 16 0 (omega arith) refl,
            frame.read 24 7 i (omega arith) refl,
            frame.read 31 1 (1 - t) (omega arith) refl,
            frame.read 32 5 a (omega arith) refl,
            frame.read 37 5 b (omega arith) refl,
            frame.read 42 7 c (omega arith) refl,
            frame.read 49 7 d (omega arith) refl,
            frame.read 56 7 e (omega arith) refl,
            frame.read 63 7 f (omega arith) refl,
            frame.read 70 2 m (omega arith) refl,
          )
          refl) in
    (decoded, rw (frame.length, frame.command_bits, decoded) refl)

-- An effect packet with values within their widths is built and decoded, by
-- `decode_partition_effect` and by `decode_partition`; the decoded state carries the complement of
-- the trigger input, and its property `trigger_mode_input_raw` is that input.
pub decode-build_effect :
    (intensity_min trigger frequency_max frequency_min interval_max interval_min lasting_max
      lasting_min fx_mode operation : ℕ)
    → intensity_min < 128
    → trigger < 2
    → frequency_max < 32
    → frequency_min < 32
    → interval_max < 128
    → interval_min < 128
    → lasting_max < 128
    → lasting_min < 128
    → fx_mode < 4
    → operation < 2
    → (payload : Bytes) × (state : PartitionEffectState) × (build_partition_effect intensity_min
          trigger frequency_max frequency_min interval_max interval_min lasting_max lasting_min
          fx_mode operation
        ≡ ok payload)
      × (state
          ≡ effect_state intensity_min trigger frequency_max frequency_min interval_max interval_min
              lasting_max lasting_min fx_mode operation)
      × (decode_partition_effect payload ≡ some state)
      × (decode_partition payload ≡ some (effect state))
      × (trigger_mode_input_raw state ≡ trigger)
unfolding build_partition_effect
decode-build_effect i t a b c d e f m p hi ht ha hb hc hd he hf hm hp =
    let (built, frame) =
      build_payload-IsFrame cmd_partition_effect p (effect_fields i t a b c d e f m) (omega arith)
        hp
        (
          (hi, omega arith),
          (
            (omega arith, omega arith),
            (
              (ha, omega arith),
              (
                (hb, omega arith),
                (
                  (hc, omega arith),
                  (
                    (hd, omega arith),
                    ((he, omega arith), ((hf, omega arith), ((hm, omega arith), tt))),
                  ),
                ),
              ),
            ),
          ),
        )
        refl in
    let (decoded, dispatched) = decode_effect_ok i t a b c d e f m p _ frame in
    (
      payload_of cmd_partition_effect p (effect_fields i t a b c d e f m),
      effect_state i t a b c d e f m p,
      rw
          (
            wire_value_ok t 1 ht,
            wire_value_ok p 1 hp,
            wire_value_ok i 7 hi,
            wire_value_ok a 5 ha,
            wire_value_ok b 5 hb,
            wire_value_ok c 7 hc,
            wire_value_ok d 7 hd,
            wire_value_ok e 7 he,
            wire_value_ok f 7 hf,
            wire_value_ok m 2 hm,
          )
          built,
      refl,
      decoded,
      dispatched,
      omega arith,
    )
