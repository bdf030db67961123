-- ===== src/Partition/Examples.antt =====
-- Partition packets with partitions given out of order.
use ha_amaran_ble.Base.{ℕ, ◌^◌, ◌<◌, ◌≡◌, refl, some, List, [], ◌∷◌, ok, arith}
use ha_amaran_ble.Base.Bytes.{Bytes}
use ha_amaran_ble.Partition.{
  color, effect, PartitionEffectState, trigger_mode_input_raw, contains, index_mask, indexes,
  build_partition_color_cct, build_partition_color_hsi, decode_partition_color,
}
use ha_amaran_ble.Partition.Effect.{
  build_partition_effect, decode_partition_effect, decode_partition,
}
use ha_amaran_ble.Partition.Indexes.{IsDistinct, ascending_from, indexes-index_mask}
use ha_amaran_ble.Partition.RoundTrip.Color.{
  cct_state, hsi_state, decode-build_cct, decode-build_hsi,
}
use ha_amaran_ble.Partition.RoundTrip.Effect.{effect_state, decode-build_effect}

abbrev some_partitions : List ℕ
some_partitions = 35 ∷ 0 ∷ 7 ∷ []

some_partitions-IsDistinct : IsDistinct some_partitions
unfolding contains
some_partitions-IsDistinct = (refl, (refl, (refl, tt)))

indexes-index_mask_example :
    (mask : ℕ) × (index_mask some_partitions ≡ ok mask)
    × (mask < 2 ^ 36)
    × (indexes mask ≡ ascending_from some_partitions 0 36)
indexes-index_mask_example =
    indexes-index_mask some_partitions (omega arith, (omega arith, (omega arith, tt)))
      some_partitions-IsDistinct

-- The order that comes back.
sorted : ascending_from some_partitions 0 36 ≡ 0 ∷ 7 ∷ 35 ∷ []
unfolding ascending_from contains
sorted = refl

decode-build_cct_example :
    (payload : Bytes) × (build_partition_color_cct some_partitions 500 56 100 1 ≡ ok payload)
    × (decode_partition_color payload ≡ some (cct_state some_partitions 500 56 100 1))
    × (decode_partition payload ≡ some (color (cct_state some_partitions 500 56 100 1)))
decode-build_cct_example =
    decode-build_cct some_partitions 500 56 100 1 (omega arith, (omega arith, (omega arith, tt)))
      some_partitions-IsDistinct (omega arith) (omega arith) (omega arith) (omega arith)

decode-build_hsi_example :
    (payload : Bytes) × (build_partition_color_hsi some_partitions 500 359 100 0 ≡ ok payload)
    × (decode_partition_color payload ≡ some (hsi_state some_partitions 500 359 100 0))
    × (decode_partition payload ≡ some (color (hsi_state some_partitions 500 359 100 0)))
decode-build_hsi_example =
    decode-build_hsi some_partitions 500 359 100 0 (omega arith, (omega arith, (omega arith, tt)))
      some_partitions-IsDistinct (omega arith) (omega arith) (omega arith) (omega arith)

decode-build_effect_example :
    (payload : Bytes) × (state : PartitionEffectState) × (build_partition_effect 10 1 20 5 100 50 90
        30 2 1
      ≡ ok payload)
    × (state ≡ effect_state 10 1 20 5 100 50 90 30 2 1)
    × (decode_partition_effect payload ≡ some state)
    × (decode_partition payload ≡ some (effect state))
    × (trigger_mode_input_raw state ≡ 1)
decode-build_effect_example =
    decode-build_effect 10 1 20 5 100 50 90 30 2 1 (omega arith) (omega arith) (omega arith)
      (omega arith) (omega arith) (omega arith) (omega arith) (omega arith) (omega arith)
      (omega arith)
