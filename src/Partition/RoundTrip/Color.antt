-- ===== src/Partition/RoundTrip/Color.antt =====
-- Partition color packets, built and read back; the names of the CCT values change as the source
-- says.
use ha_amaran_ble.Base.{ℕ, ◌≤◌, ◌<◌, ◌≡◌, refl, some, none, List, [], ◌∷◌, All, ok, arith}
use ha_amaran_ble.Base.Bytes.{Bytes}
use ha_amaran_ble.Packet.{Field, field}
use ha_amaran_ble.Packet.Header.{IsFrame, wire_value_ok}
use ha_amaran_ble.Partition.{
  cmd_partition_color, op_write, mode_cct, mode_hsi, PartitionColorState, color, indexes,
  build_partition_color_cct, build_partition_color_hsi, decode_partition_color,
}
use ha_amaran_ble.Partition.Effect.{decode_partition}
use ha_amaran_ble.Partition.Indexes.{IsDistinct, ascending_from, indexes-index_mask}
use ha_amaran_ble.Partition.RoundTrip.{
  all_fields, payload_of, build_payload-IsFrame, decode_header_ok,
}

-- The selected partitions, from first to last.
abbrev pub ascending : List ℕ → List ℕ
ascending selected = ascending_from selected 0 36

abbrev cct_fields : ℕ → ℕ → ℕ → ℕ → ℕ → List Field
cct_fields mask intensity cct duv fx_state =
    field duv 8 8
    ∷ field cct 16 8
    ∷ field intensity 24 10
    ∷ field mode_cct 34 1
    ∷ field fx_state 35 1
    ∷ field mask 36 36
    ∷ []

-- The decoder's names for the two values are those of the builder, exchanged.
abbrev pub cct_state : List ℕ → ℕ → ℕ → ℕ → ℕ → PartitionColorState
cct_state selected intensity cct duv fx_state = record {
  light_mode = mode_cct;
  intensity_raw = intensity;
  fx_state_raw = fx_state;
  indexes_list = ascending selected;
  cct_raw = some duv;
  duv_raw = some cct;
  hue_raw = none;
  saturation_raw = none;
}

decode_cct_ok :
    (selected : List ℕ) (m i c d x : ℕ) (payload : Bytes)
    → IsFrame
        (all_fields cmd_partition_color op_write (cct_fields m i c d x))
        cmd_partition_color
        payload
    → indexes m ≡ ascending selected
    → (decode_partition_color payload ≡ some (cct_state selected i c d x))
      × (decode_partition payload ≡ some (color (cct_state selected i c d x)))
unfolding decode_partition_color decode_partition
decode_cct_ok selected m i c d x payload frame read_back =
    let decoded : decode_partition_color payload ≡ some (cct_state selected i c d x) =
      rw
        (decode_header_ok cmd_partition_color op_write
          (all_fields cmd_partition_color op_write (cct_fields m i c d x)) payload frame refl)
        (rw
          (
            frame.read 34 1 0 (omega arith) refl,
            frame.read 24 10 i (omega arith) refl,
            frame.read 35 1 x (omega arith) refl,
            frame.read 36 36 m (omega arith) refl,
            frame.read 8 8 d (omega arith) refl,
            frame.read 16 8 c (omega arith) refl,
            read_back,
          )
          refl) in
    (decoded, rw (frame.length, frame.command_bits, decoded) refl)

-- A CCT color packet for distinct partitions and values within their widths is built, and decoded
-- by `decode_partition_color` and `decode_partition` with the partitions in ascending order and
-- the values under each other's names.
pub decode-build_cct :
    (selected : List ℕ) (intensity cct duv fx_state : ℕ)
    → All (λ i. i ≤ 35) selected
    → IsDistinct selected
    → intensity < 1024
    → cct < 256
    → duv < 256
    → fx_state < 2
    → (payload : Bytes) × (build_partition_color_cct selected intensity cct duv fx_state
        ≡ ok payload)
      × (decode_partition_color payload ≡ some (cct_state selected intensity cct duv fx_state))
      × (decode_partition payload ≡ some (color (cct_state selected intensity cct duv fx_state)))
unfolding build_partition_color_cct
decode-build_cct selected i c d x hs distinct hi hc hd hx =
    let (m, masked, m_lt, read_back) = indexes-index_mask selected hs distinct in
    let (built, frame) =
      build_payload-IsFrame cmd_partition_color op_write (cct_fields m i c d x) (omega arith)
        (omega arith)
        (
          (hd, omega arith),
          (
            (hc, omega arith),
            (
              (hi, omega arith),
              ((omega arith, omega arith), ((hx, omega arith), ((m_lt, omega arith), tt))),
            ),
          ),
        )
        refl in
    let (decoded, dispatched) = decode_cct_ok selected m i c d x _ frame read_back in
    (
      payload_of cmd_partition_color op_write (cct_fields m i c d x),
      rw
          (
            wire_value_ok d 8 hd,
            wire_value_ok c 8 hc,
            wire_value_ok i 10 hi,
            wire_value_ok x 1 hx,
            masked,
          )
          built,
      decoded,
      dispatched,
    )

abbrev hsi_fields : ℕ → ℕ → ℕ → ℕ → ℕ → List Field
hsi_fields mask intensity hue saturation fx_state =
    field saturation 8 7
    ∷ field hue 15 9
    ∷ field intensity 24 10
    ∷ field mode_hsi 34 1
    ∷ field fx_state 35 1
    ∷ field mask 36 36
    ∷ []

abbrev pub hsi_state : List ℕ → ℕ → ℕ → ℕ → ℕ → PartitionColorState
hsi_state selected intensity hue saturation fx_state = record {
  light_mode = mode_hsi;
  intensity_raw = intensity;
  fx_state_raw = fx_state;
  indexes_list = ascending selected;
  cct_raw = none;
  duv_raw = none;
  hue_raw = some hue;
  saturation_raw = some saturation;
}

decode_hsi_ok :
    (selected : List ℕ) (m i h s x : ℕ) (payload : Bytes)
    → IsFrame
        (all_fields cmd_partition_color op_write (hsi_fields m i h s x))
        cmd_partition_color
        payload
    → indexes m ≡ ascending selected
    → (decode_partition_color payload ≡ some (hsi_state selected i h s x))
      × (decode_partition payload ≡ some (color (hsi_state selected i h s x)))
unfolding decode_partition_color decode_partition
decode_hsi_ok selected m i h s x payload frame read_back =
    let decoded : decode_partition_color payload ≡ some (hsi_state selected i h s x) =
      rw
        (decode_header_ok cmd_partition_color op_write
          (all_fields cmd_partition_color op_write (hsi_fields m i h s x)) payload frame refl)
        (rw
          (
            frame.read 34 1 1 (omega arith) refl,
            frame.read 24 10 i (omega arith) refl,
            frame.read 35 1 x (omega arith) refl,
            frame.read 36 36 m (omega arith) refl,
            frame.read 8 7 s (omega arith) refl,
            frame.read 15 9 h (omega arith) refl,
            read_back,
          )
          refl) in
    (decoded, rw (frame.length, frame.command_bits, decoded) refl)

-- An HSI color packet for distinct partitions and values within their widths is built, and
-- `decode_partition_color` and `decode_partition` give its values back, with the partitions in
-- ascending order.
pub decode-build_hsi :
    (selected : List ℕ) (intensity hue saturation fx_state : ℕ)
    → All (λ i. i ≤ 35) selected
    → IsDistinct selected
    → intensity < 1024
    → hue < 512
    → saturation < 128
    → fx_state < 2
    → (payload : Bytes) × (build_partition_color_hsi selected intensity hue saturation fx_state
        ≡ ok payload)
      × (decode_partition_color payload
          ≡ some (hsi_state selected intensity hue saturation fx_state))
      × (decode_partition payload
          ≡ some (color (hsi_state selected intensity hue saturation fx_state)))
unfolding build_partition_color_hsi
decode-build_hsi selected i h s x hs distinct hi hh hsat hx =
    let (m, masked, m_lt, read_back) = indexes-index_mask selected hs distinct in
    let (built, frame) =
      build_payload-IsFrame cmd_partition_color op_write (hsi_fields m i h s x) (omega arith)
        (omega arith)
        (
          (hsat, omega arith),
          (
            (hh, omega arith),
            (
              (hi, omega arith),
              ((omega arith, omega arith), ((hx, omega arith), ((m_lt, omega arith), tt))),
            ),
          ),
        )
        refl in
    let (decoded, dispatched) = decode_hsi_ok selected m i h s x _ frame read_back in
    (
      payload_of cmd_partition_color op_write (hsi_fields m i h s x),
      rw
          (
            wire_value_ok s 7 hsat,
            wire_value_ok h 9 hh,
            wire_value_ok i 10 hi,
            wire_value_ok x 1 hx,
            masked,
          )
          built,
      decoded,
      dispatched,
    )
