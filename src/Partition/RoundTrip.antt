-- ===== src/Partition/RoundTrip.antt =====
-- What the round trips of the partition packets share.
pub mod Color
pub mod Effect
pub mod Config
use ha_amaran_ble.Base.{
  ℕ, ◌+◌, ◌*◌, ◌%◌, ◌^◌, ◌≤◌, ◌<◌, ◌≡◌, refl, sym, ap, ◌∙◌, true, Option, some, none, List, [], ◌∷◌,
  ◌++◌, All, Result, ok, arith, ==_refl, length, get_or, bit_or, if◌then◌else◌,
}
use ha_amaran_ble.Base.Bits.{shl, low_bits}
use ha_amaran_ble.Base.Bytes.{Bytes, from_bytes_little}
use ha_amaran_ble.Packet.{Field, field, bits, or_fields, finalize, has_header}
use ha_amaran_ble.Packet.Fields.{IsField, lookup}
use ha_amaran_ble.Packet.Header.{framed, framed-IsFrame, IsFrame, or_fields_first, wire_value_ok}
use ha_amaran_ble.Partition.{
  cmd_partition_color, op_write, mode_cct, mode_hsi, PartitionColorState, PartitionState, color,
  build_payload, decode_header, Header, index_mask, indexes, build_partition_color_cct,
  build_partition_color_hsi, decode_partition_color,
}
use ha_amaran_ble.Partition.Effect.{decode_partition}
use ha_amaran_ble.Partition.Indexes.{IsDistinct, ascending_from, indexes-index_mask}

abbrev pub all_fields : ℕ → ℕ → List Field → List Field
all_fields command operation fs = field command 72 7 ∷ field operation 79 1 ∷ fs

abbrev pub payload_of : ℕ → ℕ → List Field → Bytes
payload_of command operation fs = framed (or_fields 0 (all_fields command operation fs))

pub build_payload-IsFrame :
    (command operation : ℕ) (fs : List Field)
    → command < 128
    → operation < 2
    → All IsField fs
    → lookup 72 7 (all_fields command operation fs) ≡ some command
    → (build_payload command operation fs ≡ ok (payload_of command operation fs))
      × IsFrame (all_fields command operation fs) command (payload_of command operation fs)
unfolding build_payload
build_payload-IsFrame command operation fs c o h e =
    let (built, frame) =
      framed-IsFrame (all_fields command operation fs) command
        ((c, omega arith), ((o, omega arith), h)) e in
    (ap finalize (or_fields_first (field command 72 7) (field operation 79 1 ∷ fs)) ∙ built, frame)

abbrev pub header_of : Bytes → ℕ → Header
header_of payload operation = record { packet = from_bytes_little payload; operation = operation }

pub decode_header_ok :
    (command operation : ℕ) (fs : List Field) (payload : Bytes)
    → IsFrame fs command payload
    → lookup 79 1 fs ≡ some operation
    → decode_header payload command ≡ some (header_of payload operation)
unfolding decode_header
decode_header_ok command operation fs payload frame e =
    rw (frame.header, frame.read 79 1 operation (omega arith) e) refl
