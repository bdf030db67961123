-- ===== src/Network/Segments.antt =====
-- Lower transport: unsegmented and segmented access PDUs and segment acknowledgments
-- (custom_components/amaran_ble/amaranble/network.py).
pub mod RoundTrip
pub mod Parsed
use ha_amaran_ble.Base.{
  ℕ, zero, suc, ◌+◌, ◌-◌, ◌%◌, ◌^◌, ◌≤◌, Bool, not, ◌&&◌, List, [], ◌∷◌, ◌++◌, Result, ok, err,
  guard, value_error, network_decode_error, ltb, leb, ◌==◌, if◌then◌else◌, truthy, length, take,
  drop, get_or, bit_or, ◌>>=◌, ◌>>◌,
}
use ha_amaran_ble.Base.Bits.{shl, shr, low_bits}
use ha_amaran_ble.Base.Bytes.{Bytes, slice, to_bytes_big, from_bytes_big}
use ha_amaran_ble.Base.Chunks.{chunks}
use ha_amaran_ble.Crypto.{byte}

abbrev pub segment_payload_size : ℕ
segment_payload_size = 12

unfoldable pub build_unsegmented_access : ℕ → ℕ → Bytes → Result Bytes
build_unsegmented_access akf aid upper_pdu = do
  guard (leb 1 (length upper_pdu) && leb (length upper_pdu) 15) value_error
  first ← byte (bit_or (shl akf 6) (low_bits aid 6))
  ok (first ++ upper_pdu)

-- SZMIC(1) | SeqZero(13) | SegO(5) | SegN(5)
abbrev pub segment_field : ℕ → ℕ → ℕ → ℕ → ℕ
segment_field szmic seq_zero seg_o seg_n =
    bit_or
      (bit_or (bit_or (shl (low_bits szmic 1) 23) (shl (low_bits seq_zero 13) 10))
        (shl (low_bits seg_o 5) 5))
      (low_bits seg_n 5)

-- 0x80 | (akf << 6) | (aid & 0x3F)
abbrev pub segment_header : ℕ → ℕ → ℕ
segment_header akf aid = bit_or (bit_or 0x80 (shl akf 6)) (low_bits aid 6)

unfoldable pub build_segment : ℕ → ℕ → ℕ → ℕ → ℕ → ℕ → Bytes → Result Bytes
build_segment akf aid szmic seq_zero seg_o seg_n chunk = do
  first ← byte (segment_header akf aid)
  field ← to_bytes_big 3 (segment_field szmic seq_zero seg_o seg_n)
  ok (first ++ (field ++ chunk))

unfoldable pub build_segments_from : ℕ → ℕ → ℕ → ℕ → ℕ → ℕ → List Bytes → Result (List Bytes)
build_segments_from akf aid szmic seq_zero seg_o seg_n [] = ok []
build_segments_from akf aid szmic seq_zero seg_o seg_n (chunk ∷ rest) = do
  segment ← build_segment akf aid szmic seq_zero seg_o seg_n chunk
  more ← build_segments_from akf aid szmic seq_zero (seg_o + 1) seg_n rest
  ok (segment ∷ more)

unfoldable pub build_access_segments : ℕ → ℕ → ℕ → Bytes → ℕ → Result (List Bytes)
build_access_segments akf aid seq_zero upper_pdu szmic = do
  guard (leb 1 (length upper_pdu)) value_error
  let cs = chunks segment_payload_size upper_pdu
  let seg_n = length cs - 1
  guard (leb seg_n 31) value_error
  build_segments_from akf aid szmic seq_zero 0 seg_n cs

pub record SegmentAck : Type 0 where
  pub seq_zero : ℕ
  pub block_ack : ℕ
  pub obo : Bool

unfoldable pub acknowledges_all : SegmentAck → ℕ → Bool
acknowledges_all ack segment_count = ack.block_ack == 2 ^ segment_count - 1

unfoldable pub parse_segment_ack : Bytes → Result SegmentAck
parse_segment_ack params = do
  guard (length params == 6) network_decode_error
  let field = from_bytes_big (take 2 params)
  guard (low_bits field 2 == 0) network_decode_error
  ok (record {
    seq_zero = low_bits (shr field 2) 13;
    block_ack = from_bytes_big (slice 2 6 params);
    obo = truthy (shr field 15);
  })

pub record AccessSegment : Type 0 where
  pub akf : ℕ
  pub aid : ℕ
  pub szmic : ℕ
  pub seq_zero : ℕ
  pub seg_o : ℕ
  pub seg_n : ℕ
  pub seq_auth : ℕ
  pub payload : Bytes

-- (seq - seq_zero) & 0x1FFF, which Python computes modulo 2 ^ 13 also below zero.
abbrev pub seq_distance : ℕ → ℕ → ℕ
seq_distance seq seq_zero = (seq + 0x2000 - seq_zero) % 0x2000

abbrev pub read_segment : ℕ → ℕ → ℕ → Bytes → Result AccessSegment
read_segment seq first field payload = do
  let seq_zero = low_bits (shr field 10) 13
  let seg_o = low_bits (shr field 5) 5
  let seg_n = low_bits field 5
  guard (leb seg_o seg_n) network_decode_error
  guard (leb (length payload) segment_payload_size) network_decode_error
  guard (not (ltb seg_o seg_n && not (length payload == segment_payload_size))) network_decode_error
  guard (leb (seq_distance seq seq_zero) seq) network_decode_error
  ok (record {
    akf = low_bits (shr first 6) 1;
    aid = low_bits first 6;
    szmic = low_bits (shr field 23) 1;
    seq_zero = seq_zero;
    seg_o = seg_o;
    seg_n = seg_n;
    seq_auth = seq - seq_distance seq seq_zero;
    payload = payload;
  })

unfoldable pub parse_access_segment : ℕ → Bytes → Result AccessSegment
parse_access_segment seq lower_pdu = do
  guard (leb seq 0xFFFFFF) network_decode_error
  guard (leb 5 (length lower_pdu)) network_decode_error
  guard (low_bits (shr (get_or lower_pdu 0 0) 7) 1 == 1) network_decode_error
  read_segment seq (get_or lower_pdu 0 0) (from_bytes_big (slice 1 4 lower_pdu)) (drop 4 lower_pdu)
