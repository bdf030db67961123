-- ===== src/Network/Segments/Parsed.antt =====
-- What a parsed segment or acknowledgment guarantees.
use ha_amaran_ble.Base.{ℕ, ◌+◌, ◌%◌, ◌≤◌, ◌<◌, ◌≡◌, ok, length, arith, length-drop}
use ha_amaran_ble.Base.Bytes.{Bytes}
use ha_amaran_ble.Network.Segments.{AccessSegment, parse_access_segment}

pub record IsSegment (seq : ℕ) (s : AccessSegment) : Type 0 where
  pub offset : s.seg_o ≤ s.seg_n
  pub count : s.seg_n < 32
  pub payload : (1 ≤ length s.payload) × (length s.payload ≤ 12)
  pub full : s.seg_o < s.seg_n → length s.payload ≡ 12
  pub auth_low : s.seq_auth ≤ seq
  pub auth_near : seq < s.seq_auth + 0x2000
  pub auth_zero : s.seq_auth % 0x2000 ≡ s.seq_zero

-- A segment that is accepted has an offset within its at most 32 segments, 1 to 12 bytes of
-- payload, 12 unless it is the last, and its SeqAuth is the greatest number not above SEQ whose
-- low 13 bits are SeqZero.
pub parse_access_segment-IsSegment :
    (seq : ℕ) (pdu : Bytes) (s : AccessSegment)
    → parse_access_segment seq pdu ≡ ok s
    → IsSegment seq s
unfolding parse_access_segment
parse_access_segment-IsSegment seq pdu s h = ground (arith, length-drop 4 pdu)
