-- ===== src/Network/Segments/RoundTrip.antt =====
-- Segments that are built are parsed back, whichever later number carries them.
use ha_amaran_ble.Base.Bytes.{Bytes, big_endian, from_bytes_big, to_bytes_big_ok}
use ha_amaran_ble.Base.{
  ℕ, ◌+◌, ◌-◌, ◌*◌, ◌%◌, ◌^◌, ◌≤◌, ◌<◌, ◌≡◌, ◌∙◌, true, ◌∷◌, ◌++◌, ok, length, arith, bit_or,
  lt→ltb, le→leb, leb, ◌==◌,
}
use ha_amaran_ble.Base.Bits.{shl, shr, low_bits, or_law, op_fields}
use ha_amaran_ble.Network.Segments.{
  AccessSegment, parse_access_segment, read_segment, segment_field, segment_header, build_segment,
  seq_distance,
}

-- The fields fit their widths, and only the last segment may be short.
pub record IsBuildable (s : AccessSegment) : Type 0 where
  pub akf : s.akf ≤ 1
  pub aid : s.aid < 64
  pub szmic : s.szmic ≤ 1
  pub offset : s.seg_o ≤ s.seg_n
  pub count : s.seg_n < 32
  pub payload : (1 ≤ length s.payload) × (length s.payload ≤ 12)
  pub full : s.seg_o < s.seg_n → length s.payload ≡ 12
  pub zero_bits : s.seq_zero ≡ s.seq_auth % 0x2000

field_sum :
    (szmic z o n : ℕ)
    → segment_field szmic z o n ≡ szmic % 2 * 2 ^ 23 + z % 2 ^ 13 * 1024 + o % 32 * 32 + n % 32
field_sum szmic z o n =
    let a = szmic % 2 in
    let b = z % 2 ^ 13 in
    let c = o % 32 in
    let one : bit_or (shl a 23) (shl b 10) ≡ shl (a * 2 ^ 13 + b) 10 =
      op_fields or_law 23 a (shl b 10) (omega arith) ∙ omega arith in
    let two : bit_or (shl (a * 2 ^ 13 + b) 10) (shl c 5) ≡ shl ((a * 2 ^ 13 + b) * 32 + c) 5 =
      op_fields or_law 10 (a * 2 ^ 13 + b) (shl c 5) (omega arith) ∙ omega arith in
    rw (one, two, op_fields or_law 5 ((a * 2 ^ 13 + b) * 32 + c) (n % 32) (omega arith))
      (omega arith)

header_sum : (akf aid : ℕ) → akf ≤ 1 → segment_header akf aid ≡ 128 + akf * 64 + aid % 64
header_sum akf aid h =
    let one : bit_or 0x80 (shl akf 6) ≡ shl (2 + akf) 6 =
      op_fields or_law 7 1 (shl akf 6) (omega arith) ∙ omega arith in
    rw (one, op_fields or_law 6 (2 + akf) (aid % 64) (omega arith)) (omega arith)

abbrev segment_bytes : ℕ → ℕ → ℕ → ℕ → ℕ → ℕ → Bytes → Bytes
segment_bytes akf aid szmic z o n chunk =
    segment_header akf aid ∷ (big_endian 3 (segment_field szmic z o n) ++ chunk)

build_segment_ok :
    (akf aid szmic z o n : ℕ) (chunk : Bytes)
    → akf ≤ 1
    → build_segment akf aid szmic z o n chunk ≡ ok (segment_bytes akf aid szmic z o n chunk)
unfolding build_segment
build_segment_ok akf aid szmic z o n chunk h = rw (
  lt→ltb (segment_header akf aid) 256 (omega (arith, header_sum akf aid h)),
  to_bytes_big_ok 3 (segment_field szmic z o n) (omega (arith, field_sum szmic z o n)),
)

module _ (s : AccessSegment) (seq : ℕ) (v : IsBuildable s) (lo : s.seq_auth ≤ seq)
    (near : seq < s.seq_auth + 0x2000) (hi : seq ≤ 0xFFFFFF) where
  abbrev field : ℕ
  field = segment_field s.szmic s.seq_zero s.seg_o s.seg_n

  field_eq : field ≡ s.szmic * 2 ^ 23 + s.seq_zero * 1024 + s.seg_o * 32 + s.seg_n
  field_eq =
      omega (
        arith,
        field_sum s.szmic s.seq_zero s.seg_o s.seg_n,
        v.szmic,
        v.offset,
        v.count,
        v.zero_bits,
      )

  field_bytes : from_bytes_big (big_endian 3 field) ≡ field
  field_bytes = omega (arith, field_eq, v.szmic, v.offset, v.count, v.zero_bits)

  read_eq : read_segment seq (segment_header s.akf s.aid) field s.payload ≡ ok s
  read_eq =
      let z : low_bits (shr field 10) 13 ≡ s.seq_zero =
        omega (arith, field_eq, v.offset, v.count, v.zero_bits) in
      let o : low_bits (shr field 5) 5 ≡ s.seg_o = omega (arith, field_eq, v.offset, v.count) in
      let n : low_bits field 5 ≡ s.seg_n = omega (arith, field_eq, v.count) in
      let m : low_bits (shr field 23) 1 ≡ s.szmic =
        omega (arith, field_eq, v.offset, v.count, v.szmic, v.zero_bits) in
      let d : seq_distance seq s.seq_zero ≡ seq - s.seq_auth = omega (arith, v.zero_bits) in
      let k : low_bits (shr (segment_header s.akf s.aid) 6) 1 ≡ s.akf =
        omega (arith, header_sum s.akf s.aid v.akf, v.akf) in
      let a : low_bits (segment_header s.akf s.aid) 6 ≡ s.aid =
        omega (arith, header_sum s.akf s.aid v.akf, v.aid) in
      simp (z, o, n, m, k, a, d) (ground arith)

  abbrev pdu : Bytes
  pdu = segment_bytes s.akf s.aid s.szmic s.seq_zero s.seg_o s.seg_n s.payload

  parse_eq : parse_access_segment seq pdu ≡ ok s
  unfolding parse_access_segment
  parse_eq =
      let top : (low_bits (shr (segment_header s.akf s.aid) 7) 1 == 1) ≡ true =
        ground (arith, header_sum s.akf s.aid v.akf, v.akf) in
      let long : leb 5 (length pdu) ≡ true = ground arith in
      rw (le→leb seq 0xFFFFFF hi, top, long, field_bytes) read_eq

-- A segment is built, and is parsed back, payload and all, from any number of the 8192 from
-- SeqAuth on that carries it: so also when it is sent again.
pub parse-build_segment :
    (s : AccessSegment) (seq : ℕ)
    → IsBuildable s
    → s.seq_auth ≤ seq
    → seq < s.seq_auth + 0x2000
    → seq ≤ 0xFFFFFF
    → (pdu : Bytes) × (build_segment s.akf s.aid s.szmic s.seq_zero s.seg_o s.seg_n s.payload
        ≡ ok pdu)
      × (parse_access_segment seq pdu ≡ ok s)
parse-build_segment s seq v lo near hi = (
  segment_bytes s.akf s.aid s.szmic s.seq_zero s.seg_o s.seg_n s.payload,
  build_segment_ok s.akf s.aid s.szmic s.seq_zero s.seg_o s.seg_n s.payload v.akf,
  parse_eq s seq v lo near hi,
)
