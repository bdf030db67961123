-- ===== src/Telink/RoundTrip/LowBytes.antt =====
-- Reading the state out of the low eight bytes of a colour temperature command.
use ha_amaran_ble.Base.{
  ℕ, ◌+◌, ◌*◌, ◌/◌, ◌%◌, ◌^◌, ◌≤◌, ◌<◌, ◌≡◌, refl, ◌∙◌, false, Bool-cases, inl, inr, some, List, [],
  ◌∷◌, ◌++◌, All, arith, bit_or, ==_refl, min, ltb, if◌then◌else◌, truthy,
}
use ha_amaran_ble.Base.Bits.{shl, shr, low_bits, or_law, op_fields, op-zero, bit_or_comm}
use ha_amaran_ble.Base.Bytes.{
  from_bytes_little, from_bytes_little-little_endian, little_endian, sum,
}
use ha_amaran_ble.Packet.{Field, bits, or_fields, with_checksum}
use ha_amaran_ble.Packet.Fields.{IsField, IsFieldIn, lookup, bits-or_fields, or_fields-below}
use ha_amaran_ble.Packet.Header.{bits_high, bits_zero}
use ha_amaran_ble.Telink.Status.{minus, cct_high, LightState, decode_status}

in_packet : (fs : List Field) → All (IsFieldIn 64) fs → All IsField fs
in_packet [] h = tt
in_packet (f ∷ fs) h = ((h.0.0, omega (arith, h.0.1)), in_packet fs h.1)

-- A field of the low eight bytes, the first of which the checksum replaces.
read_low :
    (fs : List Field) (c s w v : ℕ)
    → All (IsFieldIn 64) fs
    → c < 256
    → 8 ≤ s
    → lookup s w fs ≡ some v
    → bits (from_bytes_little (c ∷ little_endian 7 (or_fields 0 fs / 256))) s w ≡ v
read_low fs c s w v h p le e =
    let packet = or_fields 0 fs in
    let below : packet < 2 ^ 64 = or_fields-below 64 0 fs (omega arith) h in
    bits_high (from_bytes_little (c ∷ little_endian 7 (packet / 256))) packet s w
      (omega (arith, from_bytes_little-little_endian 7 (packet / 256) (omega arith))) le
    ∙ bits-or_fields s w 0 v fs (in_packet fs h) (bits_zero s w) e

pub cct_high_sum : (value tcct : ℕ) → tcct ≤ 2000 → cct_high value tcct ≡ 0x8200 + value / 4 % 256
cct_high_sum value tcct h =
    let zero_high : low_bits (shr tcct 12) 8 ≡ 0 = omega arith in
    let sum_high : bit_or 0x8200 (low_bits (shr value 2) 8) ≡ 0x8200 + value / 4 % 256 =
      op_fields or_law 8 0x82 (low_bits (shr value 2) 8) (omega arith) ∙ omega arith in
    elim (Bool-cases (ltb tcct 1001)) [
      | inl e ↦ rw (e, zero_high, op-zero or_law) sum_high
      | inr e ↦ rw e sum_high
    ]

-- What the report says of the four fields that stand beside the intensity.
pub record Reads (fs : List Field) (value raw wrapped exact high green : ℕ) : Type 0 where
  pub fits : All (IsFieldIn 64) fs
  pub on : lookup 8 1 fs ≡ some 0
  pub low_value : lookup 62 2 fs ≡ some (value % 4)
  pub raw_bits : lookup 52 10 fs ≡ some raw
  pub wrapped_bit : lookup 42 1 fs ≡ some wrapped
  pub exact_bit : lookup 43 1 fs ≡ some exact
  pub high_bit : lookup 44 1 fs ≡ some high
  pub green_bits : lookup 45 7 fs ≡ some green

intensity_of :
    (value : ℕ)
    → value ≤ 1000
    → low_bits (bit_or (shl (bit_or (value / 4) (shl 0x82 8)) 2) (value % 4)) 10 ≡ value
intensity_of value h =
    let b : bit_or (value / 4) (shl 0x82 8) ≡ 0x8200 + value / 4 =
      bit_or_comm (value / 4) (shl 0x82 8) ∙ op_fields or_law 8 0x82 (value / 4) (omega arith) in
    rw (b, op_fields or_law 2 (0x8200 + value / 4) (value % 4) (omega arith)) (omega arith)

abbrev pub state_of_fields : ℕ → ℕ → ℕ → ℕ → ℕ → ℕ → LightState
state_of_fields value raw wrapped exact high green = record {
  on = false;
  is_hsi = false;
  intensity = value;
  kelvin = (if truthy wrapped then raw + 1000 else raw) * 10;
  gm =
      if truthy exact
      then minus (min 200 (high * 100 + green)) 100
      else minus (min 20 green * 10) 100;
  hue = 0;
  saturation = 0;
  gm_flag = truthy exact;
}

pub decode_fields :
    (fs : List Field) (value raw wrapped exact high green : ℕ)
    → value ≤ 1000
    → Reads fs value raw wrapped exact high green
    → decode_status (with_checksum (little_endian 8 (or_fields 0 fs) ++ (value / 4 ∷ 0x82 ∷ [])))
      ≡ some (state_of_fields value raw wrapped exact high green)
unfolding decode_status
decode_fields fs value raw wrapped exact high green le reads =
    let c = sum (little_endian 7 (or_fields 0 fs / 256) ++ (value / 4 ∷ 0x82 ∷ [])) % 256 in
    let r : (s w v : ℕ)
        → 8 ≤ s
        → lookup s w fs ≡ some v
        → bits (from_bytes_little (c ∷ little_endian 7 (or_fields 0 fs / 256))) s w ≡ v =
      λ s w v p e. read_low fs c s w v reads.fits (omega arith) p e in
    rw
      (
        ==_refl,
        r 8 1 0 (omega arith) reads.on,
        r 62 2 (value % 4) (omega arith) reads.low_value,
        intensity_of value le,
        r 42 1 wrapped (omega arith) reads.wrapped_bit,
        r 52 10 raw (omega arith) reads.raw_bits,
        r 43 1 exact (omega arith) reads.exact_bit,
        r 44 1 high (omega arith) reads.high_bit,
        r 45 7 green (omega arith) reads.green_bits,
      )
      refl
