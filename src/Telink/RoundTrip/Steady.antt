-- ===== src/Telink/RoundTrip/Steady.antt =====
-- The round trip of the colour temperature command.
use ha_amaran_ble.Base.{
  ℕ, ◌+◌, ◌-◌, ◌*◌, ◌/◌, ◌%◌, ◌≤◌, ◌<◌, ◌≡◌, refl, ap, ◌∙◌, Bool, true, false, Bool-cases, inl, inr,
  some, List, [], ◌∷◌, ◌++◌, All, arith, min, ok, ltb, ltb→lt, if◌then◌else◌, bool_to_nat, ◌&&◌,
}
use ha_amaran_ble.Base.Bits.{shr, low_bits}
use ha_amaran_ble.Base.Bytes.{Bytes, little_endian, to_bytes_little_ok}
use ha_amaran_ble.Packet.{Field, field, or_fields, with_checksum}
use ha_amaran_ble.Packet.Fields.{IsFieldIn, or_fields-below}
use ha_amaran_ble.Telink.{max_intensity, min_kelvin, max_kelvin, clamp_round}
use ha_amaran_ble.Telink.Status.{
  ℤ, minus, gm_fields, cct_fields, cct_payload, cct_shift, cct, LightState, decode_status,
}
use ha_amaran_ble.Telink.RoundTrip.LowBytes.{cct_high_sum, decode_fields, Reads, state_of_fields}

-- The low bytes of the two ranges of colour temperatures, with either kind of shift.
abbrev gm_high : Bool → ℕ → ℕ
gm_high exact shift = bool_to_nat (exact && ltb 100 shift)

abbrev gm_low : Bool → ℕ → ℕ
gm_low exact shift = low_bits (if exact && ltb 100 shift then shift - 100 else shift) 7

bit-lt : (b : Bool) → bool_to_nat b < 2
bit-lt true = omega arith
bit-lt false = omega arith

abbrev narrow_fields : ℕ → ℕ → Bool → ℕ → List Field
narrow_fields value tcct exact shift =
    field (low_bits value 2) 62 2 ∷ field tcct 52 10 ∷ gm_fields exact shift

abbrev wide_fields : ℕ → ℕ → Bool → ℕ → List Field
wide_fields value tcct exact shift =
    field (low_bits value 2) 62 2
    ∷ field (low_bits (tcct + 0x18) 10) 52 10
    ∷ field 1 42 1
    ∷ gm_fields exact shift

narrow_fields-Reads :
    (value tcct : ℕ) (exact : Bool) (shift : ℕ)
    → tcct < 1001
    → Reads
        (narrow_fields value tcct exact shift)
        value
        tcct
        0
        (bool_to_nat exact)
        (gm_high exact shift)
        (gm_low exact shift)
narrow_fields-Reads value tcct exact shift h = record {
  fits = (
    (omega arith, omega arith),
    (
      (omega arith, omega arith),
      (
        (bit-lt exact, omega arith),
        ((bit-lt (exact && ltb 100 shift), omega arith), ((omega arith, omega arith), tt)),
      ),
    ),
  );
  on = refl;
  low_value = refl;
  raw_bits = refl;
  wrapped_bit = refl;
  exact_bit = refl;
  high_bit = refl;
  green_bits = refl;
}

wide_fields-Reads :
    (value tcct : ℕ) (exact : Bool) (shift : ℕ)
    → Reads
        (wide_fields value tcct exact shift)
        value
        (low_bits (tcct + 0x18) 10)
        1
        (bool_to_nat exact)
        (gm_high exact shift)
        (gm_low exact shift)
wide_fields-Reads value tcct exact shift = record {
  fits = (
    (omega arith, omega arith),
    (
      (omega arith, omega arith),
      (
        (omega arith, omega arith),
        (
          (bit-lt exact, omega arith),
          ((bit-lt (exact && ltb 100 shift), omega arith), ((omega arith, omega arith), tt)),
        ),
      ),
    ),
  );
  on = refl;
  low_value = refl;
  raw_bits = refl;
  wrapped_bit = refl;
  exact_bit = refl;
  high_bit = refl;
  green_bits = refl;
}

gm_exact :
    (shift : ℕ) → shift ≤ 200 → min 200 (gm_high true shift * 100 + gm_low true shift) ≡ shift
gm_exact shift h = ground arith

gm_coarse : (shift : ℕ) → shift ≤ 20 → min 20 (gm_low false shift) ≡ shift
gm_coarse shift h = ground arith

built_as :
    (value tcct : ℕ) (fs : List Field) (exact : Bool) (shift : ℕ)
    → value ≤ 1000
    → tcct ≤ 2000
    → cct_fields value tcct exact shift ≡ fs
    → All (IsFieldIn 64) fs
    → cct_payload value tcct exact shift
      ≡ ok (with_checksum (little_endian 8 (or_fields 0 fs) ++ (value / 4 ∷ 0x82 ∷ [])))
built_as value tcct fs exact shift le h e fits =
    let e8 : low_bits (0x8200 + value / 4 % 256) 8 ≡ value / 4 = omega arith in
    let e9 : low_bits (shr (0x8200 + value / 4 % 256) 8) 8 ≡ 0x82 = omega arith in
    rw
      (
        e,
        to_bytes_little_ok 8 (or_fields 0 fs) (or_fields-below 64 0 fs (omega arith) fits),
        cct_high_sum value tcct h,
        e8,
        e9,
      )
      refl

-- The state of a colour temperature command.
abbrev pub cct_state : ℕ → ℕ → Bool → ℕ → LightState
cct_state value tcct exact shift = record {
  on = false;
  is_hsi = false;
  intensity = value;
  kelvin = tcct * 10;
  gm = minus (if exact then shift else shift * 10) 100;
  hue = 0;
  saturation = 0;
  gm_flag = exact;
}

narrow_state :
    (value tcct : ℕ) (exact : Bool) (shift : ℕ)
    → shift ≤ 200
    → (exact ≡ false → shift ≤ 20)
    → state_of_fields value tcct 0 (bool_to_nat exact) (gm_high exact shift) (gm_low exact shift)
      ≡ cct_state value tcct exact shift
narrow_state value tcct true shift h k = rw (gm_exact shift h) refl
narrow_state value tcct false shift h k = rw (gm_coarse shift (k refl)) refl

wide_state :
    (value tcct : ℕ) (exact : Bool) (shift : ℕ)
    → 1001 ≤ tcct
    → tcct ≤ 2000
    → shift ≤ 200
    → (exact ≡ false → shift ≤ 20)
    → state_of_fields value
        (low_bits (tcct + 0x18) 10)
        1
        (bool_to_nat exact)
        (gm_high exact shift)
        (gm_low exact shift)
      ≡ cct_state value tcct exact shift
wide_state value tcct true shift p q h k =
    let kelvin : low_bits (tcct + 0x18) 10 + 1000 ≡ tcct = omega arith in
    rw (kelvin, gm_exact shift h) refl
wide_state value tcct false shift p q h k =
    let kelvin : low_bits (tcct + 0x18) 10 + 1000 ≡ tcct = omega arith in
    rw (kelvin, gm_coarse shift (k refl)) refl

-- The bytes of the command, from the fields of its low part.
abbrev cct_bytes : ℕ → List Field → Bytes
cct_bytes value fs = with_checksum (little_endian 8 (or_fields 0 fs) ++ (value / 4 ∷ 0x82 ∷ []))

decode-cct_payload :
    (value tcct : ℕ) (exact : Bool) (shift : ℕ)
    → value ≤ 1000
    → tcct ≤ 2000
    → shift ≤ 200
    → (exact ≡ false → shift ≤ 20)
    → (payload : Bytes) × (cct_payload value tcct exact shift ≡ ok payload)
      × (decode_status payload ≡ some (cct_state value tcct exact shift))
decode-cct_payload value tcct exact shift le q h k = elim (Bool-cases (ltb tcct 1001)) [
  | inl e ↦
      let fs = narrow_fields value tcct exact shift in
      let reads = narrow_fields-Reads value tcct exact shift (ltb→lt tcct 1001 e) in
      (
        cct_bytes value fs,
        built_as value tcct fs exact shift le q (rw e refl) reads.fits,
        decode_fields fs value tcct 0 (bool_to_nat exact) (gm_high exact shift) (gm_low exact shift)
              le reads
            ∙ ap some (narrow_state value tcct exact shift h k),
      )
  | inr e ↦
      let fs = wide_fields value tcct exact shift in
      let reads = wide_fields-Reads value tcct exact shift in
      (
        cct_bytes value fs,
        built_as value tcct fs exact shift le q (rw e refl) reads.fits,
        decode_fields fs value (low_bits (tcct + 0x18) 10) 1 (bool_to_nat exact)
              (gm_high exact shift) (gm_low exact shift) le reads
            ∙ ap some (wide_state value tcct exact shift (ground arith) q h k),
      )
]

cct_shift-le : (exact : Bool) (gm : ℤ) → cct_shift exact gm ≤ 200
cct_shift-le true gm = omega arith
cct_shift-le false gm = ground arith

cct_shift_coarse : (exact : Bool) (gm : ℤ) → exact ≡ false → cct_shift exact gm ≤ 20
cct_shift_coarse true gm e = ground arith
cct_shift_coarse false gm e = ground arith

-- Whatever the arguments, a colour temperature command is built, and the state it decodes to is off
-- in the bit that only a report sets, with the intensity clamped to 1000, the colour temperature
-- clamped to 800 to 20000 K in whole tens, on both sides of the range that wraps, and the G/M shift
-- in tenths: clamped when exact, and in whole steps of ten when coarse.
pub decode_status-cct :
    (kelvin intensity : ℕ) (gm : ℤ) (gm_flag : Bool)
    → (payload : Bytes) × (cct kelvin intensity gm gm_flag ≡ ok payload)
      × (decode_status payload
          ≡ some (
              cct_state
                (min 1000 intensity)
                (clamp_round kelvin min_kelvin max_kelvin / 10)
                gm_flag
                (cct_shift gm_flag gm)))
unfolding cct
decode_status-cct kelvin intensity gm gm_flag =
    let v : clamp_round intensity 0 max_intensity ≡ min 1000 intensity = omega arith in
    rw v (
      decode-cct_payload (min 1000 intensity) (clamp_round kelvin min_kelvin max_kelvin / 10)
        gm_flag (cct_shift gm_flag gm) (omega arith) (omega arith) (cct_shift-le gm_flag gm)
        (cct_shift_coarse gm_flag gm))
