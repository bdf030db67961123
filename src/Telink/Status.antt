-- ===== src/Telink/Status.antt =====
-- The steady commands and the state report
-- (custom_components/amaran_ble/amaranble/telink.py, `cct`, `hsi`, `brightness`, `onoff`,
-- `status_request`, `LightState` and `decode_status`). The green/magenta shift, a float in the
-- source, is an integer number of tenths.
use ha_amaran_ble.Base.{
  ℕ, zero, suc, ◌+◌, ◌-◌, ◌*◌, ◌/◌, ◌%◌, ◌&&◌, ltb, List, ◌++◌, Result, ok, ◌>>=◌, min, Bool, true,
  false, not, ◌||◌, Option, none, some, [], ◌∷◌, ◌==◌, if◌then◌else◌, truthy, bool_to_nat, length,
  take, drop, get_or, bit_or,
}
use ha_amaran_ble.Base.Bits.{shl, shr, low_bits}
use ha_amaran_ble.Base.Bytes.{Bytes, to_bytes_little, from_bytes_little, sum}
use ha_amaran_ble.Packet.{Field, field, or_fields, bits, with_checksum}
use ha_amaran_ble.Telink.{max_intensity, min_kelvin, max_kelvin, clamp_round, coarse_gm_value}

abbrev pub cmd_status_request : ℕ
cmd_status_request = 0x0E

abbrev pub cmd_hsi : ℕ
cmd_hsi = 0x81

abbrev pub cmd_cct : ℕ
cmd_cct = 0x82

abbrev pub cmd_onoff : ℕ
cmd_onoff = 0x8C

abbrev pub cmd_brightness : ℕ
cmd_brightness = 0x8F

pub data ℤ : Type 0 where
  pos : ℕ → ℤ
  negsuc : ℕ → ℤ

-- The difference of two naturals.
abbrev pub minus : ℕ → ℕ → ℤ
minus x zero = pos x
minus zero (suc y) = negsuc y
minus (suc x) (suc y) = minus x y

unfoldable pub status_request : Bytes
status_request = with_checksum (0 ∷ 0 ∷ 0 ∷ 0 ∷ 0 ∷ 0 ∷ 0 ∷ 0 ∷ 0 ∷ cmd_status_request ∷ [])

unfoldable pub onoff : Bool → Bytes
onoff on = with_checksum (0 ∷ 0 ∷ 0 ∷ 0 ∷ 0 ∷ 0 ∷ 0 ∷ 0 ∷ bool_to_nat on ∷ cmd_onoff ∷ [])

unfoldable pub brightness : ℕ → Bytes
brightness intensity =
    let value = clamp_round intensity 0 max_intensity in
    with_checksum (
      0
      ∷ 0
      ∷ 0
      ∷ 0
      ∷ 0
      ∷ 0
      ∷ 0
      ∷ shl (low_bits value 2) 6
      ∷ low_bits (shr value 2) 8
      ∷ cmd_brightness
      ∷ [])

-- (gm + 10) * 10 for `gm` in tenths, which the source then clamps to at least 0.
abbrev pub app_gm : ℤ → ℕ
app_gm (pos n) = n + 100
app_gm (negsuc n) = 99 - n

abbrev pub gm_fields : Bool → ℕ → List Field
gm_fields exact shift =
    let high = exact && ltb 100 shift in
    field (bool_to_nat exact) 43 1
    ∷ field (bool_to_nat high) 44 1
    ∷ field (low_bits (if high then shift - 100 else shift) 7) 45 7
    ∷ []

abbrev pub cct_fields : ℕ → ℕ → Bool → ℕ → List Field
cct_fields value tcct exact shift =
    field (low_bits value 2) 62 2
    ∷ (if ltb tcct 1001
        then field tcct 52 10 ∷ gm_fields exact shift
        else field (low_bits (tcct + 0x18) 10) 52 10 ∷ field 1 42 1 ∷ gm_fields exact shift)

abbrev pub cct_high : ℕ → ℕ → ℕ
cct_high value tcct =
    let high = bit_or 0x8200 (low_bits (shr value 2) 8) in
    if ltb tcct 1001 then bit_or high (low_bits (shr tcct 12) 8) else high

abbrev pub cct_payload : ℕ → ℕ → Bool → ℕ → Result Bytes
cct_payload value tcct exact shift = do
  low ← to_bytes_little 8 (or_fields 0 (cct_fields value tcct exact shift))
  let high = cct_high value tcct
  ok (with_checksum (low ++ (low_bits high 8 ∷ low_bits (shr high 8) 8 ∷ [])))

-- The flag selects the exact shift, of up to 200, over the coarse one.
abbrev pub cct_shift : Bool → ℤ → ℕ
cct_shift exact gm = if exact then clamp_round (app_gm gm) 0 200 else coarse_gm_value (app_gm gm)

unfoldable pub cct : ℕ → ℕ → ℤ → Bool → Result Bytes
cct kelvin intensity gm gm_flag =
    cct_payload (clamp_round intensity 0 max_intensity)
      (clamp_round kelvin min_kelvin max_kelvin / 10) gm_flag (cct_shift gm_flag gm)

-- The bytes 5 to 8 of a colour command.
abbrev pub hsi_payload : ℕ → ℕ → ℕ → Bytes
hsi_payload h s value =
    0
    ∷ 0
    ∷ 0
    ∷ 0
    ∷ 0
    ∷ shl (low_bits s 2) 6
    ∷ bit_or (shl (low_bits h 3) 5) (low_bits (shr s 2) 5)
    ∷ bit_or (low_bits (shr h 3) 6) (shl (low_bits value 2) 6)
    ∷ low_bits (shr value 2) 8
    ∷ cmd_hsi
    ∷ []

unfoldable pub hsi : ℕ → ℕ → ℕ → Bytes
hsi hue saturation intensity = with_checksum (
    hsi_payload (low_bits (clamp_round hue 0 360) 9) (low_bits (clamp_round saturation 0 100) 7)
      (clamp_round intensity 0 max_intensity))

-- `gm` is in tenths.
pub record LightState : Type 0 where
  pub on : Bool
  pub is_hsi : Bool
  pub intensity : ℕ
  pub kelvin : ℕ
  pub gm : ℤ
  pub hue : ℕ
  pub saturation : ℕ
  pub gm_flag : Bool

-- Between -10 and 10: from 0 to 200 tenths above -10.
abbrev pub decode_gm : ℕ → ℤ
decode_gm low =
    if truthy (bits low 43 1)
    then minus (min 200 (bits low 44 1 * 100 + bits low 45 7)) 100
    else minus (min 20 (bits low 45 7) * 10) 100

abbrev pub decode_cct : ℕ → ℕ → LightState
decode_cct low high = record {
  on = truthy (bits low 8 1);
  is_hsi = false;
  intensity = low_bits (bit_or (shl high 2) (bits low 62 2)) 10;
  kelvin = (if truthy (bits low 42 1) then bits low 52 10 + 1000 else bits low 52 10) * 10;
  gm = decode_gm low;
  hue = 0;
  saturation = 0;
  gm_flag = truthy (bits low 43 1);
}

abbrev pub decode_hsi : ℕ → Bytes → LightState
decode_hsi low payload =
    let b5 = get_or payload 5 0 in
    let b6 = get_or payload 6 0 in
    let b7 = get_or payload 7 0 in
    let b8 = get_or payload 8 0 in
    record {
      on = truthy (bits low 8 1);
      is_hsi = true;
      intensity = min 1000 (bit_or (shl b8 2) (bits b7 6 2));
      kelvin = 0;
      gm = pos 0;
      hue = min 360 (bit_or (shl (low_bits b7 6) 3) (bits b6 5 3));
      saturation = min 100 (bit_or (shl (low_bits b6 5) 2) (bits b5 6 2));
      gm_flag = false;
    }

unfoldable pub decode_status : Bytes → Option LightState
decode_status payload =
    let command = low_bits (get_or payload 9 0) 7 in
    let low = from_bytes_little (take 8 payload) in
    if not (length payload == 10) || not (get_or payload 0 0 == sum (drop 1 payload) % 256)
    then none
    else if command == low_bits cmd_cct 7
    then some (decode_cct low (bit_or (get_or payload 8 0) (shl (get_or payload 9 0) 8)))
    else if command == low_bits cmd_hsi 7
    then some (decode_hsi low payload)
    else none
