-- ===== src/Telink/RoundTrip/Status.antt =====
-- The round trip of the steady colour command.
use ha_amaran_ble.Base.{
  ℕ, [], ◌∷◌, ◌+◌, ◌*◌, ◌/◌, ◌%◌, ◌^◌, ◌≤◌, ◌<◌, ◌≡◌, refl, min, ◌∙◌, Bool, true, false, some, none,
  arith, bit_or, ==_refl,
}
use ha_amaran_ble.Base.Bits.{shl, shr, low_bits, or_law, op_fields, bit_or_comm}
use ha_amaran_ble.Base.Bytes.{from_bytes_little, sum}
use ha_amaran_ble.Packet.{bits, with_checksum, has_header}
use ha_amaran_ble.Telink.{max_intensity, clamp_round}
use ha_amaran_ble.Telink.Status.{
  hsi, hsi_payload, decode_status, pos, onoff, brightness, status_request, cmd_onoff,
  cmd_brightness, cmd_status_request,
}

join : (x q k r : ℕ) → r < 2 ^ k → x ≡ q * 2 ^ k + r → bit_or (shl q k) r ≡ x
join x q k r h e = op_fields or_law k q r h ∙ omega (arith, e)

-- What each byte of the command holds.
low_byte :
    (h s : ℕ) → s < 128 → bit_or (shl (low_bits h 3) 5) (low_bits (shr s 2) 5) ≡ h % 8 * 32 + s / 4
low_byte h s p =
    join (h % 8 * 32 + s / 4) (low_bits h 3) 5 (low_bits (shr s 2) 5) (omega arith) (omega arith)

middle_byte :
    (h v : ℕ) → h < 512 → bit_or (low_bits (shr h 3) 6) (shl (low_bits v 2) 6) ≡ v % 4 * 64 + h / 8
middle_byte h v p =
    bit_or_comm (low_bits (shr h 3) 6) (shl (low_bits v 2) 6)
    ∙ join (v % 4 * 64 + h / 8) (low_bits v 2) 6 (low_bits (shr h 3) 6) (omega arith) (omega arith)

read_saturation :
    (h s : ℕ)
    → s < 128
    → bit_or (shl (low_bits (h % 8 * 32 + s / 4) 5) 2) (bits (shl (low_bits s 2) 6) 6 2) ≡ s
unfolding bits
read_saturation h s p =
    join s (low_bits (h % 8 * 32 + s / 4) 5) 2 (low_bits (shr (shl (low_bits s 2) 6) 6) 2)
      (omega arith) (omega arith)

read_hue :
    (h s v : ℕ)
    → h < 512
    → s < 128
    → bit_or (shl (low_bits (v % 4 * 64 + h / 8) 6) 3) (bits (h % 8 * 32 + s / 4) 5 3) ≡ h
unfolding bits
read_hue h s v p q =
    join h (low_bits (v % 4 * 64 + h / 8) 6) 3 (low_bits (shr (h % 8 * 32 + s / 4) 5) 3)
      (omega arith) (omega arith)

read_intensity :
    (h v : ℕ)
    → h < 512
    → v < 1024
    → bit_or (shl (low_bits (shr v 2) 8) 2) (bits (v % 4 * 64 + h / 8) 6 2) ≡ v
unfolding bits
read_intensity h v p q =
    join v (low_bits (shr v 2) 8) 2 (low_bits (shr (v % 4 * 64 + h / 8) 6) 2) (omega arith)
      (omega arith)

switch_off :
    (c a5 a6 a7 : ℕ)
    → c < 256
    → bits (from_bytes_little (c ∷ 0 ∷ 0 ∷ 0 ∷ 0 ∷ a5 ∷ a6 ∷ a7 ∷ [])) 8 1 ≡ 0
unfolding bits
switch_off c a5 a6 a7 h = omega arith

decode_hsi_payload :
    (h s v : ℕ)
    → h ≤ 360
    → s ≤ 100
    → v ≤ 1000
    → decode_status (with_checksum (hsi_payload h s v))
      ≡ some (record {
        on = false;
        is_hsi = true;
        intensity = v;
        kelvin = 0;
        gm = pos 0;
        hue = h;
        saturation = s;
        gm_flag = false;
      })
unfolding decode_status
decode_hsi_payload h s v hp sp vp =
    let p : h < 512 = omega arith in
    let q : s < 128 = omega arith in
    let r : v < 1024 = omega arith in
    let b5 = shl (low_bits s 2) 6 in
    let b6 = h % 8 * 32 + s / 4 in
    let b7 = v % 4 * 64 + h / 8 in
    let min_v : min 1000 v ≡ v = omega arith in
    let min_h : min 360 h ≡ h = omega arith in
    let min_s : min 100 s ≡ s = omega arith in
    rw
      (
        low_byte h s q,
        middle_byte h v p,
        ==_refl,
        switch_off (sum (0 ∷ 0 ∷ 0 ∷ 0 ∷ b5 ∷ b6 ∷ b7 ∷ low_bits (shr v 2) 8 ∷ 129 ∷ []) % 256) b5
            b6 b7 (omega arith),
        read_intensity h v p r,
        read_hue h s v p q,
        read_saturation h s q,
        min_v,
        min_h,
        min_s,
      )
      refl

-- Whatever the arguments, the state that a colour command decodes to is that of a colour, off in
-- the bit that only a report sets, with the hue clamped to 360, the saturation to 100 and the
-- intensity to 1000.
pub decode_status-hsi :
    (hue saturation intensity : ℕ)
    → decode_status (hsi hue saturation intensity)
      ≡ some (record {
        on = false;
        is_hsi = true;
        intensity = min 1000 intensity;
        kelvin = 0;
        gm = pos 0;
        hue = min 360 hue;
        saturation = min 100 saturation;
        gm_flag = false;
      })
unfolding hsi
decode_status-hsi hue saturation intensity =
    let h : low_bits (clamp_round hue 0 360) 9 ≡ min 360 hue = omega arith in
    let s : low_bits (clamp_round saturation 0 100) 7 ≡ min 100 saturation = omega arith in
    let v : clamp_round intensity 0 max_intensity ≡ min 1000 intensity = omega arith in
    rw (h, s, v)
      (decode_hsi_payload (min 360 hue) (min 100 saturation) (min 1000 intensity) (omega arith)
        (omega arith) (omega arith))

-- For every switch position and intensity, a switch command, a brightness command and a status
-- request pass the fixture's length, checksum and command test, and none of them is read as a state
-- report.
pub decode_status-commands :
    (on : Bool) (intensity : ℕ)
    → (has_header (onoff on) (low_bits cmd_onoff 7) ≡ true)
      × (decode_status (onoff on) ≡ none)
      × (has_header (brightness intensity) (low_bits cmd_brightness 7) ≡ true)
      × (decode_status (brightness intensity) ≡ none)
      × (has_header status_request cmd_status_request ≡ true)
      × (decode_status status_request ≡ none)
unfolding decode_status onoff brightness status_request has_header
decode_status-commands on intensity =
    (rw ==_refl refl, rw ==_refl refl, rw ==_refl refl, rw ==_refl refl, refl, refl)
