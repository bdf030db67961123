-- ===== src/Packet/Header.antt =====
-- A packet put together by `finalize` passes `has_header`, and its fields read back as written.
use ha_amaran_ble.Base.Bytes.{
  Bytes, from_bytes_little, from_bytes_little-little_endian, little_endian, sum, to_bytes_little_ok,
}
use ha_amaran_ble.Packet.{Field, bits, finalize, has_header, or_fields, or_masked, wire_value}
use ha_amaran_ble.Base.{
  ℕ, ◌+◌, ◌-◌, ◌/◌, ◌%◌, ◌^◌, ◌≤◌, ◌<◌, ◌≡◌, refl, sym, ap, ◌∙◌, true, some, List, ◌∷◌, All, arith,
  ok, length, get_or, ==_refl, lt→ltb, ◌++◌, bit_or, [],
}
use native.Mathlib.Nat.{div-div-eq-div-mul, zero-div, zero-mod, mod-eq_of_lt}
use ha_amaran_ble.Base.Bits.{shl, shr, low_bits, or_law, pow-add}
use ha_amaran_ble.Packet.Fields.{IsField, lookup, bits-or_fields, or_fields-lt}

-- The checksum takes the place of the low byte.
abbrev pub framed : ℕ → Bytes
framed packet = sum (little_endian 9 (packet / 256)) % 256 ∷ little_endian 9 (packet / 256)

pub finalize_ok : (packet : ℕ) → packet < 2 ^ 80 → finalize packet ≡ ok (framed packet)
unfolding finalize
finalize_ok packet h = rw (to_bytes_little_ok 10 packet h) refl

shr_high : (x s : ℕ) → 8 ≤ s → shr x s ≡ shr (x / 256) (s - 8)
shr_high x s le =
    let e : s ≡ 8 + (s - 8) = omega arith in
    ap (λ t. shr x t) e ∙ rw (pow-add 8 (s - 8)) (sym (div-div-eq-div-mul x 256 (2 ^ (s - 8))))

pub bits_high : (x y s w : ℕ) → x / 256 ≡ y / 256 → 8 ≤ s → bits x s w ≡ bits y s w
unfolding bits
bits_high x y s w e le = rw (shr_high x s le, shr_high y s le, e) refl

pub bits_zero : (s w : ℕ) → bits 0 s w ≡ 0
unfolding bits
bits_zero s w = simp (zero-div, zero-mod)

-- It changes no bit from 8 on.
pub bits-framed :
    (packet s w : ℕ)
    → packet < 2 ^ 80
    → 8 ≤ s
    → bits (from_bytes_little (framed packet)) s w ≡ bits packet s w
bits-framed packet s w h le =
    bits_high (from_bytes_little (framed packet)) packet s w
      (omega (arith, from_bytes_little-little_endian 9 (packet / 256) (omega arith))) le

pub command-framed : (packet : ℕ) → low_bits (get_or (framed packet) 9 0) 7 ≡ bits packet 72 7
unfolding bits
command-framed packet = omega arith

pub has_header-framed :
    (packet command : ℕ) → bits packet 72 7 ≡ command → has_header (framed packet) command ≡ true
unfolding has_header
has_header-framed packet command e = rw (command-framed packet, e, ==_refl, ==_refl command) refl

-- What the round trips use of a payload that was built from fields.
pub record IsFrame (fs : List Field) (command : ℕ) (payload : Bytes) : Type 0 where
  pub length : length payload ≡ 10
  pub header : has_header payload command ≡ true
  pub command_bits : low_bits (get_or payload 9 0) 7 ≡ command
  pub read : (s w v : ℕ) → 8 ≤ s → lookup s w fs ≡ some v → bits (from_bytes_little payload) s w ≡ v

pub framed-IsFrame :
    (fs : List Field) (command : ℕ)
    → All IsField fs
    → lookup 72 7 fs ≡ some command
    → (finalize (or_fields 0 fs) ≡ ok (framed (or_fields 0 fs)))
      × IsFrame fs command (framed (or_fields 0 fs))
framed-IsFrame fs command h e =
    let packet_lt : or_fields 0 fs < 2 ^ 80 = or_fields-lt 0 fs (omega arith) h in
    let found : bits (or_fields 0 fs) 72 7 ≡ command =
      bits-or_fields 72 7 0 command fs h (bits_zero 72 7) e in
    (
      finalize_ok (or_fields 0 fs) packet_lt,
      record {
        length = refl;
        header = has_header-framed (or_fields 0 fs) command found;
        command_bits = command-framed (or_fields 0 fs) ∙ found;
        read = λ s w v le l.
            bits-framed (or_fields 0 fs) s w packet_lt le
            ∙ bits-or_fields s w 0 v fs h (bits_zero s w) l;
      },
    )

-- `packet` starts as the first field, or as 0.
pub or_fields_first :
    (f : Field) (fs : List Field) → or_fields (shl f.value f.start) fs ≡ or_fields 0 (f ∷ fs)
or_fields_first f fs = ap (λ p. or_fields p fs) (sym (or_law.left_zero (shl f.value f.start)))

pub wire_value_ok : (value width : ℕ) → value < 2 ^ width → wire_value value width ≡ ok value
unfolding wire_value
wire_value_ok value width h = rw (lt→ltb value (2 ^ width) h) refl

-- Fields that fit are not changed by their masks.
pub or_fields-or_masked :
    (p : ℕ) (fs gs : List Field)
    → All IsField fs
    → or_fields (or_masked p fs) gs ≡ or_fields p (fs ++ gs)
or_fields-or_masked p [] gs h = refl
or_fields-or_masked p (f ∷ fs) gs h =
    let e : low_bits f.value f.width ≡ f.value = mod-eq_of_lt h.0.0 in
    rw e (or_fields-or_masked (bit_or p (shl f.value f.start)) fs gs h.1)
