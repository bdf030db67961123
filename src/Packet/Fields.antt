-- ===== src/Packet/Fields.antt =====
-- Where a field of a packet is read back: fields that do not overlap do not disturb each other.
use ha_amaran_ble.Base.Bits.{low_bits-op, op-lt, op-zero, or_law, pow-add, pow-pos, shl, shr-op}
use ha_amaran_ble.Base.{
  ℕ, ◌+◌, ◌-◌, ◌*◌, ◌^◌, ◌≤◌, ◌<◌, ◌≡◌, refl, sym, ◌∙◌, Bool, true, ◌&&◌, ◌||◌, Option, none, some,
  List, [], ◌∷◌, All, arith, leb, ◌==◌, if◌then◌else◌, Bool-cases, inl, inr, bit_or, ◌⊎◌,
}
use native.Mathlib.Nat.{
  mul-le-mul_right, div-eq_of_lt, mul-div_left, mul-mod_left, mod-eq_of_lt, pow-le-pow_right,
  zero-mod,
}
use ha_amaran_ble.Packet.{Field, bits, or_fields}

-- The value fits the width, and the field the packet.
abbrev pub IsField : Field → Type 0
IsField f = (f.value < 2 ^ f.width) × (f.start + f.width ≤ 80)

abbrev pub apart : ℕ → ℕ → Field → Bool
apart start width f = leb (f.start + f.width) start || leb (start + width) f.start

abbrev pub same : ℕ → ℕ → Field → Bool
same start width f = (f.start == start) && (f.width == width)

abbrev pub all_apart : ℕ → ℕ → List Field → Bool
all_apart start width [] = true
all_apart start width (f ∷ fs) = apart start width f && all_apart start width fs

-- The value of the one field at these bits, and 0 at bits that no field has; `none` on an overlap.
abbrev pub lookup : ℕ → ℕ → List Field → Option ℕ
lookup start width [] = some 0
lookup start width (f ∷ fs) =
    if apart start width f
    then lookup start width fs
    else if same start width f && all_apart start width fs
    then some f.value
    else none

pub bits-bit_or : (a b s w : ℕ) → bits (bit_or a b) s w ≡ bit_or (bits a s w) (bits b s w)
unfolding bits
bits-bit_or a b s w = simp (shr-op or_law, low_bits-op or_law)

pub shl-lt : (v s w : ℕ) → v < 2 ^ w → shl v s < 2 ^ (s + w)
shl-lt v s w h = omega (arith, mul-le-mul_right (2 ^ s) h, pow-add s w, pow-pos s)

pub bits_same : (v s w : ℕ) → v < 2 ^ w → bits (shl v s) s w ≡ v
unfolding bits
bits_same v s w h = rw (mul-div_left v (pow-pos s)) (mod-eq_of_lt h)

bits_below : (v s w s' w' : ℕ) → v < 2 ^ w' → s' + w' ≤ s → bits (shl v s') s w ≡ 0
unfolding bits
bits_below v s w s' w' h le =
    let small : shl v s' < 2 ^ s =
      omega (arith, shl-lt v s' w' h, pow-le-pow_right {n = 2} (omega arith) le) in
    rw (div-eq_of_lt small) (zero-mod (2 ^ w))

bits_above : (v s w d : ℕ) → bits (shl v (s + w + d)) s w ≡ 0
unfolding bits
bits_above v s w d =
    let e : shl v (s + w + d) ≡ v * 2 ^ d * 2 ^ w * 2 ^ s =
      rw (pow-add (s + w) d, pow-add s w) (omega arith) in
    rw (e, mul-div_left (v * 2 ^ d * 2 ^ w) (pow-pos s)) (mul-mod_left (v * 2 ^ d) (2 ^ w))

pub bits-apart :
    (s w : ℕ) (f : Field)
    → f.value < 2 ^ f.width
    → apart s w f ≡ true
    → bits (shl f.value f.start) s w ≡ 0
bits-apart s w f h e = elim le_cases [
  | inl le ↦ bits_below f.value s w f.start f.width h le
  | inr le ↦
      let split : f.start ≡ s + w + (f.start - (s + w)) = omega arith in
      rw split (bits_above f.value s w (f.start - (s + w)))
]
  where
    le_cases : (f.start + f.width ≤ s) ⊎ (s + w ≤ f.start)
    le_cases = ground arith

pub bits-or_fields_apart :
    (s w p : ℕ) (fs : List Field)
    → All IsField fs
    → all_apart s w fs ≡ true
    → bits (or_fields p fs) s w ≡ bits p s w
bits-or_fields_apart s w p [] h e = refl
bits-or_fields_apart s w p (f ∷ fs) h e =
    let here : apart s w f ≡ true = ground arith in
    let rest : all_apart s w fs ≡ true = ground arith in
    bits-or_fields_apart s w (bit_or p (shl f.value f.start)) fs h.1 rest
    ∙ rw (bits-bit_or, bits-apart s w f h.0.0 here) (op-zero or_law (bits p s w))

-- The first field at these bits meets nothing there.
bits_first :
    (s w p : ℕ) (f : Field)
    → bits p s w ≡ 0
    → f.value < 2 ^ f.width
    → same s w f ≡ true
    → bits (bit_or p (shl f.value f.start)) s w ≡ f.value
bits_first s w p f z h e =
    let e1 : f.start ≡ s = ground arith in
    let e2 : f.width ≡ w = ground arith in
    bits-bit_or p (shl f.value f.start) s w
    ∙ rw (z, sym e1, sym e2, bits_same f.value f.start f.width h) (or_law.left_zero f.value)

pub bits-or_fields :
    (s w p v : ℕ) (fs : List Field)
    → All IsField fs
    → bits p s w ≡ 0
    → lookup s w fs ≡ some v
    → bits (or_fields p fs) s w ≡ v
bits-or_fields s w p v [] h z e = ground arith
bits-or_fields s w p v (f ∷ fs) h z e = elim (Bool-cases (apart s w f)) [
  | inl here ↦
      bits-or_fields s w (bit_or p (shl f.value f.start)) v fs h.1
        (bits-bit_or p (shl f.value f.start) s w
          ∙ rw (z, bits-apart s w f h.0.0 here) (or_law.left_zero 0))
        (ground arith)
  | inr there ↦
      let meets : same s w f ≡ true = ground arith in
      let rest : all_apart s w fs ≡ true = ground arith in
      bits-or_fields_apart s w (bit_or p (shl f.value f.start)) fs h.1 rest
      ∙ bits_first s w p f z h.0.0 meets
      ∙ ground arith
]

-- The same in a packet of `k` bits.
abbrev pub IsFieldIn : ℕ → Field → Type 0
IsFieldIn k f = (f.value < 2 ^ f.width) × (f.start + f.width ≤ k)

-- `or_fields` stays within the packet.
pub or_fields-below :
    (k p : ℕ) (fs : List Field) → p < 2 ^ k → All (IsFieldIn k) fs → or_fields p fs < 2 ^ k
or_fields-below k p [] l h = l
or_fields-below k p (f ∷ fs) l h =
    or_fields-below k (bit_or p (shl f.value f.start)) fs
      (op-lt or_law k p (shl f.value f.start) l (
        omega (
          arith,
          shl-lt f.value f.start f.width h.0.0,
          pow-le-pow_right {n = 2} (omega arith) h.0.1,
        )))
      h.1

pub or_fields-lt : (p : ℕ) (fs : List Field) → p < 2 ^ 80 → All IsField fs → or_fields p fs < 2 ^ 80
or_fields-lt p fs l h = or_fields-below 80 p fs l h
