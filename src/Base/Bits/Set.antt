-- ===== src/Base/Bits/Set.antt =====
-- Which bits `|` sets: a block acknowledgement adds to the bits that are known already.
use Prim.Native.Nat.{ℕ, bit_or}
use mathlib.Core.Path.{◌≡◌, sym, ◌∙◌}
use native.Mathlib.Omega.{arith}
use ha_amaran_ble.Base.{Bool-cases, inl, inr, ◌⊎◌, ◌==◌}
use ha_amaran_ble.Base.Bits.{shr, low_bits, or_law, shr-op, low_bits-op}

-- A bit of a bitwise or is one of either number.
pub bit_or_set :
    (a b i : ℕ)
    → low_bits (shr (bit_or a b) i) 1 ≡ 1
    → (low_bits (shr a i) 1 ≡ 1) ⊎ (low_bits (shr b i) 1 ≡ 1)
bit_or_set a b i h =
    let split : low_bits (shr (bit_or a b) i) 1
        ≡ bit_or (low_bits (shr a i) 1) (low_bits (shr b i) 1) =
      rw (shr-op or_law i a b) (low_bits-op or_law 1 (shr a i) (shr b i)) in
    elim (Bool-cases (low_bits (shr a i) 1 == 0)) [
      | inl e ↦
          let zero_bit : low_bits (shr a i) 1 ≡ 0 = ground arith in
          let absorbed : bit_or 0 (low_bits (shr b i) 1) ≡ low_bits (shr b i) 1 =
            or_law.left_zero (low_bits (shr b i) 1) in
          inr (sym absorbed ∙ (rw (sym zero_bit) (sym split) ∙ h))
      | inr e ↦ inl (ground arith)
    ]
