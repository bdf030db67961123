-- ===== src/Partition/Indexes.antt =====
-- The 36-bit partition mask stands for the set of its indexes.
use ha_amaran_ble.Base.Bits.{op-lt, op-zero, or_law, shl}
use ha_amaran_ble.Packet.{bits, field}
use native.Mathlib.Nat.{pow-le-pow_right}
use ha_amaran_ble.Base.{
  ℕ, zero, suc, ◌+◌, ◌-◌, ◌^◌, ◌≤◌, ◌<◌, ◌≡◌, refl, ◌∙◌, true, false, ◌||◌, List, [], ◌∷◌, All, ok,
  arith, le→leb, ◌==◌, ==_iff, if◌then◌else◌, Bool-cases, inl, inr, bit_or,
}
use ha_amaran_ble.Packet.Fields.{apart, bits-bit_or, bits_same, bits-apart, shl-lt}
use ha_amaran_ble.Packet.Header.{bits_zero}
use ha_amaran_ble.Partition.{contains, mask_onto, index_mask, indexes_from, indexes}

abbrev pub IsDistinct : List ℕ → Type 0
IsDistinct [] = Unit {0}
IsDistinct (x ∷ xs) = (contains x xs ≡ false) × IsDistinct xs

-- The members of a list among `index`, …, `index + count - 1`, in ascending order.
unfoldable pub ascending_from : List ℕ → ℕ → ℕ → List ℕ
ascending_from xs index zero = []
ascending_from xs index (suc count) =
    if contains index xs
    then index ∷ ascending_from xs (suc index) count
    else ascending_from xs (suc index) count

-- mask |= 1 << (35 - index), for each of the indexes
unfoldable pub or_mask : ℕ → List ℕ → ℕ
or_mask mask [] = mask
or_mask mask (x ∷ xs) = or_mask (bit_or mask (shl 1 (35 - x))) xs

-- None of the indexes to come was seen, and none of them is the one just added.
unseen :
    (x : ℕ) (seen xs : List ℕ)
    → contains x xs ≡ false
    → All (λ y. contains y seen ≡ false) xs
    → All (λ y. contains y (x ∷ seen) ≡ false) xs
unfolding contains
unseen x seen [] n h = tt
unseen x seen (y ∷ ys) n h = (ground arith, unseen x seen ys (ground arith) h.1)

mask_onto-or_mask :
    (mask : ℕ) (seen xs : List ℕ)
    → All (λ i. i ≤ 35) xs
    → IsDistinct xs
    → All (λ y. contains y seen ≡ false) xs
    → mask_onto mask seen xs ≡ ok (or_mask mask xs)
unfolding mask_onto or_mask
mask_onto-or_mask mask seen [] b d h = refl
mask_onto-or_mask mask seen (x ∷ xs) b d h =
    rw (le→leb x 35 b.0, h.0)
      (mask_onto-or_mask (bit_or mask (shl 1 (35 - x))) (x ∷ seen) xs b.1 d.1
        (unseen x seen xs d.0 h.1))

pub or_mask-lt : (mask : ℕ) (xs : List ℕ) → mask < 2 ^ 36 → or_mask mask xs < 2 ^ 36
unfolding or_mask
or_mask-lt mask [] h = h
or_mask-lt mask (x ∷ xs) h = or_mask-lt (bit_or mask (shl 1 (35 - x))) xs (
    op-lt or_law 36 mask (shl 1 (35 - x)) h (
      omega (
        arith,
        shl-lt 1 (35 - x) 1 (omega arith),
        pow-le-pow_right {n = 2} (omega arith) (one_bit_fits x),
      )))
  where
    one_bit_fits : (x : ℕ) → 35 - x + 1 ≤ 36
    one_bit_fits x = omega arith

one_bit_or : (b : ℕ) → b < 2 → (bit_or b 1 == 1) ≡ true
one_bit_or zero h = refl
one_bit_or (suc zero) h = refl
one_bit_or (suc (suc b)) h = absurd (omega arith)

bits_one-lt : (p s : ℕ) → bits p s 1 < 2
unfolding bits
bits_one-lt p s = omega arith

-- Adding an index sets its bit and no other.
set_bit :
    (mask x k : ℕ)
    → x ≤ 35
    → k ≤ 35
    → (bits (bit_or mask (shl 1 (35 - x))) (35 - k) 1 == 1)
      ≡ ((bits mask (35 - k) 1 == 1) || (k == x))
set_bit mask x k hx hk = elim (Bool-cases (k == x)) [
  | inl e ↦
      let same : k ≡ x = (==_iff k x).0 e in
      rw (e, bits-bit_or, same, bits_same 1 (35 - x) 1 (omega arith))
        (one_bit_or (bits mask (35 - x) 1) (bits_one-lt mask (35 - x)) ∙ ground arith)
  | inr e ↦
      let far : apart (35 - k) 1 (field 1 (35 - x) 1) ≡ true = ground arith in
      rw
        (
          e,
          bits-bit_or,
          bits-apart (35 - k) 1 (field 1 (35 - x) 1) (omega arith) far,
          op-zero or_law,
        )
        (ground arith)
]

bits-or_mask :
    (mask k : ℕ) (xs : List ℕ)
    → k ≤ 35
    → All (λ i. i ≤ 35) xs
    → (bits (or_mask mask xs) (35 - k) 1 == 1) ≡ ((bits mask (35 - k) 1 == 1) || contains k xs)
unfolding or_mask contains
bits-or_mask mask k [] hk h = ground arith
bits-or_mask mask k (x ∷ xs) hk h =
    bits-or_mask (bit_or mask (shl 1 (35 - x))) k xs hk h.1
    ∙ rw (set_bit mask x k h.0 hk) (ground arith)

indexes_from-or_mask :
    (xs : List ℕ) (index count : ℕ)
    → index + count ≤ 36
    → All (λ i. i ≤ 35) xs
    → indexes_from (or_mask 0 xs) index count ≡ ascending_from xs index count
unfolding indexes_from ascending_from
indexes_from-or_mask xs index zero h b = refl
indexes_from-or_mask xs index (suc count) h b =
    let here : (bits (or_mask 0 xs) (35 - index) 1 == 1) ≡ contains index xs =
      bits-or_mask 0 index xs (omega arith) b ∙ rw (bits_zero (35 - index) 1) refl in
    rw (here, indexes_from-or_mask xs (suc index) count (omega arith) b) refl

nothing_seen : (ys : List ℕ) → All (λ y. contains y [] ≡ false) ys
unfolding contains
nothing_seen [] = tt
nothing_seen (y ∷ ys) = (refl, nothing_seen ys)

-- Distinct indexes of at most 35 are accepted, in any order; the mask has 36 bits, and reading it
-- back gives the same indexes in ascending order.
pub indexes-index_mask :
    (xs : List ℕ)
    → All (λ i. i ≤ 35) xs
    → IsDistinct xs
    → (mask : ℕ) × (index_mask xs ≡ ok mask)
      × (mask < 2 ^ 36)
      × (indexes mask ≡ ascending_from xs 0 36)
unfolding index_mask indexes
indexes-index_mask xs b d = (
  or_mask 0 xs,
  mask_onto-or_mask 0 [] xs b d (nothing_seen xs),
  or_mask-lt 0 xs (omega arith),
  indexes_from-or_mask xs 0 36 (omega arith) b,
)
