-- ===== src/Base/Chunks.antt =====
-- The slices `[xs[i : i + size] for i in range(0, len(xs), size)]`.
use Prim.Native.Nat.{ℕ, zero, suc, ◌≤◌, ◌<◌}
use mathlib.Core.Path.{◌≡◌, refl}
use mathlib.Core.List.{List, [], ◌∷◌, ◌++◌}
use native.Mathlib.Omega.{arith}
use ha_amaran_ble.Base.Lists.{
  length, All, take, drop, take-append-drop, length-take, length-drop, All-take, All-drop,
}

module _ {ℓ} {A : Type ℓ} where
  abbrev pub concat : List (List A) → List A
  concat [] = []
  concat (xs ∷ rest) = xs ++ concat rest

  -- A slice takes at least one item, so as many rounds as there are items are enough.
  abbrev pub chunks_fuel : ℕ → ℕ → List A → List (List A)
  chunks_fuel zero size xs = []
  chunks_fuel (suc fuel) size [] = []
  chunks_fuel (suc fuel) size (x ∷ xs) =
      take size (x ∷ xs) ∷ chunks_fuel fuel size (drop size (x ∷ xs))

  unfoldable pub chunks : ℕ → List A → List (List A)
  chunks size xs = chunks_fuel (length xs) size xs

module _ {ℓ} {A : Type ℓ} where
  concat-chunks_fuel :
      (fuel size : ℕ) (xs : List A)
      → 0 < size
      → length xs ≤ fuel
      → concat (chunks_fuel fuel size xs) ≡ xs
  concat-chunks_fuel zero size [] s h = refl
  concat-chunks_fuel zero size (x ∷ xs) s h = elim h [ ]
  concat-chunks_fuel (suc fuel) size [] s h = refl
  concat-chunks_fuel (suc fuel) size (x ∷ xs) s h =
      rw
        (concat-chunks_fuel fuel size (drop size (x ∷ xs)) s
          (omega (arith, length-drop size (x ∷ xs))))
        (take-append-drop size (x ∷ xs))

  -- Joined again, the slices are the list.
  pub concat-chunks : (size : ℕ) (xs : List A) → 0 < size → concat (chunks size xs) ≡ xs
  unfolding chunks
  concat-chunks size xs s = concat-chunks_fuel (length xs) size xs s (omega arith)

  -- Every slice but the last has the full size, and the last is neither empty nor longer.
  abbrev pub AreChunks : ℕ → List (List A) → Type 0
  AreChunks size [] = Unit {0}
  AreChunks size (c ∷ []) = (0 < length c) × (length c ≤ size)
  AreChunks size (c ∷ d ∷ rest) = (length c ≡ size) × AreChunks size (d ∷ rest)

  AreChunks-cons :
      (fuel size : ℕ) (c ys : List A)
      → 0 < length c
      → length c ≤ size
      → (0 < length ys → length c ≡ size)
      → AreChunks size (chunks_fuel fuel size ys)
      → AreChunks size (c ∷ chunks_fuel fuel size ys)
  AreChunks-cons zero size c ys p q full rest = (p, q)
  AreChunks-cons (suc fuel) size c [] p q full rest = (p, q)
  AreChunks-cons (suc fuel) size c (y ∷ ys) p q full rest = (full (omega arith), rest)

  chunks_fuel-AreChunks :
      (fuel size : ℕ) (xs : List A) → 0 < size → AreChunks size (chunks_fuel fuel size xs)
  chunks_fuel-AreChunks zero size xs s = tt
  chunks_fuel-AreChunks (suc fuel) size [] s = tt
  chunks_fuel-AreChunks (suc fuel) size (x ∷ xs) s =
      AreChunks-cons fuel size (take size (x ∷ xs)) (drop size (x ∷ xs))
        (omega (arith, length-take size (x ∷ xs))) (omega (arith, length-take size (x ∷ xs)))
        (λ more. omega (arith, length-take size (x ∷ xs), length-drop size (x ∷ xs)))
        (chunks_fuel-AreChunks fuel size (drop size (x ∷ xs)) s)

  pub chunks-AreChunks : (size : ℕ) (xs : List A) → 0 < size → AreChunks size (chunks size xs)
  unfolding chunks
  chunks-AreChunks size xs s = chunks_fuel-AreChunks (length xs) size xs s

  pub All-chunks-All {κ} :
      (P : A → Type κ) (size : ℕ) (xs : List A) → All P xs → All (All P) (chunks size xs)
  unfolding chunks
  All-chunks-All P size xs h = go (length xs) xs h
    where
      go : (fuel : ℕ) (ys : List A) → All P ys → All (All P) (chunks_fuel fuel size ys)
      go zero ys h = tt
      go (suc fuel) [] h = tt
      go (suc fuel) (y ∷ ys) h =
          (All-take P size (y ∷ ys) h, go fuel (drop size (y ∷ ys)) (All-drop P size (y ∷ ys) h))
