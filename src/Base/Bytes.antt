-- ===== src/Base/Bytes.antt =====
-- Byte strings: Python's `int.to_bytes`, `int.from_bytes` and slices, over lists of numbers.
use Prim.Native.Nat.{ℕ, zero, suc, ◌+◌, ◌-◌, ◌*◌, ◌/◌, ◌%◌, ◌^◌, ◌≤◌, ◌<◌, bit_xor}
use mathlib.Core.Path.{◌≡◌, refl, ap, ap₂}
use mathlib.Core.List.{List, [], ◌∷◌, ◌++◌}
use native.Mathlib.Omega.{arith}
use native.Mathlib.Nat.{pow-suc}
use ha_amaran_ble.Base.Bits.{bit_xor-bit_xor}
use ha_amaran_ble.Base.Lists.{length, All, take, drop}
use ha_amaran_ble.Base.Results.{Result, ok, guard, overflow_error, ◌>>◌}
use ha_amaran_ble.Base.Tests.{ltb, lt→ltb, ◌==◌}
use mathlib.Core.Bool.{Bool, true, false, ◌&&◌}
use mathlib.Core.Logic.{◌↔◌}

abbrev pub Bytes : Type 0
Bytes = List ℕ

abbrev pub IsByte : ℕ → Type 0
IsByte b = b < 256

-- bytes[lo:hi]
abbrev pub slice : ℕ → ℕ → Bytes → Bytes
slice lo hi bs = take (hi - lo) (drop lo bs)

-- The low `n` bytes of a number, least significant first, and most significant first.
abbrev pub little_endian : ℕ → ℕ → Bytes
little_endian zero x = []
little_endian (suc n) x = x % 256 ∷ little_endian n (x / 256)

abbrev pub big_endian : ℕ → ℕ → Bytes
big_endian zero x = []
big_endian (suc n) x = big_endian n (x / 256) ++ (x % 256 ∷ [])

-- x.to_bytes(n, "little") and x.to_bytes(n, "big"): `OverflowError` if `n` bytes do not hold `x`.
unfoldable pub to_bytes_little : ℕ → ℕ → Result Bytes
to_bytes_little n x = guard (ltb x (256 ^ n)) overflow_error >> ok (little_endian n x)

unfoldable pub to_bytes_big : ℕ → ℕ → Result Bytes
to_bytes_big n x = guard (ltb x (256 ^ n)) overflow_error >> ok (big_endian n x)

abbrev pub from_bytes_little : Bytes → ℕ
from_bytes_little [] = 0
from_bytes_little (b ∷ bs) = b + 256 * from_bytes_little bs

abbrev pub from_bytes_big_onto : ℕ → Bytes → ℕ
from_bytes_big_onto acc [] = acc
from_bytes_big_onto acc (b ∷ bs) = from_bytes_big_onto (acc * 256 + b) bs

abbrev pub from_bytes_big : Bytes → ℕ
from_bytes_big bs = from_bytes_big_onto 0 bs

abbrev pub sum : Bytes → ℕ
sum [] = 0
sum (b ∷ bs) = b + sum bs

-- bytes(a ^ b for a, b in zip(xs, ys))
abbrev pub xor_bytes : Bytes → Bytes → Bytes
xor_bytes (x ∷ xs) (y ∷ ys) = bit_xor x y ∷ xor_bytes xs ys
xor_bytes [] _ = []
xor_bytes _ [] = []

pub to_bytes_big_ok : (n x : ℕ) → x < 256 ^ n → to_bytes_big n x ≡ ok (big_endian n x)
unfolding to_bytes_big
to_bytes_big_ok n x h = rw (lt→ltb _ _ h)

pub to_bytes_little_ok : (n x : ℕ) → x < 256 ^ n → to_bytes_little n x ≡ ok (little_endian n x)
unfolding to_bytes_little
to_bytes_little_ok n x h = rw (lt→ltb _ _ h)

pub length-little_endian : (n x : ℕ) → length (little_endian n x) ≡ n
length-little_endian zero x = refl
length-little_endian (suc n) x = ap suc (length-little_endian n (x / 256))

pub little_endian-IsByte : (n x : ℕ) → All IsByte (little_endian n x)
little_endian-IsByte zero x = tt
little_endian-IsByte (suc n) x = (omega arith, little_endian-IsByte n (x / 256))

pub from_bytes_little-little_endian :
    (n x : ℕ) → x < 256 ^ n → from_bytes_little (little_endian n x) ≡ x
from_bytes_little-little_endian zero x h = omega arith
from_bytes_little-little_endian (suc n) x h =
    omega (arith, from_bytes_little-little_endian n (x / 256) (omega (arith, pow-suc 256 n)))

pub little_endian-from_bytes_little :
    (bs : Bytes) → All IsByte bs → little_endian (length bs) (from_bytes_little bs) ≡ bs
little_endian-from_bytes_little [] h = refl
little_endian-from_bytes_little (b ∷ bs) h =
    let digit : (b + 256 * from_bytes_little bs) % 256 ≡ b = omega arith in
    let rest : (b + 256 * from_bytes_little bs) / 256 ≡ from_bytes_little bs = omega arith in
    rw (digit, rest, little_endian-from_bytes_little bs h.1)

pub from_bytes_little-lt : (bs : Bytes) → All IsByte bs → from_bytes_little bs < 256 ^ length bs
from_bytes_little-lt [] h = omega arith
from_bytes_little-lt (b ∷ bs) h =
    omega (arith, h.0, from_bytes_little-lt bs h.1, pow-suc 256 (length bs))

pub xor_bytes-xor_bytes :
    (xs ys : Bytes)
    → length xs ≤ length ys
    → All IsByte xs
    → All IsByte ys
    → xor_bytes (xor_bytes xs ys) ys ≡ xs
xor_bytes-xor_bytes [] ys l hx hy = refl
xor_bytes-xor_bytes (x ∷ xs) [] l hx hy = absurd (omega arith)
xor_bytes-xor_bytes (x ∷ xs) (y ∷ ys) l hx hy =
    ap₂ ◌∷◌ (bit_xor-bit_xor 8 x y hx.0 hy.0) (xor_bytes-xor_bytes xs ys (omega arith) hx.1 hy.1)

pub length-xor_bytes :
    (xs ys : Bytes) → length xs ≤ length ys → length (xor_bytes xs ys) ≡ length xs
length-xor_bytes [] ys h = refl
length-xor_bytes (x ∷ xs) [] h = elim h [ ]
length-xor_bytes (x ∷ xs) (y ∷ ys) h = ap suc (length-xor_bytes xs ys (omega arith))

pub from_bytes_big-big_endian_two : (x : ℕ) → x < 256 ^ 2 → from_bytes_big (big_endian 2 x) ≡ x
from_bytes_big-big_endian_two x h = omega arith

pub from_bytes_big-big_endian_three : (x : ℕ) → x < 256 ^ 3 → from_bytes_big (big_endian 3 x) ≡ x
from_bytes_big-big_endian_three x h = omega arith

-- xs == ys
abbrev pub same_bytes : Bytes → Bytes → Bool
same_bytes [] [] = true
same_bytes (x ∷ xs) (y ∷ ys) = (x == y) && same_bytes xs ys
same_bytes _ _ = false

pub same_bytes_iff : (xs ys : Bytes) → (same_bytes xs ys ≡ true) ↔ (xs ≡ ys)
same_bytes_iff [] [] = ground arith
same_bytes_iff [] (y ∷ ys) = ground arith
same_bytes_iff (x ∷ xs) [] = ground arith
same_bytes_iff (x ∷ xs) (y ∷ ys) = ground (arith, same_bytes_iff xs ys)
