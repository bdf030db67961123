-- ===== src/Base/Bits.antt =====
-- Shifts and masks as arithmetic, and `|` and `^` digit by digit. The native operations stand for
-- a recursion on binary digits with fuel; the laws drop the fuel and go by halving.
pub mod Set
use Prim.Native.Nat.{
  ℕ, zero, suc, ◌+◌, ◌*◌, ◌/◌, ◌%◌, ◌^◌, ◌≤◌, ◌<◌, max, differ, bit_or, bit_xor, digits, bitwise,
  bit_or-bitwise, bit_xor-bitwise,
}
use mathlib.Core.Path.{◌≡◌, refl, ap, sym, ◌∙◌}
use mathlib.Core.WellFounded
use native.Mathlib.Omega.{arith}
use native.Mathlib.Nat.{
  le_refl, pow-suc, one-le-pow, div-div-eq-div-mul, div-one, mod-one, div-add-mod,
  mul-add-mod_self_left, mod-eq_of_lt, mod-lt,
}
use ha_amaran_ble.Base.Order.{lt_wf}

-- x << k, x >> k and x & ((1 << k) - 1)
abbrev pub shl : ℕ → ℕ → ℕ
shl x k = x * 2 ^ k

abbrev pub shr : ℕ → ℕ → ℕ
shr x k = x / 2 ^ k

abbrev pub low_bits : ℕ → ℕ → ℕ
low_bits x k = x % 2 ^ k

pub pow-pos : (k : ℕ) → 0 < 2 ^ k
pow-pos k = one-le-pow k 2 (omega arith)

pub pow_double : (k : ℕ) → 2 ^ suc k ≡ 2 * 2 ^ k
pow_double k = omega (arith, pow-suc 2 k)

pub pow-add : (j k : ℕ) → 2 ^ (j + k) ≡ 2 ^ j * 2 ^ k
pow-add j zero = let e : j + 0 ≡ j = omega arith in rw e (omega arith)
pow-add j (suc k) =
    let e : j + suc k ≡ suc (j + k) = omega arith in
    rw e (
      omega
        (arith, pow_double (j + k), pow_double k, pow-add j k, ap (λ t. 2 ^ j * t) (pow_double k)))

module _ (f : ℕ → ℕ → ℕ) where
  -- Any count of digits that reaches the first number gives one result.
  settled : (n m a b : ℕ) → a ≤ n → a ≤ m → digits (λ y. y) f n a b ≡ digits (λ y. y) f m a b
  settled zero zero a b p q = refl
  settled (suc n) zero zero b p q = refl
  settled (suc n) zero (suc a) b p q = elim q [ ]
  settled zero (suc m) zero b p q = refl
  settled zero (suc m) (suc a) b p q = elim p [ ]
  settled (suc n) (suc m) zero b p q = refl
  settled (suc n) (suc m) (suc a) b p q =
      ap (λ t. t * 2 + f (suc a % 2) (b % 2))
        (settled n m (suc a / 2) (b / 2) (omega arith) (omega arith))

  module _ (left_zero : (y : ℕ) → f 0 y ≡ y) where
    bitwise_halves :
        (a b : ℕ)
        → bitwise (λ y. y) f a b ≡ bitwise (λ y. y) f (a / 2) (b / 2) * 2 + f (a % 2) (b % 2)
    bitwise_halves zero b = omega (arith, left_zero (b % 2))
    bitwise_halves (suc a) b =
        omega (arith, settled a (suc a / 2) (suc a / 2) (b / 2) (omega arith) (le_refl _))

-- What `|` and `^` have in common: an operation that goes digit by digit.
pub record IsDigitwise (op f : ℕ → ℕ → ℕ) : Type 0 where
  pub halves : (a b : ℕ) → op a b ≡ op (a / 2) (b / 2) * 2 + f (a % 2) (b % 2)
  pub digit : (a b : ℕ) → f (a % 2) (b % 2) < 2
  pub left_zero : (b : ℕ) → op 0 b ≡ b
  pub left_digit : (b : ℕ) → f 0 (b % 2) ≡ b % 2
  pub right_digit : (a : ℕ) → f (a % 2) 0 ≡ a % 2

pub shr-suc : (k a : ℕ) → shr a (suc k) ≡ shr (a / 2) k
shr-suc k a = rw (pow_double, div-div-eq-div-mul)

pub low_bits-suc : (k a : ℕ) → low_bits a (suc k) ≡ low_bits (a / 2) k * 2 + a % 2
low_bits-suc k a =
    let m = 2 ^ k in
    let split : a ≡ 2 * m * (a / 2 / m) + (a / 2 % m * 2 + a % 2) =
      omega (arith, ap (λ t. 2 * t) (div-add-mod (a / 2) m)) in
    ap (λ t. t % 2 ^ suc k) split
    ∙ rw (pow_double, mul-add-mod_self_left)
        (mod-eq_of_lt (omega (arith, mod-lt (a / 2) (pow-pos k))))

half-low_bits : (k a : ℕ) → low_bits a (suc k) / 2 ≡ low_bits (a / 2) k
half-low_bits k a = omega (arith, low_bits-suc k a)

parity-low_bits : (k a : ℕ) → low_bits a (suc k) % 2 ≡ a % 2
parity-low_bits k a = omega (arith, low_bits-suc k a)

module _ {op f : ℕ → ℕ → ℕ} (law : IsDigitwise op f) where
  pub op-zero : (a : ℕ) → op a 0 ≡ a
  op-zero a = WellFounded.induction lt_wf {C = λ n. op n 0 ≡ n} a step
    where
      step : (n : ℕ) → ((m : ℕ) → m < n → op m 0 ≡ m) → op n 0 ≡ n
      step zero ih = law.left_zero 0
      step (suc n) ih =
          omega (arith, law.halves (suc n) 0, law.right_digit (suc n), ih (suc n / 2) (omega arith))

  pub half-op : (a b : ℕ) → op a b / 2 ≡ op (a / 2) (b / 2)
  half-op a b = omega (arith, law.halves a b, law.digit a b)

  pub shr-op : (k a b : ℕ) → shr (op a b) k ≡ op (shr a k) (shr b k)
  shr-op zero a b = simp div-one
  shr-op (suc k) a b = simp (shr-suc, half-op, shr-op k (a / 2) (b / 2))

  pub low_bits-op : (k a b : ℕ) → low_bits (op a b) k ≡ op (low_bits a k) (low_bits b k)
  low_bits-op zero a b = simp mod-one (sym (law.left_zero 0))
  low_bits-op (suc k) a b =
      low_bits-suc k (op a b)
      ∙ rw (half-op a b, low_bits-op k (a / 2) (b / 2))
          (omega (
            arith,
            law.halves a b,
            law.digit a b,
            law.halves (low_bits a (suc k)) (low_bits b (suc k)),
            low_bits-op_tail,
          ))
    where
      low_bits-op_tail :
          op (low_bits a (suc k) / 2) (low_bits b (suc k) / 2) * 2
            + f (low_bits a (suc k) % 2) (low_bits b (suc k) % 2)
          ≡ op (low_bits (a / 2) k) (low_bits (b / 2) k) * 2 + f (a % 2) (b % 2)
      low_bits-op_tail =
          simp (half-low_bits k a, half-low_bits k b, parity-low_bits k a, parity-low_bits k b)

  pub op-lt : (k a b : ℕ) → a < 2 ^ k → b < 2 ^ k → op a b < 2 ^ k
  op-lt zero a b p q =
      let ea : a ≡ 0 = omega arith in
      let eb : b ≡ 0 = omega arith in rw (ea, eb, law.left_zero) (omega arith)
  op-lt (suc k) a b p q = omega (
    arith,
    pow_double k,
    law.halves a b,
    law.digit a b,
    op-lt k (a / 2) (b / 2) (omega (arith, pow_double k)) (omega (arith, pow_double k)),
  )

  -- A shifted number and one below the shift do not meet.
  pub op_fields : (k q r : ℕ) → r < 2 ^ k → op (shl q k) r ≡ shl q k + r
  op_fields zero q r h = let e : r ≡ 0 = omega arith in rw (e, op-zero) (omega arith)
  op_fields (suc k) q r h =
      let e : q * 2 ^ suc k ≡ q * 2 ^ k * 2 = omega (arith, ap (λ t. q * t) (pow_double k)) in
      let half : q * 2 ^ suc k / 2 ≡ q * 2 ^ k = omega (arith, e) in
      let even : q * 2 ^ suc k % 2 ≡ 0 = omega (arith, e) in
      law.halves (q * 2 ^ suc k) r
      ∙ rw (half, even, law.left_digit r, op_fields k q (r / 2) (omega (arith, pow_double k)))
          (omega (arith, e))

-- `differ` on two digits, as arithmetic.
differ-lt : (a b : ℕ) → a < 2 → b < 2 → differ a b < 2
differ-lt zero b p q = q
differ-lt (suc a) zero p q = p
differ-lt (suc a) (suc b) p q =
    let ea : a ≡ 0 = omega arith in let eb : b ≡ 0 = omega arith in rw (ea, eb) (omega arith)

differ-zero : (a : ℕ) → differ a 0 ≡ a
differ-zero zero = refl
differ-zero (suc a) = refl

pub or_law : IsDigitwise bit_or max
or_law = record {
  halves = λ a b. simp bit_or-bitwise (bitwise_halves max (λ y. omega arith) a b);
  digit = λ a b. omega arith;
  left_zero = λ b. bit_or-bitwise 0 b;
  left_digit = λ b. omega arith;
  right_digit = λ a. omega arith;
}

pub bit_or_comm : (a b : ℕ) → bit_or a b ≡ bit_or b a
bit_or_comm a = WellFounded.induction lt_wf {C = λ n. (b : ℕ) → bit_or n b ≡ bit_or b n} a step
  where
    step :
        (n : ℕ)
        → ((m : ℕ) → m < n → (b : ℕ) → bit_or m b ≡ bit_or b m)
        → (b : ℕ) → bit_or n b ≡ bit_or b n
    step zero ih b = or_law.left_zero b ∙ sym (op-zero or_law b)
    step (suc n) ih b = omega (
      arith,
      or_law.halves (suc n) b,
      or_law.halves b (suc n),
      ih (suc n / 2) (omega arith) (b / 2),
    )

pub xor_law : IsDigitwise bit_xor differ
xor_law = record {
  halves = λ a b. simp bit_xor-bitwise (bitwise_halves differ (λ y. refl) a b);
  digit = λ a b. differ-lt (a % 2) (b % 2) (omega arith) (omega arith);
  left_zero = λ b. bit_xor-bitwise 0 b;
  left_digit = λ b. refl;
  right_digit = λ a. differ-zero (a % 2);
}

differ-differ : (a b : ℕ) → a < 2 → b < 2 → differ (differ a b) b ≡ a
differ-differ zero zero p q = refl
differ-differ zero (suc b) p q = let e : b ≡ 0 = omega arith in rw e
differ-differ (suc a) zero p q = refl
differ-differ (suc a) (suc b) p q =
    let ea : a ≡ 0 = omega arith in let eb : b ≡ 0 = omega arith in rw (ea, eb)

-- Masking twice with the same bits gives the number back.
pub bit_xor-bit_xor : (k a b : ℕ) → a < 2 ^ k → b < 2 ^ k → bit_xor (bit_xor a b) b ≡ a
bit_xor-bit_xor zero a b p q =
    let ea : a ≡ 0 = omega arith in
    let eb : b ≡ 0 = omega arith in rw (ea, eb, xor_law.left_zero) (xor_law.left_zero 0)
bit_xor-bit_xor (suc k) a b p q =
    let half : bit_xor a b / 2 ≡ bit_xor (a / 2) (b / 2) = half-op xor_law a b in
    let parity : bit_xor a b % 2 ≡ differ (a % 2) (b % 2) =
      omega (arith, xor_law.halves a b, xor_law.digit a b) in
    let digits_back : differ (differ (a % 2) (b % 2)) (b % 2) ≡ a % 2 =
      differ-differ (a % 2) (b % 2) (omega arith) (omega arith) in
    xor_law.halves (bit_xor a b) b
    ∙ rw
        (
          half,
          parity,
          digits_back,
          bit_xor-bit_xor k (a / 2) (b / 2) (omega (arith, pow_double k))
              (omega (arith, pow_double k)),
        )
        (omega arith)
