-- ===== src/Base/Results.antt =====
-- A pure function of the source that may raise returns a `Result`.
use mathlib.Core.Bool.{Bool, true, false}
use mathlib.Core.Logic.{◌⊎◌, inl, inr}
use mathlib.Core.Path.{◌≡◌, refl}

-- The exceptions of the modelled code: the built-in ones, and the program's own.
pub data Error : Type 0 where
  value_error overflow_error type_error network_decode_error sequence_exhausted proxy_error
        config_error provisioning_error storage_error key_error :
      Error

pub data Result {ℓ} (A : Type ℓ) : Type ℓ where
  err : Error → Result A
  ok : A → Result A

-- `if not test: raise error`.
abbrev pub guard : Bool → Error → Result (Unit {0})
guard false error = err error
guard true error = ok tt

infixl 5 ◌>>=◌ ◌>>◌
-- The rest of a function body, unless an exception ends it.
abbrev pub ◌>>=◌ {ℓ κ} : {A : Type ℓ} {B : Type κ} → Result A → (A → Result B) → Result B
err error >>= rest = err error
ok value >>= rest = rest value

abbrev pub ◌>>◌ {κ} : {B : Type κ} → Result (Unit {0}) → Result B → Result B
first >> second = first >>= λ done. second

pub Result-cases {ℓ} :
    {A : Type ℓ} (r : Result A) → ((e : Error) × (r ≡ err e)) ⊎ ((a : A) × (r ≡ ok a))
Result-cases (err e) = inl (e, refl)
Result-cases (ok a) = inr (a, refl)
