-- ===== src/Base/Exec.antt =====
-- Coroutines that change a state `S` and may raise: what happens between two awaits is one action.
-- What an action ensures is stated for both ways to end, and follows the text of its `do` block.
use mathlib.Core.Path.{◌≡◌, refl}
use mathlib.Core.Bool.{Bool, true, false}
use native.Mathlib.Omega.{arith}
use ha_amaran_ble.Base.Results.{Error, Result, ok, err}

abbrev pub Exec : Type 0 → Type 0 → Type 0
Exec S A = S → Result A × S

module _ {S : Type 0} where
  abbrev pub pure : {A : Type 0} → A → Exec S A
  pure a s = (ok a, s)

  abbrev pub raise : {A : Type 0} → Error → Exec S A
  raise e s = (err e, s)

  -- A call of a pure function that may raise.
  abbrev pub lift : {A : Type 0} → Result A → Exec S A
  lift r s = (r, s)

  abbrev pub modify : (S → S) → Exec S (Unit {0})
  modify f s = (ok tt, f s)

  abbrev pub gets : {A : Type 0} → (S → A) → Exec S A
  gets f s = (ok (f s), s)

  -- `if not test: raise error`.
  abbrev pub require : Bool → Error → Exec S (Unit {0})
  require false e s = (err e, s)
  require true e s = (ok tt, s)

  abbrev pub then_do : {A B : Type 0} → Result A × S → (A → Exec S B) → Result B × S
  then_do (err e, s) rest = (err e, s)
  then_do (ok a, s) rest = rest a s

infixl 5 ◌>>=◌ ◌>>◌
abbrev pub ◌>>=◌ : {S A B : Type 0} → Exec S A → (A → Exec S B) → Exec S B
◌>>=◌ first rest s = then_do (first s) rest

abbrev pub ◌>>◌ : {S B : Type 0} → Exec S (Unit {0}) → Exec S B → Exec S B
◌>>◌ first rest s = then_do (first s) (λ done. rest)

-- `P` where the action returns, `Q` where it raises.
module _ {S : Type 0} where
  abbrev pub Ensures : {A : Type 0} → (A → S → Type 0) → (S → Type 0) → Result A × S → Type 0
  Ensures P Q (ok a, s) = P a s
  Ensures P Q (err e, s) = Q s

  pub Ensures-then_do :
      {A B : Type 0} (r : Result A × S) (rest : A → Exec S B) (P : A → S → Type 0) (E : S → Type 0)
      (R : B → S → Type 0) (Q : S → Type 0)
      → Ensures P E r
      → ((s : S) → E s → Q s)
      → ((a : A) (s : S) → P a s → Ensures R Q (rest a s))
      → Ensures R Q (then_do r rest)
  Ensures-then_do (ok a, s) rest P E R Q h raised k = k a s h
  Ensures-then_do (err e, s) rest P E R Q h raised k = raised s h

  pub Ensures-require :
      {B : Type 0} (test : Bool) (e : Error) (rest : Exec S B) (R : B → S → Type 0) (Q : S → Type 0)
      (s : S)
      → Q s
      → (test ≡ true → Ensures R Q (rest s))
      → Ensures R Q (then_do (require test e s) (λ done. rest))
  Ensures-require true e rest R Q s q k = k refl
  Ensures-require false e rest R Q s q k = q

  pub Ensures-lift :
      {A B : Type 0} (r : Result A) (rest : A → Exec S B) (R : B → S → Type 0) (Q : S → Type 0)
      (s : S)
      → Q s
      → ((a : A) → r ≡ ok a → Ensures R Q (rest a s))
      → Ensures R Q (then_do (lift r s) rest)
  Ensures-lift (ok a) rest R Q s q k = k a refl
  Ensures-lift (err e) rest R Q s q k = q

  -- The same at the end of a block.
  pub Ensures-last :
      {A : Type 0} (r : Result A) (R : A → S → Type 0) (Q : S → Type 0) (s : S)
      → Q s
      → ((a : A) → r ≡ ok a → R a s)
      → Ensures R Q (lift r s)
  Ensures-last (ok a) R Q s q k = k a refl
  Ensures-last (err e) R Q s q k = q

  pub Ensures-weaken :
      {A : Type 0} (r : Result A × S) (P P' : A → S → Type 0) (Q : S → Type 0)
      → ((a : A) (s : S) → P a s → P' a s)
      → Ensures P Q r
      → Ensures P' Q r
  Ensures-weaken (ok a, s) P P' Q k h = k a s h
  Ensures-weaken (err e, s) P P' Q k h = h

  -- A call that does not raise.
  pub Ensures-total :
      {A B : Type 0} (r : Result A) (rest : A → Exec S B) (R : B → S → Type 0) (Q : S → Type 0)
      (s : S)
      → (a : A) × (r ≡ ok a)
      → ((a : A) → r ≡ ok a → Ensures R Q (rest a s))
      → Ensures R Q (then_do (lift r s) rest)
  Ensures-total (ok a) rest R Q s t k = k a refl
  Ensures-total (err e) rest R Q s t k = absurd (ground (arith, t.1))
