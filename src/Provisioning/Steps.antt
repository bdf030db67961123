-- ===== src/Provisioning/Steps.antt =====
-- What each step of the exchange does to the session, as rules that follow its `do` blocks: an
-- action that raises ends the exchange with the credentials withheld.
use ha_amaran_ble.Base.{
  ℕ, zero, suc, ◌≡◌, refl, false, Bool-cases, inl, inr, List, [], ◌∷◌, ◌++◌, Result, ok, err, ◌==◌,
  ==_iff,
}
use ha_amaran_ble.Base.Exec.{Exec, Ensures, Ensures-then_do, then_do}
use ha_amaran_ble.Base.Bytes.{Bytes}
use ha_amaran_ble.Gatt
use ha_amaran_ble.Gatt.{type_provisioning}
use ha_amaran_ble.Provisioning.{
  Session, Action, sent, committed, write, send, expect_in, expect, credentials, failed,
}

-- No credentials were sent.
abbrev pub IsWithheld : List Action → Type 0
IsWithheld [] = Unit
IsWithheld (sent pdu_type params ∷ rest) = ((pdu_type == credentials) ≡ false) × IsWithheld rest
IsWithheld (committed device_key num_elements ∷ rest) = IsWithheld rest

write_lem :
    (action : Action) (frames : Result (List Bytes)) (s : Session)
    → Ensures
        (λ _ s'. (s'.queue ≡ s.queue) × (s'.actions ≡ s.actions ++ (action ∷ [])))
        (λ s'. s'.actions ≡ s.actions)
        (write action frames s)
write_lem action (err e) s = refl
write_lem action (ok frames) s = go s.writes
  where
    go :
        (n : ℕ)
        → Ensures
            (λ _ s'. (s'.queue ≡ s.queue) × (s'.actions ≡ s.actions ++ (action ∷ [])))
            (λ s'. s'.actions ≡ s.actions)
            (write action (ok frames) (record s { writes = n }))
    go zero = refl
    go (suc n) = (refl, refl)

expect_in_lem :
    (pdu_type : ℕ) (queue : List (ℕ × Bytes)) (s : Session)
    → Ensures
        (λ params s'. (queue ≡ (pdu_type, params) ∷ s'.queue) × (s'.actions ≡ s.actions))
        (λ s'. s'.actions ≡ s.actions)
        (expect_in pdu_type queue s)
expect_in_lem pdu_type [] s = refl
expect_in_lem pdu_type ((got_type, params) ∷ rest) s = elim (Bool-cases (got_type == failed)) [
  | inl f ↦ rw f refl
  | inr f ↦ elim (Bool-cases (got_type == pdu_type)) [
    | inl e ↦ rw (f, e) (rw ((==_iff got_type pdu_type).0 e) (refl, refl))
    | inr e ↦ rw (f, e) refl
  ]
]

pub expect_lem :
    (pdu_type : ℕ) (s : Session)
    → Ensures
        (λ params s'. (s.queue ≡ (pdu_type, params) ∷ s'.queue) × (s'.actions ≡ s.actions))
        (λ s'. s'.actions ≡ s.actions)
        (expect pdu_type s)
unfolding expect
expect_lem pdu_type s = expect_in_lem pdu_type s.queue s

module _ {B : Type 0} (P : B → Session → Type 0) (Q : Session → Type 0)
    (withheld : (s : Session) → IsWithheld s.actions → Q s) where
  pub step_send :
      (pdu_type : ℕ) (params : Bytes) (rest : Exec Session B) (s : Session)
      → IsWithheld s.actions
      → ((s' : Session)
          → s'.queue ≡ s.queue
          → s'.actions ≡ s.actions ++ (sent pdu_type params ∷ [])
          → Ensures P Q (rest s'))
      → Ensures P Q (then_do (send pdu_type params s) (λ done. rest))
  unfolding send
  step_send pdu_type params rest s w k =
      Ensures-then_do (send pdu_type params s) (λ done. rest)
        (λ _ s'. (s'.queue ≡ s.queue) × (s'.actions ≡ s.actions ++ (sent pdu_type params ∷ [])))
        (λ s'. s'.actions ≡ s.actions) P Q
        (write_lem (sent pdu_type params) (Gatt.send type_provisioning (pdu_type ∷ params)) s)
        (λ s' e. withheld s' (rw e w)) (λ _ s' h. k s' h.0 h.1)

  pub step_expect :
      (pdu_type : ℕ) (rest : Bytes → Exec Session B) (s : Session)
      → IsWithheld s.actions
      → ((params : Bytes) (s' : Session)
          → s.queue ≡ (pdu_type, params) ∷ s'.queue
          → s'.actions ≡ s.actions
          → Ensures P Q (rest params s'))
      → Ensures P Q (then_do (expect pdu_type s) rest)
  step_expect pdu_type rest s w k =
      Ensures-then_do (expect pdu_type s) rest
        (λ params s'. (s.queue ≡ (pdu_type, params) ∷ s'.queue) × (s'.actions ≡ s.actions))
        (λ s'. s'.actions ≡ s.actions) P Q (expect_lem pdu_type s) (λ s' e. withheld s' (rw e w))
        (λ params s' h. k params s' h.0 h.1)
