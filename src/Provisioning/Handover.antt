-- ===== src/Provisioning/Handover.antt =====
-- What has happened when the network credentials leave the provisioner, and the steps from the
-- confirmation on (custom_components/amaran_ble/amaranble/provisioning.py).
use ha_amaran_ble.Base.{
  ℕ, ◌≡◌, ◌≢◌, refl, ◌∙◌, sym, ap, true, not, inl, inr, ◌⊎◌, Option, none, some, List, [], ◌∷◌,
  ◌++◌, Result, ok, err, ◌==◌, length, arith, provisioning_error,
}
use ha_amaran_ble.Base.Exec.{Ensures, Ensures-require, Ensures-lift, Ensures-then_do, then_do, lift}
use ha_amaran_ble.Base.Bytes.{Bytes, same_bytes, same_bytes_iff}
use ha_amaran_ble.Provisioning.{
  Request, provisioning_data, Session, Action, record_action, sent, committed, invite, capabilities,
  start, public_key, confirmation, random, credentials, complete, expect,
}
use ha_amaran_ble.Provisioning.Exchange.{
  Toolbox, ProvisioningResult, or_invalid_key, start_params, confirmation_salt, confirmation_key,
  confirm, provisioning_salt, session_key, session_nonce, device_key_of, run_hook, distribute,
  confirm_both,
}
use ha_amaran_ble.Provisioning.Steps.{IsWithheld, step_send, step_expect, expect_lem}

-- What the node has shown, and what the provisioner has done, when the credentials are on their
-- way: `before` is the session that the transaction started from.
pub record IsHandedOver (t : Toolbox) (r : Request) (before : Session) (device_key : Bytes)
    (num_elements : ℕ) (after : Session) : Type 0 where
  pub capabilities_params : Bytes
  pub device_public_key : Bytes
  pub device_confirmation : Bytes
  pub device_random : Bytes
  pub ecdh_secret : Bytes
  pub rest : List (ℕ × Bytes)
  pub encrypted : Bytes
  -- The node's PDUs, in this order.
  pub received :
      before.queue
      ≡ (capabilities, capabilities_params)
        ∷ (public_key, device_public_key)
        ∷ (confirmation, device_confirmation)
        ∷ (random, device_random)
        ∷ rest
  -- It did not reflect what the provisioner sent.
  pub own_key : device_public_key ≢ t.keypair.public_key_bytes
  pub on_curve : t.keypair.exchange device_public_key ≡ some ecdh_secret
  pub own_confirmation :
      device_confirmation
      ≢ confirm t r
          (confirmation_key t r ecdh_secret
            (confirmation_salt t r capabilities_params device_public_key))
          t.provisioner_random
  -- It had committed to its random value.
  pub confirmed :
      confirm t r
        (confirmation_key t r ecdh_secret
          (confirmation_salt t r capabilities_params device_public_key))
        device_random
      ≡ device_confirmation
  pub key :
      device_key
      ≡ device_key_of t r ecdh_secret (
          provisioning_salt t r
            (confirmation_salt t r capabilities_params device_public_key)
            device_random)
  -- The caller's hook is done before the credentials are sent.
  pub actions :
      after.actions
      ≡ sent invite (r.attention_duration ∷ [])
        ∷ sent start start_params
        ∷ sent public_key t.keypair.public_key_bytes
        ∷ sent confirmation (
            confirm t r
              (confirmation_key t r ecdh_secret
                (confirmation_salt t r capabilities_params device_public_key))
              t.provisioner_random)
        ∷ sent random t.provisioner_random
        ∷ committed device_key num_elements
        ∷ sent credentials encrypted
        ∷ []

pub differ : (xs ys : Bytes) → not (same_bytes xs ys) ≡ true → xs ≢ ys
differ xs ys h e = ground (arith, same_bytes_iff xs ys)

pub on_the_curve :
    (o : Option Bytes) {secret : Bytes} → or_invalid_key o ≡ ok secret → o ≡ some secret
on_the_curve none h = cc
on_the_curve (some s) h = cc

module _ (t : Toolbox) (r : Request) (hook : Bytes → ℕ → Result (Unit {0}))
    (hooked : r.before_commit ≡ some hook) (before : Session) where
  abbrev pub Returned : ProvisioningResult → Session → Type 0
  Returned result after = IsHandedOver t r before result.device_key result.num_elements after

  abbrev pub Raised : Session → Type 0
  Raised after =
      IsWithheld after.actions
      ⊎ ((device_key : Bytes) × (num_elements : ℕ) × IsHandedOver t r before device_key num_elements
            after)

  hook_lem :
      (outcome : Result (Unit {0})) (action : Action) (s : Session)
      → Ensures
          (λ _ s'. (s'.queue ≡ s.queue) × (s'.actions ≡ s.actions ++ (action ∷ [])))
          (λ s'. s'.actions ≡ s.actions)
          (then_do (lift outcome s) (λ done. record_action action))
  hook_lem (err e) action s = refl
  hook_lem (ok done) action s = (refl, refl)

  run_hook_lem :
      (device_key : Bytes) (num_elements : ℕ) (s : Session)
      → Ensures
          (λ _ s'.
            (s'.queue ≡ s.queue)
            × (s'.actions ≡ s.actions ++ (committed device_key num_elements ∷ [])))
          (λ s'. s'.actions ≡ s.actions)
          (run_hook t r r.before_commit device_key num_elements s)
  unfolding run_hook
  run_hook_lem device_key num_elements s =
      rw hooked (hook_lem (hook device_key num_elements) (committed device_key num_elements) s)

  module _ (capabilities_params device_public_key ecdh_secret : Bytes) (num_elements : ℕ)
      (own_key : device_public_key ≢ t.keypair.public_key_bytes)
      (on_curve : t.keypair.exchange device_public_key ≡ some ecdh_secret) where
    abbrev salt : Bytes
    salt = confirmation_salt t r capabilities_params device_public_key

    abbrev key : Bytes
    key = confirmation_key t r ecdh_secret salt

    abbrev own : Bytes
    own = confirm t r key t.provisioner_random

    abbrev actions_to_keys : List Action
    actions_to_keys =
        sent invite (r.attention_duration ∷ [])
        ∷ sent start start_params
        ∷ sent public_key t.keypair.public_key_bytes
        ∷ []

    distribute_lem :
        (device_confirmation device_random : Bytes) (s : Session)
        → before.queue
          ≡ (capabilities, capabilities_params)
            ∷ (public_key, device_public_key)
            ∷ (confirmation, device_confirmation)
            ∷ (random, device_random)
            ∷ s.queue
        → s.actions
          ≡ actions_to_keys ++ (sent confirmation own ∷ sent random t.provisioner_random ∷ [])
        → device_confirmation ≢ own
        → confirm t r key device_random ≡ device_confirmation
        → Ensures Returned Raised
            (distribute t r ecdh_secret (provisioning_salt t r salt device_random) num_elements s)
    unfolding distribute
    distribute_lem device_confirmation device_random s received actions own_confirmation confirmed =
        let session_salt = provisioning_salt t r salt device_random in
        let device_key = device_key_of t r ecdh_secret session_salt in
        let encrypted : Bytes → Bytes = λ plaintext.
          t.aes_ccm_encrypt (session_key t r ecdh_secret session_salt)
            (session_nonce t r ecdh_secret session_salt) plaintext 8 in
        let w : IsWithheld s.actions = rw actions (refl, (refl, (refl, (refl, (refl, tt))))) in
        Ensures-then_do (run_hook t r r.before_commit device_key num_elements s) _ _ _ Returned
          Raised (run_hook_lem device_key num_elements s) (λ s' e. inl (rw e w))
          (λ _ s1 h1.
            let w1 : IsWithheld s1.actions =
              rw (h1.1, actions) (refl, (refl, (refl, (refl, (refl, tt))))) in
            Ensures-lift (provisioning_data r) _ Returned Raised s1 (inl w1) (λ plaintext _.
              step_send Returned Raised (λ s' w'. inl w') credentials (encrypted plaintext) _ s1 w1
                (λ s2 q2 a2.
                  let handed : (s' : Session)
                      → s'.actions ≡ s2.actions
                      → IsHandedOver t r before device_key num_elements s' =
                    λ s' e. record {
                      capabilities_params = capabilities_params;
                      device_public_key = device_public_key;
                      device_confirmation = device_confirmation;
                      device_random = device_random;
                      ecdh_secret = ecdh_secret;
                      rest = s.queue;
                      encrypted = encrypted plaintext;
                      received = received;
                      own_key = own_key;
                      on_curve = on_curve;
                      own_confirmation = own_confirmation;
                      confirmed = confirmed;
                      key = refl;
                      actions = e ∙ a2 ∙ rw (h1.1, actions) refl;
                    } in
                  Ensures-then_do (expect complete s2) _ _ _ Returned Raised
                    (expect_lem complete s2) (λ s' e. inr (device_key, num_elements, handed s' e))
                    (λ params s3 h3.
                      Ensures-require (length params == 0) provisioning_error _ Returned Raised s3
                        (inr (device_key, num_elements, handed s3 h3.1)) (λ _. handed s3 h3.1)))))

    pub confirm_both_lem :
        (s : Session)
        → before.queue
          ≡ (capabilities, capabilities_params) ∷ (public_key, device_public_key) ∷ s.queue
        → s.actions ≡ actions_to_keys
        → Ensures Returned Raised (confirm_both t r ecdh_secret salt num_elements s)
    unfolding confirm_both
    confirm_both_lem s received actions =
        let w : IsWithheld s.actions = rw actions (refl, (refl, (refl, tt))) in
        step_send Returned Raised (λ s' w'. inl w') confirmation own _ s w
          (λ s1 q1 a1.
            let w1 : IsWithheld s1.actions = rw (a1, actions) (refl, (refl, (refl, (refl, tt)))) in
            step_expect Returned Raised (λ s' w'. inl w') confirmation _ s1 w1
              (λ device_confirmation s2 q2 a2.
                let w2 : IsWithheld s2.actions = rw a2 w1 in
                Ensures-require (length device_confirmation == 16) provisioning_error _ Returned
                  Raised s2 (inl w2)
                  (λ _.
                    Ensures-require (not (same_bytes device_confirmation own)) provisioning_error _
                      Returned Raised s2 (inl w2)
                      (λ other.
                        step_send Returned Raised (λ s' w'. inl w') random t.provisioner_random _ s2
                          w2
                          (λ s3 q3 a3.
                            let w3 : IsWithheld s3.actions =
                              rw (a3, a2, a1, actions) (refl, (refl, (refl, (refl, (refl, tt))))) in
                            step_expect Returned Raised (λ s' w'. inl w') random _ s3 w3
                              (λ device_random s4 q4 a4.
                                let w4 : IsWithheld s4.actions = rw a4 w3 in
                                Ensures-require (length device_random == 16) provisioning_error _
                                  Returned Raised s4 (inl w4)
                                  (λ _.
                                    Ensures-require
                                      (same_bytes (confirm t r key device_random)
                                        device_confirmation)
                                      provisioning_error _ Returned Raised s4 (inl w4)
                                      (λ confirmed.
                                        distribute_lem device_confirmation device_random s4
                                          (received
                                            ∙ ap
                                                (λ q.
                                                  (capabilities, capabilities_params)
                                                  ∷ (public_key, device_public_key)
                                                  ∷ q)
                                                (sym q1
                                                  ∙ q2
                                                  ∙ ap
                                                      (λ q. (confirmation, device_confirmation) ∷ q)
                                                      (sym q3 ∙ q4)))
                                          (a4 ∙ rw (a3, a2, a1, actions) refl) (differ _ _ other)
                                          ((same_bytes_iff _ _).0 confirmed)))))))))
