-- ===== src/Provisioning/Secure.antt =====
-- When the network credentials leave the provisioner
-- (custom_components/amaran_ble/amaranble/provisioning.py).
use ha_amaran_ble.Base.{
  ℕ, ◌+◌, ◌-◌, ◌≡◌, refl, ◌∙◌, sym, ap, Bool, true, not, inl, ◌&&◌, some, [], ◌∷◌, Result, ◌==◌,
  leb, ltb, length, provisioning_error,
}
use ha_amaran_ble.Base.Exec.{Exec, Ensures, Ensures-require, Ensures-lift}
use ha_amaran_ble.Base.Bits.{shr}
use ha_amaran_ble.Base.Bytes.{Bytes, same_bytes}
use ha_amaran_ble.Provisioning.{
  Request, parse, supports_cmac_aes128, Session, sent, invite, capabilities, start, public_key,
}
use ha_amaran_ble.Provisioning.Exchange.{
  Toolbox, ProvisioningResult, shared_secret, start_params, exchange_keys, provision_exchange,
  provision,
}
use ha_amaran_ble.Provisioning.Steps.{IsWithheld, step_send, step_expect}
use ha_amaran_ble.Provisioning.Handover.{Returned, Raised, differ, on_the_curve, confirm_both_lem}

module _ (t : Toolbox) (r : Request) (hook : Bytes → ℕ → Result (Unit {0}))
    (hooked : r.before_commit ≡ some hook) (before : Session) where
  exchange_keys_lem :
      (capabilities_params : Bytes) (num_elements : ℕ) (s : Session)
      → before.queue ≡ (capabilities, capabilities_params) ∷ s.queue
      → s.actions ≡ sent invite (r.attention_duration ∷ []) ∷ []
      → Ensures
          (Returned t r hook hooked before)
          (Raised t r hook hooked before)
          (exchange_keys t r capabilities_params num_elements s)
  unfolding exchange_keys
  exchange_keys_lem capabilities_params num_elements s received actions =
      let w : IsWithheld s.actions = rw actions (refl, tt) in
      step_send (Returned t r hook hooked before) (Raised t r hook hooked before) (λ s' w'. inl w')
        start start_params _ s w
        (λ s1 q1 a1.
          let w1 : IsWithheld s1.actions = rw (a1, actions) (refl, (refl, tt)) in
          step_send (Returned t r hook hooked before) (Raised t r hook hooked before)
            (λ s' w'. inl w') public_key t.keypair.public_key_bytes _ s1 w1
            (λ s2 q2 a2.
              let w2 : IsWithheld s2.actions = rw (a2, a1, actions) (refl, (refl, (refl, tt))) in
              step_expect (Returned t r hook hooked before) (Raised t r hook hooked before)
                (λ s' w'. inl w') public_key _ s2 w2
                (λ device_public_key s3 q3 a3.
                  let w3 : IsWithheld s3.actions = rw a3 w2 in
                  Ensures-require (length device_public_key == 64) provisioning_error _
                    (Returned t r hook hooked before) (Raised t r hook hooked before) s3 (inl w3)
                    (λ sized.
                      Ensures-require
                        (not (same_bytes device_public_key t.keypair.public_key_bytes))
                        provisioning_error _ (Returned t r hook hooked before)
                        (Raised t r hook hooked before) s3 (inl w3)
                        (λ other.
                          Ensures-lift (shared_secret t.keypair device_public_key) _
                            (Returned t r hook hooked before) (Raised t r hook hooked before) s3
                            (inl w3)
                            (λ ecdh_secret curve.
                              confirm_both_lem t r hook hooked before capabilities_params
                                device_public_key ecdh_secret num_elements (differ _ _ other)
                                (on_the_curve _ (rw sized at curve)) s3
                                (received
                                  ∙ ap (λ q. (capabilities, capabilities_params) ∷ q)
                                      (sym q1 ∙ sym q2 ∙ q3))
                                (a3 ∙ rw (a2, a1, actions) refl)))))))

  provision_exchange_lem :
      (s : Session)
      → before.queue ≡ s.queue
      → s.actions ≡ []
      → Ensures
          (Returned t r hook hooked before)
          (Raised t r hook hooked before)
          (provision_exchange t r s)
  unfolding provision_exchange
  provision_exchange_lem s received actions =
      let w : IsWithheld s.actions = rw actions tt in
      step_send (Returned t r hook hooked before) (Raised t r hook hooked before) (λ s' w'. inl w')
        invite (r.attention_duration ∷ []) _ s w
        (λ s1 q1 a1.
          let w1 : IsWithheld s1.actions = rw (a1, actions) (refl, tt) in
          step_expect (Returned t r hook hooked before) (Raised t r hook hooked before)
            (λ s' w'. inl w') capabilities _ s1 w1
            (λ params s2 q2 a2.
              let w2 : IsWithheld s2.actions = rw a2 w1 in
              Ensures-lift (parse params) _ (Returned t r hook hooked before)
                (Raised t r hook hooked before) s2 (inl w2)
                (λ c _.
                  Ensures-require (supports_cmac_aes128 c) provisioning_error _
                    (Returned t r hook hooked before) (Raised t r hook hooked before) s2 (inl w2)
                    (λ _.
                      Ensures-require (leb 1 c.num_elements) provisioning_error _
                        (Returned t r hook hooked before) (Raised t r hook hooked before) s2
                        (inl w2)
                        (λ _.
                          Ensures-require
                            (not (ltb 0x7FFF (r.unicast_address + c.num_elements - 1)))
                            provisioning_error _ (Returned t r hook hooked before)
                            (Raised t r hook hooked before) s2 (inl w2)
                            (λ _.
                              exchange_keys_lem params c.num_elements s2 (received ∙ sym q1 ∙ q2)
                                (a2 ∙ rw (a1, actions) refl)))))))

  -- With a hook, and from a session in which nothing was done yet: whatever the node sends, and
  -- wherever the connection is lost, either no credentials are sent, or they are sent last, after the
  -- node sent its capabilities, a public key on the curve that is not the provisioner's own, a
  -- confirmation that is not the provisioner's own, and the random value that it had committed to,
  -- and after the hook was given the device key. A result that is returned has that key.
  pub provision-IsHandedOver :
      before.actions ≡ []
      → Ensures
          (Returned t r hook hooked before)
          (Raised t r hook hooked before)
          (provision t r before)
  unfolding provision
  provision-IsHandedOver actions =
      let w : IsWithheld before.actions = rw actions tt in
      let check =
        λ (test : Bool) (rest : Exec Session ProvisioningResult)
            (k : test ≡ true
              → Ensures (Returned t r hook hooked before) (Raised t r hook hooked before)
                  (rest before)).
          Ensures-require test provisioning_error rest (Returned t r hook hooked before)
            (Raised t r hook hooked before) before (inl w) k in
      check (length r.network_key == 16) _ (λ _.
        check (leb 0x0001 r.unicast_address && leb r.unicast_address 0x7FFF) _ (λ _.
          check (leb r.key_index 0x0FFF) _ (λ _. check (leb r.iv_index 0xFFFFFFFF) _ (λ _.
            check (shr r.flags 2 == 0) _ (λ _.
              check (leb r.attention_duration 0xFF) (provision_exchange t r)
                (λ _. provision_exchange_lem before refl actions))))))
