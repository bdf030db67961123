-- ===== src/Provisioning/Stages.antt =====
-- The stages of the exchange with a node that follows the protocol
-- (custom_components/amaran_ble/amaranble/provisioning.py).
use ha_amaran_ble.Base.{
  ℕ, suc, ◌≡◌, ◌≢◌, refl, true, some, List, [], ◌∷◌, ◌++◌, Result, ok, ◌==◌, length, arith,
}
use ha_amaran_ble.Base.Bytes.{Bytes}
use ha_amaran_ble.Provisioning.{
  Request, provisioning_data, Session, Action, sent, committed, start, public_key, confirmation,
  random, credentials, complete,
}
use ha_amaran_ble.Provisioning.Exchange.{
  Toolbox, auth_value, ProvisioningResult, start_params, confirmation_salt, confirmation_key,
  confirm, provisioning_salt, session_key, session_nonce, device_key_of, run_hook, distribute,
  confirm_both, exchange_keys,
}
use ha_amaran_ble.Provisioning.Honest.{
  session, send_ok, expect_ok, differ, same, IsToolbox, IsRequest,
}

module _ (t : Toolbox) (sizes : IsToolbox t) (r : Request) (v : IsRequest r)
    (hook : Bytes → ℕ → Result (Unit {0})) (hooked : r.before_commit ≡ some hook) where
  run_hook_ok :
      (device_key : Bytes) (num_elements : ℕ) (s : Session)
      → hook device_key num_elements ≡ ok tt
      → run_hook t r r.before_commit device_key num_elements s
        ≡ (ok tt, record s { actions = s.actions ++ (committed device_key num_elements ∷ []) })
  unfolding run_hook
  run_hook_ok device_key num_elements s kept = rw hooked (rw kept refl)

  distribute_ok :
      (ecdh_secret salt : Bytes) (num_elements : ℕ) (plaintext : Bytes) (rest : List (ℕ × Bytes))
      (n : ℕ) (actions : List Action)
      → provisioning_data r ≡ ok plaintext
      → length plaintext ≡ 25
      → hook (device_key_of t r ecdh_secret salt) num_elements ≡ ok tt
      → distribute t r ecdh_secret salt num_elements
          (session ((complete, []) ∷ rest) (suc n) actions)
        ≡ (
          ok (record {
            unicast_address = r.unicast_address;
            num_elements = num_elements;
            device_key = device_key_of t r ecdh_secret salt;
          }),
          session rest n (
              (actions ++ (committed (device_key_of t r ecdh_secret salt) num_elements ∷ []))
              ++ (sent credentials (
                    t.aes_ccm_encrypt
                      (session_key t r ecdh_secret salt)
                      (session_nonce t r ecdh_secret salt)
                      plaintext
                      8)
                  ∷ [])),
        )
  unfolding distribute
  distribute_ok ecdh_secret salt num_elements plaintext rest n actions built size kept =
      let key = session_key t r ecdh_secret salt in
      let nonce = session_nonce t r ecdh_secret salt in
      let encrypted = t.aes_ccm_encrypt key nonce plaintext 8 in
      let dk = device_key_of t r ecdh_secret salt in
      rw
        (
          run_hook_ok dk num_elements (session ((complete, []) ∷ rest) (suc n) actions) kept,
          built,
          send_ok credentials encrypted ((complete, []) ∷ rest) n
              (actions ++ (committed dk num_elements ∷ []))
              (omega (arith, sizes.length-encrypt key nonce plaintext 8)),
          expect_ok complete [] rest n
              ((actions ++ (committed dk num_elements ∷ [])) ++ (sent credentials encrypted ∷ []))
              refl,
        )
        refl

  -- What the node answers, given the secret that it shares with the provisioner.
  module _ (capabilities_params device_public_key device_random ecdh_secret : Bytes)
      (num_elements : ℕ) where
    abbrev pub salt : Bytes
    salt = confirmation_salt t r capabilities_params device_public_key

    abbrev pub key : Bytes
    key = confirmation_key t r ecdh_secret salt

    abbrev pub session_salt : Bytes
    session_salt = provisioning_salt t r salt device_random

    abbrev pub device_key : Bytes
    device_key = device_key_of t r ecdh_secret session_salt

    abbrev pub own : Bytes
    own = confirm t r key t.provisioner_random

    abbrev pub result : ProvisioningResult
    result = record {
      unicast_address = r.unicast_address;
      num_elements = num_elements;
      device_key = device_key;
    }

    abbrev pub ending : Bytes → List Action → List Action
    ending plaintext actions =
        (((actions ++ (sent confirmation own ∷ [])) ++ (sent random t.provisioner_random ∷ []))
          ++ (committed device_key num_elements ∷ []))
        ++ (sent credentials (
              t.aes_ccm_encrypt (session_key t r ecdh_secret session_salt)
                (session_nonce t r ecdh_secret session_salt) plaintext 8)
            ∷ [])

    confirm_both_ok :
        (plaintext : Bytes) (rest : List (ℕ × Bytes)) (n : ℕ) (actions : List Action)
        → provisioning_data r ≡ ok plaintext
        → length plaintext ≡ 25
        → hook device_key num_elements ≡ ok tt
        → confirm t r key device_random ≢ own
        → length device_random ≡ 16
        → confirm_both t r ecdh_secret salt num_elements (
            session
              ((confirmation, confirm t r key device_random)
                ∷ (random, device_random)
                ∷ (complete, [])
                ∷ rest)
              (suc (suc (suc n)))
              actions)
          ≡ (ok result, session rest n (ending plaintext actions))
    unfolding confirm_both
    confirm_both_ok plaintext rest n actions built size kept other random_size =
        let theirs = confirm t r key device_random in
        let q2 = (complete, []) ∷ rest in
        let q1 = (random, device_random) ∷ q2 in
        let a1 = actions ++ (sent confirmation own ∷ []) in
        let a2 = a1 ++ (sent random t.provisioner_random ∷ []) in
        let size16 : (length theirs == 16) ≡ true = rw (sizes.length-cmac) refl in
        let random16 : (length device_random == 16) ≡ true = rw random_size refl in
        rw
          (
            send_ok confirmation own ((confirmation, theirs) ∷ q1) (suc (suc n)) actions
                (omega (arith, sizes.length-cmac key (t.provisioner_random ++ auth_value))),
            expect_ok confirmation theirs q1 (suc (suc n)) a1 refl,
            size16,
            differ theirs own other,
            send_ok random t.provisioner_random q1 (suc n) a1 (omega (arith, sizes.length-random)),
            expect_ok random device_random q2 (suc n) a2 refl,
            random16,
            same theirs,
          )
          (distribute_ok ecdh_secret session_salt num_elements plaintext rest n a2 built size kept)

    pub exchange_keys_ok :
        (plaintext : Bytes) (rest : List (ℕ × Bytes)) (n : ℕ) (actions : List Action)
        → provisioning_data r ≡ ok plaintext
        → length plaintext ≡ 25
        → hook device_key num_elements ≡ ok tt
        → confirm t r key device_random ≢ own
        → length device_random ≡ 16
        → length device_public_key ≡ 64
        → device_public_key ≢ t.keypair.public_key_bytes
        → t.keypair.exchange device_public_key ≡ some ecdh_secret
        → exchange_keys t r capabilities_params num_elements (
            session
              ((public_key, device_public_key)
                ∷ (confirmation, confirm t r key device_random)
                ∷ (random, device_random)
                ∷ (complete, [])
                ∷ rest)
              (suc (suc (suc (suc (suc n)))))
              actions)
          ≡ (
            ok result,
            session rest n (
                ending plaintext (
                  (actions ++ (sent start start_params ∷ []))
                  ++ (sent public_key t.keypair.public_key_bytes ∷ []))),
          )
    unfolding exchange_keys
    exchange_keys_ok plaintext rest n actions built size kept other random_size key_size other_key
          on_curve =
        let q1 =
          (confirmation, confirm t r key device_random)
          ∷ (random, device_random)
          ∷ (complete, [])
          ∷ rest in
        let q = (public_key, device_public_key) ∷ q1 in
        let a1 = actions ++ (sent start start_params ∷ []) in
        let a2 = a1 ++ (sent public_key t.keypair.public_key_bytes ∷ []) in
        let size64 : (length device_public_key == 64) ≡ true = rw key_size refl in
        rw
          (
            send_ok start start_params q (suc (suc (suc (suc n)))) actions (omega arith),
            send_ok public_key t.keypair.public_key_bytes q (suc (suc (suc n))) a1
                (omega (arith, sizes.length-public_key)),
            expect_ok public_key device_public_key q1 (suc (suc (suc n))) a2 refl,
            size64,
            differ device_public_key t.keypair.public_key_bytes other_key,
            on_curve,
          )
          (confirm_both_ok plaintext rest n a2 built size kept other random_size)
