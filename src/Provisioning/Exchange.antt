-- ===== src/Provisioning/Exchange.antt =====
-- `Provisioner.provision` and `_provision_exchange`
-- (custom_components/amaran_ble/amaranble/provisioning.py).
use ha_amaran_ble.Base.{
  ℕ, ◌+◌, ◌-◌, not, ◌&&◌, Option, none, some, [], ◌∷◌, ◌++◌, Result, ok, err, provisioning_error,
  leb, ltb, ◌==◌, if◌then◌else◌, length, take, drop, replicate,
}
use ha_amaran_ble.Base.Exec.{Exec, require, lift, pure, ◌>>=◌, ◌>>◌}
use ha_amaran_ble.Base.Bits.{shr}
use ha_amaran_ble.Base.Bytes.{Bytes, same_bytes}
use ha_amaran_ble.Crypto.Derive.{s1, k1}
use ha_amaran_ble.Provisioning.{
  Request, provisioning_data, parse, supports_cmac_aes128, Session, committed, record_action, send,
  expect, invite, capabilities, start, public_key, confirmation, random, credentials, complete,
}

-- `shared_secret` answers `none` where the package finds no point on the curve.
pub record KeyPair : Type 0 where
  pub public_key_bytes : Bytes
  pub exchange : Bytes → Option Bytes

-- The calls of the `cryptography` package, and what `os.urandom` and the key generation returned.
pub record Toolbox : Type 0 where
  pub aes_cmac : Bytes → Bytes → Bytes
  pub aes_ccm_encrypt : Bytes → Bytes → Bytes → ℕ → Bytes
  pub keypair : KeyPair
  pub provisioner_random : Bytes

pub record ProvisioningResult : Type 0 where
  pub unicast_address : ℕ
  pub num_elements : ℕ
  pub device_key : Bytes

abbrev pub or_invalid_key : Option Bytes → Result Bytes
or_invalid_key none = err provisioning_error
or_invalid_key (some secret) = ok secret

-- `ProvisioningKeyPair.shared_secret`, whose `ValueError` becomes the program's own error.
abbrev pub shared_secret : KeyPair → Bytes → Result Bytes
shared_secret keypair peer =
    if length peer == 64 then or_invalid_key (keypair.exchange peer) else err provisioning_error

abbrev pub auth_value : Bytes
auth_value = replicate 16 0

-- b"prck", b"prsk", b"prsn" and b"prdk"
abbrev pub prck : Bytes
prck = 0x70 ∷ 0x72 ∷ 0x63 ∷ 0x6B ∷ []

abbrev pub prsk : Bytes
prsk = 0x70 ∷ 0x72 ∷ 0x73 ∷ 0x6B ∷ []

abbrev pub prsn : Bytes
prsn = 0x70 ∷ 0x72 ∷ 0x73 ∷ 0x6E ∷ []

abbrev pub prdk : Bytes
prdk = 0x70 ∷ 0x72 ∷ 0x64 ∷ 0x6B ∷ []

abbrev pub start_params : Bytes
start_params = 0x00 ∷ 0x00 ∷ 0x00 ∷ 0x00 ∷ 0x00 ∷ []

module _ (t : Toolbox) (r : Request) where
  -- The salt over what both sides have said so far.
  abbrev pub confirmation_salt : Bytes → Bytes → Bytes
  confirmation_salt capabilities_params device_public_key = s1 t.aes_cmac (
      (r.attention_duration ∷ [])
      ++ (take 11 capabilities_params
          ++ (start_params ++ (t.keypair.public_key_bytes ++ device_public_key))))

  abbrev pub confirmation_key : Bytes → Bytes → Bytes
  confirmation_key ecdh_secret salt = k1 t.aes_cmac ecdh_secret salt prck

  -- What the side that drew `value` commits to.
  abbrev pub confirm : Bytes → Bytes → Bytes
  confirm key value = t.aes_cmac key (value ++ auth_value)

  abbrev pub provisioning_salt : Bytes → Bytes → Bytes
  provisioning_salt salt device_random =
      s1 t.aes_cmac (salt ++ (t.provisioner_random ++ device_random))

  -- bytes[-13:]
  abbrev pub last_13 : Bytes → Bytes
  last_13 bs = drop (length bs - 13) bs

  unfoldable pub run_hook :
      Option (Bytes → ℕ → Result (Unit {0})) → Bytes → ℕ → Exec Session (Unit {0})
  run_hook none device_key num_elements = pure tt
  run_hook (some hook) device_key num_elements = do
    lift (hook device_key num_elements)
    record_action (committed device_key num_elements)

  abbrev pub session_key : Bytes → Bytes → Bytes
  session_key ecdh_secret salt = k1 t.aes_cmac ecdh_secret salt prsk

  abbrev pub session_nonce : Bytes → Bytes → Bytes
  session_nonce ecdh_secret salt = last_13 (k1 t.aes_cmac ecdh_secret salt prsn)

  abbrev pub device_key_of : Bytes → Bytes → Bytes
  device_key_of ecdh_secret salt = k1 t.aes_cmac ecdh_secret salt prdk

  -- Steps 10 and 11: the keys, the caller's hook, the credentials, and the node's confirmation.
  unfoldable pub distribute : Bytes → Bytes → ℕ → Exec Session ProvisioningResult
  distribute ecdh_secret salt num_elements = do
    run_hook r.before_commit (device_key_of ecdh_secret salt) num_elements
    plaintext ← lift (provisioning_data r)
    send credentials (
        t.aes_ccm_encrypt (session_key ecdh_secret salt) (session_nonce ecdh_secret salt) plaintext
          8)
    complete_params ← expect complete
    require (length complete_params == 0) provisioning_error
    pure (record {
      unicast_address = r.unicast_address;
      num_elements = num_elements;
      device_key = device_key_of ecdh_secret salt;
    })

  -- Steps 6 to 9: both sides commit to a random value, and then show it.
  unfoldable pub confirm_both : Bytes → Bytes → ℕ → Exec Session ProvisioningResult
  confirm_both ecdh_secret salt num_elements = do
    let key = confirmation_key ecdh_secret salt
    send confirmation (confirm key t.provisioner_random)
    device_confirmation ← expect confirmation
    require (length device_confirmation == 16) provisioning_error
    require (not (same_bytes device_confirmation (confirm key t.provisioner_random)))
        provisioning_error
    send random t.provisioner_random
    device_random ← expect random
    require (length device_random == 16) provisioning_error
    require (same_bytes (confirm key device_random) device_confirmation) provisioning_error
    distribute ecdh_secret (provisioning_salt salt device_random) num_elements

  -- Steps 3 to 5: no out-of-band data, and the public keys.
  unfoldable pub exchange_keys : Bytes → ℕ → Exec Session ProvisioningResult
  exchange_keys capabilities_params num_elements = do
    send start start_params
    send public_key t.keypair.public_key_bytes
    device_public_key ← expect public_key
    require (length device_public_key == 64) provisioning_error
    require (not (same_bytes device_public_key t.keypair.public_key_bytes)) provisioning_error
    ecdh_secret ← lift (shared_secret t.keypair device_public_key)
    confirm_both ecdh_secret (confirmation_salt capabilities_params device_public_key) num_elements

  -- The connection is up.
  unfoldable pub provision_exchange : Exec Session ProvisioningResult
  provision_exchange = do
    send invite (r.attention_duration ∷ [])
    capabilities_params ← expect capabilities
    c ← lift (parse capabilities_params)
    require (supports_cmac_aes128 c) provisioning_error
    require (leb 1 c.num_elements) provisioning_error
    require (not (ltb 0x7FFF (r.unicast_address + c.num_elements - 1))) provisioning_error
    exchange_keys capabilities_params c.num_elements

  -- A timeout of the whole transaction and a lost connection both end it as an empty queue does.
  unfoldable pub provision : Exec Session ProvisioningResult
  provision = do
    require (length r.network_key == 16) provisioning_error
    require (leb 0x0001 r.unicast_address && leb r.unicast_address 0x7FFF) provisioning_error
    require (leb r.key_index 0x0FFF) provisioning_error
    require (leb r.iv_index 0xFFFFFFFF) provisioning_error
    require (shr r.flags 2 == 0) provisioning_error
    require (leb r.attention_duration 0xFF) provisioning_error
    provision_exchange
