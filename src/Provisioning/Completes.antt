-- ===== src/Provisioning/Completes.antt =====
-- The exchange with a node that follows the protocol
-- (custom_components/amaran_ble/amaranble/provisioning.py).
use ha_amaran_ble.Base.{
  ℕ, suc, ◌+◌, ◌-◌, ◌≤◌, ◌≡◌, ◌≢◌, refl, true, false, some, List, [], ◌∷◌, ◌++◌, Result, ok, ◌==◌,
  leb, ltb, le→leb, length, arith,
}
use ha_amaran_ble.Base.Bits.{shr}
use ha_amaran_ble.Base.Bytes.{Bytes}
use ha_amaran_ble.Provisioning.{
  Capabilities, Request, parse, supports_cmac_aes128, Session, sent, invite, capabilities, start,
  public_key, confirmation, random, complete,
}
use ha_amaran_ble.Provisioning.Exchange.{
  Toolbox, start_params, confirmation_salt, confirmation_key, confirm, provisioning_salt,
  device_key_of, provision_exchange, provision,
}
use ha_amaran_ble.Provisioning.Honest.{
  session, send_ok, expect_ok, IsToolbox, IsRequest, provisioning_data_ok,
}
use ha_amaran_ble.Provisioning.Stages.{exchange_keys_ok, ending}

-- What both sides derive from the PDUs of an exchange.
module _ (t : Toolbox) (r : Request)
    (capabilities_params device_public_key ecdh_secret : Bytes) where
  abbrev pub exchange_salt : Bytes
  exchange_salt = confirmation_salt t r capabilities_params device_public_key

  abbrev pub confirmation_of : Bytes → Bytes
  confirmation_of value = confirm t r (confirmation_key t r ecdh_secret exchange_salt) value

  abbrev pub exchange_device_key : Bytes → Bytes
  exchange_device_key device_random =
      device_key_of t r ecdh_secret (provisioning_salt t r exchange_salt device_random)

-- A node that follows the protocol: what it sends, and the secret that ECDH gives both sides.
pub record IsNode (t : Toolbox) (r : Request) (hook : Bytes → ℕ → Result (Unit {0}))
    (capabilities_params device_public_key device_random ecdh_secret : Bytes) (c : Capabilities)
    : Type 0 where
  pub parsed : parse capabilities_params ≡ ok c
  pub supported : supports_cmac_aes128 c ≡ true
  pub elements : 1 ≤ c.num_elements
  pub range : r.unicast_address + c.num_elements ≤ 0x8000
  pub key_size : length device_public_key ≡ 64
  pub other_key : device_public_key ≢ t.keypair.public_key_bytes
  pub on_curve : t.keypair.exchange device_public_key ≡ some ecdh_secret
  pub random_size : length device_random ≡ 16
  pub other_confirmation :
      confirmation_of t r capabilities_params device_public_key ecdh_secret device_random
      ≢ confirmation_of t r capabilities_params device_public_key ecdh_secret t.provisioner_random
  pub kept :
      hook
        (exchange_device_key t r capabilities_params device_public_key ecdh_secret device_random)
        c.num_elements
      ≡ ok tt

-- What such a node sends, with `rest` after it.
abbrev pub node_pdus :
    Toolbox → Request → Bytes → Bytes → Bytes → Bytes → List (ℕ × Bytes) → List (ℕ × Bytes)
node_pdus t r capabilities_params device_public_key device_random ecdh_secret rest =
    (capabilities, capabilities_params)
    ∷ (public_key, device_public_key)
    ∷ (
      confirmation,
      confirmation_of t r capabilities_params device_public_key ecdh_secret device_random,
    )
    ∷ (random, device_random)
    ∷ (complete, [])
    ∷ rest

-- With a node that follows the protocol, a valid request, a hook that succeeds and at least six
-- writes before the connection is lost, the transaction completes: it returns the node's address,
-- its number of elements and the device key, and takes exactly the node's five PDUs.
pub provision_completes :
    (t : Toolbox) (r : Request) (hook : Bytes → ℕ → Result (Unit {0}))
    (capabilities_params device_public_key device_random ecdh_secret : Bytes) (c : Capabilities)
    (rest : List (ℕ × Bytes)) (spare : ℕ)
    → IsToolbox t
    → IsRequest r
    → r.before_commit ≡ some hook
    → IsNode t r hook capabilities_params device_public_key device_random ecdh_secret c
    → (after : Session) × (after.queue ≡ rest)
      × (after.writes ≡ spare)
      × (provision t r (record {
        queue = node_pdus t r capabilities_params device_public_key device_random ecdh_secret rest;
        writes = suc (suc (suc (suc (suc (suc spare)))));
        actions = [];
      })
          ≡ (
            ok (record {
              unicast_address = r.unicast_address;
              num_elements = c.num_elements;
              device_key =
                  exchange_device_key t r capabilities_params device_public_key ecdh_secret
                    device_random;
            }),
            after,
          ))
unfolding provision provision_exchange
provision_completes t r hook capabilities_params device_public_key device_random ecdh_secret c rest
      spare sizes v hooked node =
    let (plaintext, built, size) = provisioning_data_ok r v in
    let q = node_pdus t r capabilities_params device_public_key device_random ecdh_secret rest in
    let q1 =
      (public_key, device_public_key)
      ∷ (
        confirmation,
        confirmation_of t r capabilities_params device_public_key ecdh_secret device_random,
      )
      ∷ (random, device_random)
      ∷ (complete, [])
      ∷ rest in
    let invited = sent invite (r.attention_duration ∷ []) ∷ [] in
    let network_size : (length r.network_key == 16) ≡ true = rw (v.network_key) refl in
    let low : leb 1 r.unicast_address ≡ true = le→leb _ _ v.unicast_low in
    let high : leb r.unicast_address 0x7FFF ≡ true = le→leb _ _ v.unicast_high in
    let index : leb r.key_index 0x0FFF ≡ true = le→leb _ _ v.key_index in
    let iv : leb r.iv_index 0xFFFFFFFF ≡ true = le→leb _ _ v.iv_index in
    let reserved : shr r.flags 2 ≡ 0 = omega (arith, v.flags) in
    let attention : leb r.attention_duration 0xFF ≡ true = le→leb _ _ v.attention_duration in
    let elements : leb 1 c.num_elements ≡ true = le→leb _ _ node.elements in
    let range : ltb 0x7FFF (r.unicast_address + c.num_elements - 1) ≡ false =
      ground (arith, node.range) in
    (
      session rest spare (
          ending t sizes r v hook hooked capabilities_params device_public_key device_random
            ecdh_secret c.num_elements plaintext
            ((invited ++ (sent start start_params ∷ []))
              ++ (sent public_key t.keypair.public_key_bytes ∷ []))),
      refl,
      refl,
      rw
          (
            network_size,
            low,
            high,
            index,
            iv,
            reserved,
            attention,
            send_ok invite (r.attention_duration ∷ []) q (suc (suc (suc (suc (suc spare))))) []
                (omega arith),
            expect_ok capabilities capabilities_params q1 (suc (suc (suc (suc (suc spare)))))
                invited refl,
            node.parsed,
            node.supported,
            elements,
            range,
          )
          (exchange_keys_ok t sizes r v hook hooked capabilities_params device_public_key
            device_random ecdh_secret c.num_elements plaintext rest spare invited built size
            node.kept node.other_confirmation node.random_size node.key_size node.other_key
            node.on_curve),
    )
