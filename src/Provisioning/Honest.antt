-- ===== src/Provisioning/Honest.antt =====
-- A session that goes as the protocol has it, and the sizes that this takes
-- (custom_components/amaran_ble/amaranble/provisioning.py).
use ha_amaran_ble.Base.{
  ℕ, suc, ◌+◌, ◌≤◌, ◌<◌, ◌≡◌, ◌≢◌, refl, ◌∙◌, true, false, List, [], ◌∷◌, ◌++◌, ok, ◌==◌, ==_refl,
  ltb, length, length-append, arith,
}
use ha_amaran_ble.Base.Bytes.{Bytes, same_bytes, same_bytes_iff, to_bytes_big_ok, big_endian}
use ha_amaran_ble.Gatt
use ha_amaran_ble.Gatt.{type_provisioning}
use ha_amaran_ble.Provisioning.{Request, provisioning_data, Session, Action, sent, send, expect}
use ha_amaran_ble.Provisioning.Exchange.{Toolbox}

abbrev pub session : List (ℕ × Bytes) → ℕ → List Action → Session
session queue writes actions = record { queue = queue; writes = writes; actions = actions }

pub send_ok :
    (pdu_type : ℕ) (params : Bytes) (queue : List (ℕ × Bytes)) (n : ℕ) (actions : List Action)
    → length params ≤ 64
    → send pdu_type params (session queue (suc n) actions)
      ≡ (ok tt, session queue n (actions ++ (sent pdu_type params ∷ [])))
unfolding send Gatt.send Gatt.max_proxy_message_length
send_ok pdu_type params queue n actions h =
    let fits : ltb 65 (suc (length params)) ≡ false = ground arith in rw fits refl

pub expect_ok :
    (pdu_type : ℕ) (params : Bytes) (queue : List (ℕ × Bytes)) (n : ℕ) (actions : List Action)
    → (pdu_type == 9) ≡ false
    → expect pdu_type (session ((pdu_type, params) ∷ queue) n actions)
      ≡ (ok params, session queue n actions)
unfolding expect
expect_ok pdu_type params queue n actions h = rw (h, ==_refl pdu_type) refl

-- What the code relies on of the `cryptography` package: the sizes of what it returns.
pub record IsToolbox (t : Toolbox) : Type 0 where
  pub length-public_key : length t.keypair.public_key_bytes ≡ 64
  pub length-cmac : (key message : Bytes) → length (t.aes_cmac key message) ≡ 16
  pub length-encrypt :
      (key nonce plaintext : Bytes) (mic_len : ℕ)
      → length (t.aes_ccm_encrypt key nonce plaintext mic_len) ≡ length plaintext + mic_len
  pub length-random : length t.provisioner_random ≡ 16

pub record IsRequest (r : Request) : Type 0 where
  pub network_key : length r.network_key ≡ 16
  pub unicast_low : 1 ≤ r.unicast_address
  pub unicast_high : r.unicast_address ≤ 0x7FFF
  pub key_index : r.key_index ≤ 0x0FFF
  pub iv_index : r.iv_index ≤ 0xFFFFFFFF
  pub flags : r.flags < 4
  pub attention_duration : r.attention_duration ≤ 0xFF

pub differ : (xs ys : Bytes) → xs ≢ ys → same_bytes xs ys ≡ false
differ xs ys h = ground (arith, same_bytes_iff xs ys, h)

pub same : (xs : Bytes) → same_bytes xs xs ≡ true
same xs = (same_bytes_iff xs xs).1 refl

pub provisioning_data_ok :
    (r : Request)
    → IsRequest r
    → (plaintext : Bytes) × (provisioning_data r ≡ ok plaintext) × (length plaintext ≡ 25)
unfolding provisioning_data
provisioning_data_ok r v =
    let key_bytes = to_bytes_big_ok 2 r.key_index (omega (arith, v.key_index)) in
    let flag : ltb r.flags 256 ≡ true = ground (arith, v.flags) in
    let iv_bytes = to_bytes_big_ok 4 r.iv_index (omega (arith, v.iv_index)) in
    let address_bytes = to_bytes_big_ok 2 r.unicast_address (omega (arith, v.unicast_high)) in
    let rest =
      big_endian 2 r.key_index
      ++ (r.flags ∷ [] ++ (big_endian 4 r.iv_index ++ big_endian 2 r.unicast_address)) in
    (
      r.network_key ++ rest,
      rw (key_bytes, flag, iv_bytes, address_bytes) refl,
      length-append r.network_key rest ∙ omega (arith, v.network_key),
    )
