-- ===== src/Provisioning/Examples.antt =====
-- A transaction with a toy toolbox, whose AES-CMAC is the start of the message.
use ha_amaran_ble.Base.{
  ℕ, ◌+◌, ◌≡◌, refl, ◌∙◌, ap, some, [], ◌∷◌, ◌++◌, Result, ok, length, take, replicate, arith,
  length-take, length-append, length-replicate,
}
use ha_amaran_ble.Base.Exec.{Ensures}
use ha_amaran_ble.Base.Bytes.{Bytes}
use ha_amaran_ble.Provisioning.{Request, Capabilities, Session, parse}
use ha_amaran_ble.Provisioning.Exchange.{Toolbox, provision}
use ha_amaran_ble.Provisioning.Handover.{Returned, Raised}
use ha_amaran_ble.Provisioning.Secure.{provision-IsHandedOver}
use ha_amaran_ble.Provisioning.Honest.{IsToolbox, IsRequest}
use ha_amaran_ble.Provisioning.Completes.{
  IsNode, node_pdus, exchange_device_key, provision_completes,
}

abbrev toy : Toolbox
toy = record {
  aes_cmac = λ key message. take 16 (message ++ replicate 16 0);
  aes_ccm_encrypt = λ key nonce plaintext mic_len. plaintext ++ replicate mic_len 0;
  keypair = record { public_key_bytes = replicate 64 1; exchange = λ peer. some (replicate 32 7) };
  provisioner_random = replicate 16 3;
}

toy-IsToolbox : IsToolbox toy
toy-IsToolbox = record {
  length-public_key = refl;
  length-cmac = λ key message.
      length-take 16 (message ++ replicate 16 0)
      ∙ omega (arith, length-append message (replicate 16 0), length-replicate {A = ℕ} 16 0);
  length-encrypt = λ key nonce plaintext mic_len.
      length-append plaintext (replicate mic_len 0)
      ∙ ap (λ n. length plaintext + n) (length-replicate {A = ℕ} mic_len 0);
  length-random = refl;
}

abbrev accept : Bytes → ℕ → Result (Unit {0})
accept device_key num_elements = ok tt

abbrev request : Request
request = record {
  network_key = replicate 16 9;
  unicast_address = 0x0002;
  key_index = 0;
  iv_index = 0;
  flags = 0;
  attention_duration = 5;
  before_commit = some accept;
}

request-IsRequest : IsRequest request
request-IsRequest = record {
  network_key = refl;
  unicast_low = omega arith;
  unicast_high = omega arith;
  key_index = omega arith;
  iv_index = omega arith;
  flags = omega arith;
  attention_duration = omega arith;
}

-- Two elements, and the one algorithm.
abbrev capabilities_params : Bytes
capabilities_params = 2 ∷ 0 ∷ 1 ∷ 0 ∷ 0 ∷ 0 ∷ 0 ∷ 0 ∷ 0 ∷ 0 ∷ 0 ∷ []

abbrev node_capabilities : Capabilities
node_capabilities = record {
  num_elements = 2;
  algorithms = 1;
  public_key_type = 0;
  static_oob_type = 0;
  output_oob_size = 0;
  output_oob_action = 0;
  input_oob_size = 0;
  input_oob_action = 0;
}

toy-IsNode :
    IsNode toy request accept capabilities_params
      (replicate 64 2)
      (replicate 16 4)
      (replicate 32 7)
      node_capabilities
unfolding parse
toy-IsNode = record {
  parsed = refl;
  supported = refl;
  elements = omega arith;
  range = omega arith;
  key_size = refl;
  other_key = λ e. ground arith;
  on_curve = refl;
  random_size = refl;
  other_confirmation = λ e. ground arith;
  kept = refl;
}

provision_completes_example :
    (after : Session) × (after.queue ≡ [])
    × (after.writes ≡ 0)
    × (provision toy request (record {
      queue =
          node_pdus toy request capabilities_params
            (replicate 64 2)
            (replicate 16 4)
            (replicate 32 7)
            [];
      writes = 6;
      actions = [];
    })
        ≡ (
          ok (record {
            unicast_address = 0x0002;
            num_elements = 2;
            device_key =
                exchange_device_key toy request capabilities_params
                  (replicate 64 2)
                  (replicate 32 7)
                  (replicate 16 4);
          }),
          after,
        ))
provision_completes_example =
    provision_completes toy request accept capabilities_params (replicate 64 2) (replicate 16 4)
      (replicate 32 7) node_capabilities [] 0 toy-IsToolbox request-IsRequest refl toy-IsNode

-- The connection is lost after the random value.
abbrev session : Session
session = record {
  queue =
      node_pdus toy request capabilities_params (replicate 64 2) (replicate 16 4) (replicate 32 7)
        [];
  writes = 5;
  actions = [];
}

provision-IsHandedOver_example :
    Ensures
      (Returned toy request accept refl session)
      (Raised toy request accept refl session)
      (provision toy request session)
provision-IsHandedOver_example = provision-IsHandedOver toy request accept refl session refl
