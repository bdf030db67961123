-- ===== src/Provisioning.antt =====
-- One provisioning transaction (custom_components/amaran_ble/amaranble/provisioning.py,
-- `Capabilities` and `Provisioner`). The two random values, the key pair and AES-CMAC come from
-- outside the repository and are parameters.
pub mod Exchange
pub mod Steps
pub mod Handover
pub mod Secure
pub mod Honest
pub mod Stages
pub mod Completes
mod Examples
use ha_amaran_ble.Base.{
  ℕ, zero, suc, ◌>>=◌, ◌>>◌, Bool, Option, none, some, List, [], ◌∷◌, ◌++◌, Error, Result, ok, err,
  provisioning_error, ◌==◌, if◌then◌else◌, truthy, length, get_or,
}
use ha_amaran_ble.Base.Exec.{Exec}
use ha_amaran_ble.Crypto.{byte}
use ha_amaran_ble.Base.Bits.{low_bits}
use ha_amaran_ble.Base.Bytes.{Bytes, slice, to_bytes_big, from_bytes_big}
use ha_amaran_ble.Gatt
use ha_amaran_ble.Gatt.{type_provisioning}

abbrev pub invite : ℕ
invite = 0x00

abbrev pub capabilities : ℕ
capabilities = 0x01

abbrev pub start : ℕ
start = 0x02

abbrev pub public_key : ℕ
public_key = 0x03

abbrev pub confirmation : ℕ
confirmation = 0x05

abbrev pub random : ℕ
random = 0x06

abbrev pub credentials : ℕ
credentials = 0x07

abbrev pub complete : ℕ
complete = 0x08

abbrev pub failed : ℕ
failed = 0x09

pub record Capabilities : Type 0 where
  pub num_elements : ℕ
  pub algorithms : ℕ
  pub public_key_type : ℕ
  pub static_oob_type : ℕ
  pub output_oob_size : ℕ
  pub output_oob_action : ℕ
  pub input_oob_size : ℕ
  pub input_oob_action : ℕ

unfoldable pub parse : Bytes → Result Capabilities
parse received =
    if length received == 11
    then ok (record {
      num_elements = get_or received 0 0;
      algorithms = from_bytes_big (slice 1 3 received);
      public_key_type = get_or received 3 0;
      static_oob_type = get_or received 4 0;
      output_oob_size = get_or received 5 0;
      output_oob_action = from_bytes_big (slice 6 8 received);
      input_oob_size = get_or received 8 0;
      input_oob_action = from_bytes_big (slice 9 11 received);
    })
    else err provisioning_error

-- algorithms & (1 << ALGORITHM_CMAC_AES128)
abbrev pub supports_cmac_aes128 : Capabilities → Bool
supports_cmac_aes128 c = truthy (low_bits c.algorithms 1)

-- The arguments of `provision`.
pub record Request : Type 0 where
  pub network_key : Bytes
  pub unicast_address : ℕ
  pub key_index : ℕ
  pub iv_index : ℕ
  pub flags : ℕ
  pub attention_duration : ℕ
  pub before_commit : Option (Bytes → ℕ → Result (Unit {0}))

-- network_key + key_index + flags + iv_index + unicast_address
unfoldable pub provisioning_data : Request → Result Bytes
provisioning_data r = do
  key_bytes ← to_bytes_big 2 r.key_index
  flag_bytes ← byte r.flags
  iv_bytes ← to_bytes_big 4 r.iv_index
  address_bytes ← to_bytes_big 2 r.unicast_address
  ok (r.network_key ++ (key_bytes ++ (flag_bytes ++ (iv_bytes ++ address_bytes))))

-- What the provisioner does to the outside: a PDU that is sent, or the caller's durable hook.
pub data Action : Type 0 where
  sent : ℕ → Bytes → Action
  committed : Bytes → ℕ → Action

-- The queue of the PDUs that arrive in time, in their order, the number of writes that succeed
-- before the connection is lost, and what was done.
pub record Session : Type 0 where
  pub queue : List (ℕ × Bytes)
  pub writes : ℕ
  pub actions : List Action

-- The PDU types occupy a whole octet; anything else than a provisioning PDU is dropped.
unfoldable pub on_message : List (ℕ × Bytes) → ℕ → Bytes → List (ℕ × Bytes)
on_message queue msg_type [] = queue
on_message queue msg_type (first ∷ rest) =
    if msg_type == type_provisioning then queue ++ ((first, rest) ∷ []) else queue

abbrev pub act : Session → Action → Session
act s action = record s { actions = s.actions ++ (action ∷ []) }

abbrev pub record_action : Action → Exec Session (Unit {0})
record_action action s = (ok tt, act s action)

abbrev pub write : Action → Result (List Bytes) → Exec Session (Unit {0})
write action (err e) s = (err e, s)
write action (ok frames) s = elim s.writes [
  | zero ↦ (err provisioning_error, s)
  | suc n ↦ (ok tt, act (record s { writes = n }) action)
]

unfoldable pub send : ℕ → Bytes → Exec Session (Unit {0})
send pdu_type params =
    write (sent pdu_type params) (Gatt.send type_provisioning (pdu_type ∷ params))

-- An empty queue is a timeout. `FAILED` and any other type than the one that is due raise.
abbrev pub expect_in : ℕ → List (ℕ × Bytes) → Exec Session Bytes
expect_in pdu_type [] s = (err provisioning_error, s)
expect_in pdu_type ((got_type, params) ∷ rest) s =
    if got_type == failed
    then (err provisioning_error, record s { queue = rest })
    else if got_type == pdu_type
    then (ok params, record s { queue = rest })
    else (err provisioning_error, record s { queue = rest })

unfoldable pub expect : ℕ → Exec Session Bytes
expect pdu_type s = expect_in pdu_type s.queue s
