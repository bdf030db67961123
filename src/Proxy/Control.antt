-- ===== src/Proxy/Control.antt =====
-- The control messages that the client sends (`_send_proxy_config`, `_setup_filter` and
-- `_send_segment_ack` of custom_components/amaran_ble/amaranble/proxy.py).
pub mod Parameters
pub mod Fresh
use ha_amaran_ble.Base.{ℕ, Bool, true, false, Option, none, some, List, [], ◌∷◌, Result, ok}
use ha_amaran_ble.Base.Bits.{low_bits}
use ha_amaran_ble.Base.Bytes.{Bytes}
use ha_amaran_ble.Base.Exec.{Exec, lift, pure, modify, gets, ◌>>=◌, ◌>>◌}
use ha_amaran_ble.Crypto.{Cipher}
use ha_amaran_ble.Gatt
use ha_amaran_ble.Gatt.{type_network, type_proxy_configuration}
use ha_amaran_ble.Network.{encode_network_pdu, unassigned_address}
use ha_amaran_ble.Proxy.{Client}
use ha_amaran_ble.Proxy.Control.Parameters.{ack_parameters, from_keys, address_bytes}
use ha_amaran_ble.Proxy.Filter.{proxy_filter_accept_list}
use ha_amaran_ble.Proxy.Sending.{Link, next_seq, write, arrive}

abbrev pub proxy_config_set_filter_type : ℕ
proxy_config_set_filter_type = 0x00

abbrev pub proxy_config_add_addresses : ℕ
proxy_config_add_addresses = 0x01

abbrev pub all_nodes_address : ℕ
all_nodes_address = 0xFFFF

abbrev pub control_opcode_segment_ack : ℕ
control_opcode_segment_ack = 0x00

abbrev pub control_pdu : Cipher → Bool → Client → ℕ → ℕ → Bytes → Result Bytes
control_pdu cipher proxy_config c dst seq transport_pdu =
    encode_network_pdu cipher c.keys c.iv_index proxy_config (record {
      ctl = 1;
      ttl = 0;
      seq = seq;
      src = c.local_address;
      dst = dst;
      transport_pdu = transport_pdu;
    })

abbrev pub config_parameters : ℕ → Bytes → Bytes
config_parameters opcode params = low_bits opcode 7 ∷ params

unfoldable pub send_proxy_config :
    Cipher → (ℕ → Result (Unit {0})) → ℕ → Bytes → Exec Link (Unit {0})
send_proxy_config cipher before_sequence opcode params = do
  seq ← next_seq before_sequence
  c ← gets (λ (s : Link). s.client)
  pdu ← lift (control_pdu cipher true c unassigned_address seq (config_parameters opcode params))
  frames ← lift (Gatt.send type_proxy_configuration pdu)
  write seq pdu

unfoldable pub send_segment_ack :
    Cipher → (ℕ → Result (Unit {0})) → ℕ → ℕ → ℕ → Exec Link (Unit {0})
send_segment_ack cipher before_sequence dst seq_zero block_ack = do
  seq ← next_seq before_sequence
  params ← lift (ack_parameters seq_zero block_ack)
  c ← gets (λ (s : Link). s.client)
  pdu ← lift (control_pdu cipher false c dst seq (control_opcode_segment_ack ∷ params))
  frames ← lift (Gatt.send type_network pdu)
  write seq pdu

-- `None`, a future, or a future that is done.
abbrev pub set_filter_status : Option Bool → Link → Link
set_filter_status status s = record s { client = record s.client { filter_status = status } }

abbrev pub wanted : Link → List ℕ → List ℕ
wanted s addresses = from_keys [] (s.client.local_address ∷ all_nodes_address ∷ addresses)

-- Neither wait needs its answer.
unfoldable pub setup_filter : Cipher → (ℕ → Result (Unit {0})) → List ℕ → Exec Link (Unit {0})
setup_filter cipher before_sequence addresses = do
  modify (set_filter_status (some false))
  send_proxy_config cipher before_sequence proxy_config_set_filter_type
      (proxy_filter_accept_list ∷ [])
  status ← arrive cipher
  payload ← λ s. lift (address_bytes (wanted s addresses)) s
  modify (set_filter_status (some false))
  send_proxy_config cipher before_sequence proxy_config_add_addresses payload
  added ← arrive cipher
  modify (set_filter_status none)
