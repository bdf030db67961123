-- ===== src/Proxy/Sending/Access.antt =====
-- `send_access` of ProxyClient (custom_components/amaran_ble/amaranble/proxy.py).
use ha_amaran_ble.Base.{
  ℕ, Bool, true, false, Option, none, some, ◌++◌, Result, ok, err, proxy_error, leb, length,
}
use ha_amaran_ble.Base.Bytes.{Bytes}
use ha_amaran_ble.Base.Dict.{get, nat_Eq}
use ha_amaran_ble.Base.Exec.{Exec, lift, pure, gets, ◌>>=◌}
use ha_amaran_ble.Crypto.{Cipher}
use ha_amaran_ble.Network.Opcodes.{encode_opcode}
use ha_amaran_ble.Proxy.Sending.{Link, Sending, send_unsegmented}
use ha_amaran_ble.Proxy.Sending.Segmented.{send_segmented}

abbrev pub unsegmented_access_max : ℕ
unsegmented_access_max = 11

-- The keyword arguments of `send_access`.
pub record Options : Type 0 where
  pub device_key_for : Option ℕ
  pub ttl : ℕ
  pub retries : ℕ

abbrev pub sending_with :
    Cipher → (ℕ → Result (Unit {0})) → ℕ → Options → Bytes → ℕ → ℕ → Bool → Sending
sending_with cipher before_sequence dst o key akf aid use_device_key = record {
  cipher = cipher;
  before_sequence = before_sequence;
  dst = dst;
  ttl = o.ttl;
  key = key;
  akf = akf;
  aid = aid;
  use_device_key = use_device_key;
}

abbrev pub or_no_key : Option Bytes → Result Bytes
or_no_key none = err proxy_error
or_no_key (some key) = ok key

-- The application key, or the device key of a node.
abbrev pub choose_key :
    Cipher → (ℕ → Result (Unit {0})) → ℕ → Options → Option ℕ → Exec Link Sending
choose_key cipher before_sequence dst o none = do
  c ← gets (λ (s : Link). s.client)
  pure (sending_with cipher before_sequence dst o c.app_key 1 c.aid false)
choose_key cipher before_sequence dst o (some node) = do
  c ← gets (λ (s : Link). s.client)
  key ← lift (or_no_key (get node c.device_keys))
  pure (sending_with cipher before_sequence dst o key 0 0 true)

unfoldable pub send_either : Bool → Sending → Bytes → ℕ → Exec Link (Unit {0})
send_either true a access_pdu retries = send_unsegmented a access_pdu retries
send_either false a access_pdu retries = send_segmented a access_pdu

unfoldable pub send_access :
    Cipher → (ℕ → Result (Unit {0})) → ℕ → ℕ → Bytes → Options → Exec Link (Unit {0})
send_access cipher before_sequence dst opcode parameters o = do
  opcode_bytes ← lift (encode_opcode opcode)
  let access_pdu = opcode_bytes ++ parameters
  a ← choose_key cipher before_sequence dst o o.device_key_for
  send_either (leb (length access_pdu) unsegmented_access_max) a access_pdu o.retries
