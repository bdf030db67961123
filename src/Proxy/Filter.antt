-- ===== src/Proxy/Filter.antt =====
-- The filter status and the two kinds of inbound PDU (`_handle_proxy_config` and `_on_proxy_pdu` of
-- custom_components/amaran_ble/amaranble/proxy.py). An exception drops the PDU.
use ha_amaran_ble.Base.{
  ℕ, Bool, true, not, ◌&&◌, Option, none, some, List, [], Result, ok, err, ◌==◌, if◌then◌else◌,
  length, get_or,
}
use ha_amaran_ble.Base.Bytes.{Bytes}
use ha_amaran_ble.Crypto.{Cipher}
use ha_amaran_ble.Gatt.{type_network, type_proxy_configuration}
use ha_amaran_ble.Network.{NetworkMessage, decode_network_pdu}
use ha_amaran_ble.Proxy.{Client, Output, is_replay, remember_sequence, handle_network}

abbrev pub proxy_config_filter_status : ℕ
proxy_config_filter_status = 0x03

abbrev pub proxy_filter_accept_list : ℕ
proxy_filter_accept_list = 0x00

abbrev pub is_filter_status : Bytes → Bool
is_filter_status pdu =
    (length pdu == 4)
    && (get_or pdu 0 0 == proxy_config_filter_status)
    && (get_or pdu 1 0 == proxy_filter_accept_list)

-- `set_result` on a future that is waited for.
abbrev pub completed : Option Bool → Option Bool
completed none = none
completed (some done) = some true

abbrev pub accept_status : Client → NetworkMessage → Client
accept_status c m =
    if is_replay c m.src m.seq
    then c
    else if not (is_filter_status m.transport_pdu)
    then c
    else record (remember_sequence c m.src m.seq) { filter_status = completed c.filter_status }

abbrev pub accept_config : Client → Result NetworkMessage → Client
accept_config c (err e) = c
accept_config c (ok m) = accept_status c m

unfoldable pub handle_proxy_config : Cipher → Client → Bytes → Client
handle_proxy_config cipher c payload =
    accept_config c (decode_network_pdu cipher c.keys c.iv_index true payload)

unfoldable pub on_proxy_pdu : Cipher → Client → ℕ → Bytes → ℕ → List Output × Client
on_proxy_pdu cipher c msg_type payload now =
    if msg_type == type_proxy_configuration
    then ([], handle_proxy_config cipher c payload)
    else if msg_type == type_network
    then handle_network cipher c payload now
    else ([], c)
