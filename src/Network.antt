-- ===== src/Network.antt =====
-- Mesh network and transport framing (custom_components/amaran_ble/amaranble/network.py): the
-- network PDU, access payloads and opcodes. Segments and their reassembly are in the children.
pub mod RoundTrip
pub mod Identity
pub mod Opcodes
pub mod Segments
pub mod Reassembler
mod Examples
use ha_amaran_ble.Base.{
  ℕ, zero, suc, ◌+◌, ◌-◌, ◌≤◌, ◌<◌, Bool, true, false, not, ◌&&◌, ◌||◌, Option, none, some, List,
  [], ◌∷◌, ◌++◌, Result, ok, err, guard, value_error, network_decode_error, leb, ltb, ◌==◌,
  if◌then◌else◌, length, take, drop, get_or, bit_or, ◌>>=◌, ◌>>◌,
}
use ha_amaran_ble.Base.Bits.{shl, shr, low_bits}
use ha_amaran_ble.Base.Bytes.{Bytes, slice, to_bytes_big, from_bytes_big, xor_bytes}
use ha_amaran_ble.Crypto.{
  Cipher, nonce_application, nonce_device, byte, ctl_ttl, network_nonce, proxy_nonce,
  transport_nonce, obfuscation_ecb,
}

abbrev pub unassigned_address : ℕ
unassigned_address = 0x0000

-- The fields of `NetworkKeys` that the framing reads.
pub record NetworkKeys : Type 0 where
  pub nid : ℕ
  pub encryption_key : Bytes
  pub privacy_key : Bytes

pub record NetworkMessage : Type 0 where
  pub ctl : ℕ
  pub ttl : ℕ
  pub seq : ℕ
  pub src : ℕ
  pub dst : ℕ
  pub transport_pdu : Bytes

abbrev pub is_unicast : ℕ → Bool
is_unicast src = leb 0x0001 src && leb src 0x7FFF

abbrev pub mic_length : ℕ → ℕ
mic_length ctl = if ctl == 0 then 4 else 8

abbrev pub max_transport : ℕ → ℕ
max_transport ctl = if ctl == 0 then 16 else 12

-- The destination that the PDU's kind calls for.
abbrev pub dst_allowed : Bool → ℕ → Bool
dst_allowed proxy_config dst =
    if proxy_config then dst == unassigned_address else not (dst == unassigned_address)

abbrev pub pdu_nonce : Bool → ℕ → ℕ → ℕ → ℕ → ℕ → Result Bytes
pdu_nonce proxy_config ctl ttl seq src iv_index =
    if proxy_config then proxy_nonce seq src iv_index else network_nonce ctl ttl seq src iv_index

-- The guards of `encode_network_pdu`, in its order.
abbrev pub check_message : Bool → NetworkMessage → Result (Unit {0})
check_message proxy_config m = do
  guard (m.ctl == 0 || m.ctl == 1) value_error
  guard (leb m.ttl 0x7F) value_error
  guard (leb m.seq 0xFFFFFF) value_error
  guard (is_unicast m.src) value_error
  guard (dst_allowed proxy_config m.dst) value_error
  guard (leb 1 (length m.transport_pdu) && leb (length m.transport_pdu) (max_transport m.ctl))
      value_error

unfoldable pub encode_network_pdu : Cipher → NetworkKeys → ℕ → Bool → NetworkMessage → Result Bytes
encode_network_pdu c keys iv_index proxy_config m = do
  check_message proxy_config m
  nonce ← pdu_nonce proxy_config m.ctl m.ttl m.seq m.src iv_index
  dst_bytes ← to_bytes_big 2 m.dst
  let encrypted =
      c.aes_ccm_encrypt keys.encryption_key nonce (dst_bytes ++ m.transport_pdu) (mic_length m.ctl)
  seq_bytes ← to_bytes_big 3 m.seq
  src_bytes ← to_bytes_big 2 m.src
  let header = ctl_ttl m.ctl m.ttl ∷ (seq_bytes ++ src_bytes)
  pecb ← obfuscation_ecb c keys.privacy_key iv_index (take 7 encrypted)
  ok (
      bit_or (shl (low_bits iv_index 1) 7) (low_bits keys.nid 7)
      ∷ (xor_bytes header pecb ++ encrypted))

-- `InvalidTag` becomes the program's own error.
abbrev pub or_invalid_tag : Option Bytes → Result Bytes
or_invalid_tag none = err network_decode_error
or_invalid_tag (some plaintext) = ok plaintext

abbrev pub read_message : Bool → ℕ → ℕ → ℕ → ℕ → Bytes → Result NetworkMessage
read_message proxy_config ctl ttl seq src plaintext = do
  guard (leb 3 (length plaintext)) network_decode_error
  let dst = from_bytes_big (take 2 plaintext)
  guard (dst_allowed proxy_config dst) network_decode_error
  ok (record {
    ctl = ctl;
    ttl = ttl;
    seq = seq;
    src = src;
    dst = dst;
    transport_pdu = drop 2 plaintext;
  })

-- From the header on, once its mask is known.
abbrev pub decode_with_header :
    Cipher → NetworkKeys → ℕ → Bool → Bytes → Bytes → ℕ → Result NetworkMessage
decode_with_header c keys iv_index proxy_config header encrypted pdu_length = do
  let ctl = shr (get_or header 0 0) 7
  let ttl = low_bits (get_or header 0 0) 7
  let seq = from_bytes_big (slice 1 4 header)
  let src = from_bytes_big (slice 4 6 header)
  guard (is_unicast src) network_decode_error
  guard (not (not (ctl == 0) && ltb pdu_length 18)) network_decode_error
  nonce ← pdu_nonce proxy_config ctl ttl seq src iv_index
  plaintext ←
      or_invalid_tag (c.aes_ccm_decrypt keys.encryption_key nonce encrypted (mic_length ctl))
  read_message proxy_config ctl ttl seq src plaintext

unfoldable pub decode_network_pdu : Cipher → NetworkKeys → ℕ → Bool → Bytes → Result NetworkMessage
decode_network_pdu c keys iv_index proxy_config pdu = do
  guard (leb 14 (length pdu) && leb (length pdu) 29) network_decode_error
  guard (shr (get_or pdu 0 0) 7 == low_bits iv_index 1) network_decode_error
  guard (low_bits (get_or pdu 0 0) 7 == keys.nid) network_decode_error
  let encrypted = drop 7 pdu
  pecb ← obfuscation_ecb c keys.privacy_key iv_index (take 7 encrypted)
  decode_with_header c keys iv_index proxy_config (xor_bytes (slice 1 7 pdu) pecb) encrypted
      (length pdu)

abbrev access_nonce : Bool → ℕ → ℕ → ℕ → ℕ → ℕ → Result Bytes
access_nonce device_key szmic seq src dst iv_index =
    transport_nonce (if device_key then nonce_device else nonce_application) szmic seq src dst
      iv_index

abbrev access_mic_length : ℕ → ℕ
access_mic_length szmic = if szmic == 0 then 4 else 8

-- The nonce's inputs, in the order iv_index, seq, src, dst.
unfoldable pub encrypt_access_payload :
    Cipher → Bytes → Bool → ℕ → ℕ → ℕ → ℕ → Bytes → ℕ → Result Bytes
encrypt_access_payload c key device_key iv_index seq src dst access_pdu szmic = do
  nonce ← access_nonce device_key szmic seq src dst iv_index
  ok (c.aes_ccm_encrypt key nonce access_pdu (access_mic_length szmic))

unfoldable pub decrypt_access_payload :
    Cipher → Bytes → Bool → ℕ → ℕ → ℕ → ℕ → Bytes → ℕ → Result Bytes
decrypt_access_payload c key device_key iv_index seq src dst upper_pdu szmic = do
  nonce ← access_nonce device_key szmic seq src dst iv_index
  or_invalid_tag (c.aes_ccm_decrypt key nonce upper_pdu (access_mic_length szmic))
