-- ===== src/Network/RoundTrip.antt =====
-- What `encode_network_pdu` accepts, `decode_network_pdu` reads back.
use ha_amaran_ble.Crypto.{Cipher, IsCipher, ctl_ttl, obfuscation_ecb}
use ha_amaran_ble.Base.{
  ℕ, ◌+◌, ◌*◌, ◌^◌, ◌≤◌, ◌<◌, ◌≡◌, sym, ◌∙◌, Bool, true, false, not, ◌&&◌, ◌∷◌, ◌++◌, length,
  length-append, arith, ok, bit_or, leb, ◌⊎◌, ltb, take, take_left_of, drop_left_of, length-take,
  All-take, ◌==◌, replicate,
}
use ha_amaran_ble.Base.Bits.{shl, shr, low_bits, or_law, op_fields}
use ha_amaran_ble.Base.Bytes.{
  Bytes, IsByte, big_endian, to_bytes_big, to_bytes_big_ok, from_bytes_big, xor_bytes,
  xor_bytes-xor_bytes, length-xor_bytes, slice,
}
use ha_amaran_ble.Crypto.Nonces.{
  network_nonce_bytes, network_nonce_ok, ctl_ttl_sum, proxy_nonce_bytes, proxy_nonce_ok,
}
use ha_amaran_ble.Network.{
  NetworkKeys, NetworkMessage, check_message, is_unicast, mic_length, dst_allowed, pdu_nonce,
  encode_network_pdu, decode_network_pdu, decode_with_header, read_message,
}

-- What the Mesh profile allows: the source is a unicast address, a proxy configuration message goes to
-- the unassigned address and no other message does, and the transport PDU has up to 16 bytes, or up
-- to 12 in a control message.
pub record IsEncodable (proxy_config : Bool) (m : NetworkMessage) : Type 0 where
  pub ctl : m.ctl ≤ 1
  pub ttl : m.ttl ≤ 0x7F
  pub seq : m.seq ≤ 0xFFFFFF
  pub src : (1 ≤ m.src) × (m.src ≤ 0x7FFF)
  pub dst : ((proxy_config ≡ true) × (m.dst ≡ 0)) ⊎ ((proxy_config ≡ false) × (1 ≤ m.dst))
  pub dst_fits : m.dst ≤ 0xFFFF
  pub payload : (1 ≤ length m.transport_pdu) × (length m.transport_pdu ≤ 16)
  pub control_payload : m.ctl ≡ 1 → length m.transport_pdu ≤ 12

check_message_ok : (p : Bool) (m : NetworkMessage) → IsEncodable p m → check_message p m ≡ ok tt
check_message_ok p m v = ground arith

nonce_found :
    (p : Bool) (m : NetworkMessage) (iv_index : ℕ)
    → IsEncodable p m
    → iv_index < 2 ^ 32
    → (n : Bytes) × (pdu_nonce p m.ctl m.ttl m.seq m.src iv_index ≡ ok n)
nonce_found true m iv v h =
    (proxy_nonce_bytes m.seq m.src iv, proxy_nonce_ok m.seq m.src iv (omega arith) (omega arith) h)
nonce_found false m iv v h = (
  network_nonce_bytes m.ctl m.ttl m.seq m.src iv,
  network_nonce_ok m.ctl m.ttl m.seq m.src iv v.ctl (omega arith) (omega arith) h,
)

-- The pieces of one PDU, from its message and the two outputs of the cipher.
module _ (c : Cipher) (law : IsCipher c) (keys : NetworkKeys) (iv_index : ℕ) (p : Bool)
    (m : NetworkMessage) (v : IsEncodable p m) (iv_lt : iv_index < 2 ^ 32) (nid_lt : keys.nid < 128)
    (nonce : Bytes) (nonce_eq : pdu_nonce p m.ctl m.ttl m.seq m.src iv_index ≡ ok nonce) where
  abbrev header : Bytes
  header = ctl_ttl m.ctl m.ttl ∷ (big_endian 3 m.seq ++ big_endian 2 m.src)

  abbrev plaintext : Bytes
  plaintext = big_endian 2 m.dst ++ m.transport_pdu

  abbrev encrypted : Bytes
  encrypted = c.aes_ccm_encrypt keys.encryption_key nonce plaintext (mic_length m.ctl)

  abbrev mask : Bytes
  mask = take 6 (
      c.aes_ecb keys.privacy_key
        (replicate 5 0 ++ (big_endian 4 iv_index ++ take 7 (take 7 encrypted))))

  abbrev first : ℕ
  first = bit_or (shl (low_bits iv_index 1) 7) (low_bits keys.nid 7)

  abbrev masked : Bytes
  masked = xor_bytes header mask

  abbrev the_pdu : Bytes
  the_pdu = first ∷ (masked ++ encrypted)

  mask_eq : obfuscation_ecb c keys.privacy_key iv_index (take 7 encrypted) ≡ ok mask
  unfolding obfuscation_ecb
  mask_eq = rw (to_bytes_big_ok 4 iv_index (omega arith))

  encode_eq : encode_network_pdu c keys iv_index p m ≡ ok the_pdu
  unfolding encode_network_pdu
  encode_eq = rw (
    check_message_ok p m v,
    nonce_eq,
    to_bytes_big_ok 2 m.dst (omega arith),
    to_bytes_big_ok 3 m.seq (omega arith),
    to_bytes_big_ok 2 m.src (omega arith),
    mask_eq,
  )

  first_sum : first ≡ low_bits iv_index 1 * 128 + keys.nid
  first_sum =
      op_fields or_law 7 (low_bits iv_index 1) (low_bits keys.nid 7) (omega arith) ∙ omega arith

  length-mask : length mask ≡ 6
  length-mask = omega (
    arith,
    length-take 6 (
        c.aes_ecb keys.privacy_key
          (replicate 5 0 ++ (big_endian 4 iv_index ++ take 7 (take 7 encrypted)))),
    law.block_length keys.privacy_key
        (replicate 5 0 ++ (big_endian 4 iv_index ++ take 7 (take 7 encrypted))),
  )

  length-masked : length masked ≡ 6
  length-masked = length-xor_bytes header mask (omega (arith, length-mask))

  length-encrypted : length encrypted ≡ 2 + length m.transport_pdu + mic_length m.ctl
  length-encrypted =
      omega (arith, law.length-encrypt keys.encryption_key nonce plaintext (mic_length m.ctl))

  length-pdu : length the_pdu ≡ 9 + length m.transport_pdu + mic_length m.ctl
  length-pdu = omega (arith, length-append masked encrypted, length-masked, length-encrypted)

  unmask : xor_bytes masked mask ≡ header
  unmask =
      xor_bytes-xor_bytes header mask (omega (arith, length-mask))
        (omega (arith, ctl_ttl_sum m.ctl m.ttl))
        (All-take IsByte 6 _ (law.block-IsByte keys.privacy_key _))

  header_ctl : shr (ctl_ttl m.ctl m.ttl) 7 ≡ m.ctl
  header_ctl = omega (arith, ctl_ttl_sum m.ctl m.ttl)

  header_ttl : low_bits (ctl_ttl m.ctl m.ttl) 7 ≡ m.ttl
  header_ttl = omega (arith, ctl_ttl_sum m.ctl m.ttl, v.ttl)

  read_eq : read_message p m.ctl m.ttl m.seq m.src plaintext ≡ ok m
  read_eq =
      let dst : from_bytes_big (take 2 plaintext) ≡ m.dst = omega arith in
      let long : leb 3 (length plaintext) ≡ true = ground arith in
      let allowed : dst_allowed p m.dst ≡ true = ground arith in rw (long, dst, allowed)

  with_header_eq : decode_with_header c keys iv_index p header encrypted (length the_pdu) ≡ ok m
  with_header_eq =
      let seq : from_bytes_big (slice 1 4 header) ≡ m.seq = omega arith in
      let src : from_bytes_big (slice 4 6 header) ≡ m.src = omega arith in
      let unicast : is_unicast m.src ≡ true = ground arith in
      let long : (not (not (m.ctl == 0) && ltb (length the_pdu) 18)) ≡ true =
        ground (arith, length-pdu) in
      rw (header_ctl, header_ttl, seq, src, unicast, long, nonce_eq, law.decrypt-encrypt) read_eq

  decode_eq : decode_network_pdu c keys iv_index p the_pdu ≡ ok m
  unfolding decode_network_pdu
  decode_eq =
      let fits : (leb 14 (length the_pdu) && leb (length the_pdu) 29) ≡ true =
        ground (arith, length-pdu) in
      let ivi : (shr first 7 == low_bits iv_index 1) ≡ true = ground (arith, first_sum) in
      let nid : (low_bits first 7 == keys.nid) ≡ true = ground (arith, first_sum) in
      rw
        (
          fits,
          ivi,
          nid,
          drop_left_of 6 masked encrypted length-masked,
          take_left_of 6 masked encrypted length-masked,
          mask_eq,
          unmask,
        )
        with_header_eq

-- An encodable message is encoded under every key set and IV Index of the right width, into 14 to
-- 29 bytes, and decoding these with the same keys and IV Index gives the message back.
pub decode-encode :
    (c : Cipher)
    → IsCipher c
    → (keys : NetworkKeys) (iv_index : ℕ) (p : Bool) (m : NetworkMessage) → IsEncodable p m
    → iv_index < 2 ^ 32
    → keys.nid < 128
    → (pdu : Bytes) × (encode_network_pdu c keys iv_index p m ≡ ok pdu)
      × (decode_network_pdu c keys iv_index p pdu ≡ ok m)
      × (14 ≤ length pdu)
      × (length pdu ≤ 29)
decode-encode c law keys iv_index p m v iv_lt nid_lt =
    let (nonce, nonce_eq) = nonce_found p m iv_index v iv_lt in
    (
      the_pdu c law keys iv_index p m v iv_lt nid_lt nonce nonce_eq,
      encode_eq c law keys iv_index p m v iv_lt nid_lt nonce nonce_eq,
      decode_eq c law keys iv_index p m v iv_lt nid_lt nonce nonce_eq,
      ground (arith, length-pdu c law keys iv_index p m v iv_lt nid_lt nonce nonce_eq),
      ground (arith, length-pdu c law keys iv_index p m v iv_lt nid_lt nonce nonce_eq),
    )

encode-IsEncodable :
    (c : Cipher) (keys : NetworkKeys) (iv_index : ℕ) (p : Bool) (m : NetworkMessage) (pdu : Bytes)
    → encode_network_pdu c keys iv_index p m ≡ ok pdu
    → IsEncodable p m
unfolding encode_network_pdu to_bytes_big
encode-IsEncodable c keys iv_index p m pdu h = ground arith

-- Whatever the encoder accepts is within the limits of the profile, for its source, its destination,
-- its TTL, its sequence number and the length of its transport PDU, and the decoder reads the
-- message back from the PDU: under keys whose NID and an IV Index that have the width of their
-- fields, and with a cipher that decrypts what it encrypted.
pub decode-encoded :
    (c : Cipher)
    → IsCipher c
    → (keys : NetworkKeys) (iv_index : ℕ) (p : Bool) (m : NetworkMessage) (pdu : Bytes)
    → iv_index < 2 ^ 32
    → keys.nid < 128
    → encode_network_pdu c keys iv_index p m ≡ ok pdu
    → IsEncodable p m × (decode_network_pdu c keys iv_index p pdu ≡ ok m)
decode-encoded c law keys iv_index p m pdu iv_lt nid_lt h =
    let v = encode-IsEncodable c keys iv_index p m pdu h in
    let coded = decode-encode c law keys iv_index p m v iv_lt nid_lt in
    let same : coded.0 ≡ pdu = grind (arith, coded.1, h) in (v, rw (sym same) coded.2)
