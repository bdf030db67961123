-- ===== src/Network/Opcodes.antt =====
-- Access opcodes of one, two or three bytes (custom_components/amaran_ble/amaranble/network.py).
use ha_amaran_ble.Base.{
  ℕ, ◌≤◌, ◌<◌, ◌≡◌, [], ◌∷◌, ◌++◌, Result, ok, err, guard, network_decode_error, ltb, leb, ◌==◌,
  if◌then◌else◌, length, take, drop, arith, ◌>>◌, ◌⊎◌, inl, inr, All,
}
use ha_amaran_ble.Base.Bits.{shr, low_bits}
use ha_amaran_ble.Base.Bytes.{Bytes, IsByte, to_bytes_big, big_endian, from_bytes_big}

unfoldable pub encode_opcode : ℕ → Result Bytes
unfolding to_bytes_big
encode_opcode opcode =
    if ltb opcode 0x80
    then ok (opcode ∷ [])
    else if ltb opcode 0x10000
    then to_bytes_big 2 opcode
    else to_bytes_big 3 opcode

-- `first & 0x80 == 0` is a top bit of 0, and `first & 0xC0 == 0x80` two top bits of 0b10.
unfoldable pub decode_opcode : Bytes → Result (ℕ × Bytes)
decode_opcode [] = err network_decode_error
decode_opcode (first ∷ rest) =
    let access_pdu : Bytes = first ∷ rest in
    if low_bits (shr first 7) 1 == 0
    then ok (first, rest)
    else if low_bits (shr first 6) 2 == 2
    then (do
      guard (leb 2 (length access_pdu)) network_decode_error
      ok (from_bytes_big (take 2 access_pdu), drop 2 access_pdu))
    else (do
      guard (leb 3 (length access_pdu)) network_decode_error
      ok (from_bytes_big (take 3 access_pdu), drop 3 access_pdu))

-- The opcodes that Mesh assigns: one byte below 0x7F, two bytes whose first has the top bits 10,
-- three bytes whose first has the top bits 11.
abbrev pub IsOpcode : ℕ → Type 0
IsOpcode opcode =
    (opcode < 0x80)
    ⊎ ((0x8000 ≤ opcode) × (opcode < 0xC000))
    ⊎ ((0xC00000 ≤ opcode) × (opcode < 0x1000000))

two_bytes :
    (opcode : ℕ) (parameters : Bytes)
    → 0x8000 ≤ opcode
    → opcode < 0xC000
    → (encode_opcode opcode ≡ ok (big_endian 2 opcode))
      × (decode_opcode (big_endian 2 opcode ++ parameters) ≡ ok (opcode, parameters))
unfolding encode_opcode decode_opcode
two_bytes opcode parameters lo hi =
    let e : from_bytes_big (big_endian 2 opcode) ≡ opcode = omega arith in
    (ground arith, ground (arith, e))

three_bytes :
    (opcode : ℕ) (parameters : Bytes)
    → 0xC00000 ≤ opcode
    → opcode < 0x1000000
    → (encode_opcode opcode ≡ ok (big_endian 3 opcode))
      × (decode_opcode (big_endian 3 opcode ++ parameters) ≡ ok (opcode, parameters))
unfolding encode_opcode decode_opcode
three_bytes opcode parameters lo hi =
    let e : from_bytes_big (big_endian 3 opcode) ≡ opcode = omega arith in
    (ground arith, ground (arith, e))

-- An assigned opcode is encoded, and is read back from the front of any access PDU, whose
-- parameters are what is left.
pub decode-encode_opcode :
    (opcode : ℕ) (parameters : Bytes)
    → IsOpcode opcode
    → (b : Bytes) × (encode_opcode opcode ≡ ok b)
      × (decode_opcode (b ++ parameters) ≡ ok (opcode, parameters))
unfolding encode_opcode decode_opcode
decode-encode_opcode opcode parameters (inl h) = (opcode ∷ [], ground arith, ground arith)
decode-encode_opcode opcode parameters (inr (inl h)) =
    let (e, d) = two_bytes opcode parameters h.0 h.1 in (big_endian 2 opcode, e, d)
decode-encode_opcode opcode parameters (inr (inr h)) =
    let (e, d) = three_bytes opcode parameters h.0 h.1 in (big_endian 3 opcode, e, d)

abbrev opcode_bytes : ℕ → Bytes
opcode_bytes opcode =
    if ltb opcode 0x80
    then opcode ∷ []
    else if ltb opcode 0x10000
    then big_endian 2 opcode
    else big_endian 3 opcode

-- Whatever is decoded from bytes is an assigned opcode, whose encoding is the front of the access
-- PDU, and the parameters are the rest.
pub encode-decode_opcode :
    (pdu : Bytes) (opcode : ℕ) (parameters : Bytes)
    → All IsByte pdu
    → decode_opcode pdu ≡ ok (opcode, parameters)
    → IsOpcode opcode × (b : Bytes) × (encode_opcode opcode ≡ ok b) × (pdu ≡ b ++ parameters)
unfolding encode_opcode decode_opcode
encode-decode_opcode [] opcode parameters h e = cc
encode-decode_opcode (x ∷ []) opcode parameters h e =
    (ground arith, opcode_bytes opcode, ground arith, ground arith)
encode-decode_opcode (x ∷ y ∷ []) opcode parameters h e =
    (ground arith, opcode_bytes opcode, ground arith, ground arith)
encode-decode_opcode (x ∷ y ∷ z ∷ rest) opcode parameters h e =
    (ground arith, opcode_bytes opcode, ground arith, ground arith)
