-- ===== src/Proxy/Control/Parameters.antt =====
-- The parameters of the control messages (`_setup_filter` and `_send_segment_ack` of
-- custom_components/amaran_ble/amaranble/proxy.py).
use ha_amaran_ble.Base.{
  ℕ, ◌*◌, ◌<◌, ◌^◌, ◌≡◌, ◌∙◌, arith, Bool, true, false, ◌||◌, List, [], ◌∷◌, ◌++◌, Result, ok,
  ◌>>=◌, ◌==◌, if◌then◌else◌, truthy, guard, ◌>>◌, network_decode_error,
}
use ha_amaran_ble.Base.Bits.{shl, shr, low_bits}
use ha_amaran_ble.Base.Bytes.{
  Bytes, to_bytes_big, to_bytes_big_ok, big_endian, from_bytes_big, from_bytes_big-big_endian_two,
}
use ha_amaran_ble.Network.Segments.{SegmentAck, parse_segment_ack}

abbrev pub is_in : ℕ → List ℕ → Bool
is_in x [] = false
is_in x (y ∷ rest) = (x == y) || is_in x rest

-- `dict.fromkeys`: the first of equal addresses stays.
abbrev pub from_keys : List ℕ → List ℕ → List ℕ
from_keys seen [] = []
from_keys seen (address ∷ rest) =
    let more = from_keys (address ∷ seen) rest in
    if is_in address seen then more else address ∷ more

-- `b"".join(a.to_bytes(2, "big") for a in ...)`
abbrev pub address_bytes : List ℕ → Result Bytes
address_bytes [] = ok []
address_bytes (address ∷ rest) = do
  first ← to_bytes_big 2 address
  others ← address_bytes rest
  ok (first ++ others)

unfoldable pub ack_parameters : ℕ → ℕ → Result Bytes
ack_parameters seq_zero block_ack = do
  field ← to_bytes_big 2 (shl (low_bits seq_zero 13) 2)
  mask ← to_bytes_big 4 block_ack
  ok (field ++ mask)

from_bytes_big-big_endian_four : (x : ℕ) → x < 256 ^ 4 → from_bytes_big (big_endian 4 x) ≡ x
from_bytes_big-big_endian_four x h = omega arith

abbrev ack_of : ℕ → ℕ → SegmentAck
ack_of field mask = record {
  seq_zero = low_bits (shr field 2) 13;
  block_ack = mask;
  obo = truthy (shr field 15);
}

parsed_lem :
    (field mask seq_zero block_ack : ℕ)
    → field ≡ seq_zero * 4
    → mask ≡ block_ack
    → seq_zero < 0x2000
    → (guard (low_bits field 2 == 0) network_decode_error >> ok (ack_of field mask))
      ≡ ok (record { seq_zero = seq_zero; block_ack = block_ack; obo = false })
parsed_lem field mask seq_zero block_ack e f h =
    let aligned : (low_bits field 2 == 0) ≡ true = ground arith in
    let zero_field : low_bits (shr field 2) 13 ≡ seq_zero = omega arith in
    let own : truthy (shr field 15) ≡ false = ground arith in
    rw aligned (λ i. ok (record { seq_zero = zero_field i; block_ack = f i; obo = own i }))

-- The acknowledgement that is sent for a transaction reads back as its SeqZero and block mask, not
-- on behalf of another node.
pub parse-ack_parameters :
    (seq_zero block_ack : ℕ)
    → seq_zero < 0x2000
    → block_ack < 256 ^ 4
    → (params : Bytes) × (ack_parameters seq_zero block_ack ≡ ok params)
      × (parse_segment_ack params
          ≡ ok (record { seq_zero = seq_zero; block_ack = block_ack; obo = false }))
unfolding ack_parameters parse_segment_ack
parse-ack_parameters seq_zero block_ack h k =
    let shifted : shl (low_bits seq_zero 13) 2 ≡ seq_zero * 4 = omega arith in
    let field : shl (low_bits seq_zero 13) 2 < 256 ^ 2 = omega arith in
    (
      big_endian 2 (shl (low_bits seq_zero 13) 2) ++ big_endian 4 block_ack,
      rw (to_bytes_big_ok 2 (shl (low_bits seq_zero 13) 2) field, to_bytes_big_ok 4 block_ack k),
      parsed_lem _ _ seq_zero block_ack
          (from_bytes_big-big_endian_two (shl (low_bits seq_zero 13) 2) field ∙ shifted)
          (from_bytes_big-big_endian_four block_ack k) h,
    )
