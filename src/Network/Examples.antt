-- ===== src/Network/Examples.antt =====
-- The network layer on concrete messages, segments and arrivals.
use ha_amaran_ble.Base.Bytes.{Bytes, to_bytes_big}
use ha_amaran_ble.Crypto.{network_nonce, obfuscation_ecb}
use ha_amaran_ble.Base.Dict.{get, put, remove}
use ha_amaran_ble.Network.Reassembler.{
  Pair, Reassembler, add, add_completed, add_known, add_new, add_to_pending, bitmap, completed_ack,
  contains, discard, insert_all, join_segments, prune, prune_entries, supersede, tracked_pairs,
}
use ha_amaran_ble.Base.{
  ◌≤◌, ◌≡◌, refl, false, List, [], ◌∷◌, ◌++◌, ok, length, replicate, arith, inl, inr,
}
use ha_amaran_ble.Crypto.Plain.{plain_cipher, plain_cipher-IsCipher}
use ha_amaran_ble.Network.{NetworkKeys, NetworkMessage, encode_network_pdu, decode_network_pdu}
use ha_amaran_ble.Network.RoundTrip.{IsEncodable, decode-encode, decode-encoded}
use ha_amaran_ble.Network.Opcodes.{encode_opcode, decode_opcode, decode-encode_opcode}
use ha_amaran_ble.Network.Segments.{AccessSegment, build_segment, parse_access_segment}
use ha_amaran_ble.Network.Segments.Parsed.{IsSegment, parse_access_segment-IsSegment}
use ha_amaran_ble.Network.Segments.RoundTrip.{IsBuildable, parse-build_segment}
use ha_amaran_ble.Network.Reassembler.Watermark.{
  watermark, Arrival, deliveries, RisesFrom, deliveries-RisesFrom,
}
use ha_amaran_ble.Network.Reassembler.Capacity.{IsBounded, add-IsBounded}

abbrev keys : NetworkKeys
keys = record { nid = 0x68; encryption_key = replicate 16 1; privacy_key = replicate 16 2 }

abbrev message : NetworkMessage
message = record {
  ctl = 1;
  ttl = 0;
  seq = 0x010203;
  src = 1;
  dst = 2;
  transport_pdu = 0 ∷ 1 ∷ 2 ∷ 3 ∷ [];
}

message-IsEncodable : IsEncodable false message
message-IsEncodable = record {
  ctl = omega arith;
  ttl = omega arith;
  seq = omega arith;
  src = omega arith;
  dst = inr (refl, omega arith);
  dst_fits = omega arith;
  payload = omega arith;
  control_payload = λ h. omega arith;
}

decode-encode_example :
    (pdu : Bytes) × (encode_network_pdu plain_cipher keys 7 false message ≡ ok pdu)
    × (decode_network_pdu plain_cipher keys 7 false pdu ≡ ok message)
    × (14 ≤ length pdu)
    × (length pdu ≤ 29)
decode-encode_example =
    decode-encode plain_cipher plain_cipher-IsCipher keys 7 false message message-IsEncodable
      (omega arith) (omega arith)

-- The bytes of the message above.
abbrev message_pdu : Bytes
message_pdu = 232 ∷ 128 ∷ 1 ∷ 2 ∷ 3 ∷ 0 ∷ 1 ∷ 0 ∷ 2 ∷ 0 ∷ 1 ∷ 2 ∷ 3 ∷ replicate 8 0

message_encoded : encode_network_pdu plain_cipher keys 7 false message ≡ ok message_pdu
unfolding encode_network_pdu network_nonce obfuscation_ecb to_bytes_big
message_encoded = refl

decode-encoded_example :
    IsEncodable false message
    × (decode_network_pdu plain_cipher keys 7 false message_pdu ≡ ok message)
decode-encoded_example =
    decode-encoded plain_cipher plain_cipher-IsCipher keys 7 false message message_pdu (omega arith)
      (omega arith) message_encoded

decode-encode_opcode_example :
    (b : Bytes) × (encode_opcode 0x8003 ≡ ok b)
    × (decode_opcode (b ++ (0 ∷ [])) ≡ ok (0x8003, 0 ∷ []))
decode-encode_opcode_example = decode-encode_opcode 0x8003 (0 ∷ []) (inr (inl (omega arith)))

three_octets : decode_opcode (0xC1 ∷ 0x02 ∷ 0x03 ∷ 0x04 ∷ []) ≡ ok (0xC10203, 0x04 ∷ [])
unfolding decode_opcode
three_octets = refl

-- Segment 1 of 2 of the transaction 0x012345, sent again 5 numbers later.
abbrev segment : AccessSegment
segment = record {
  akf = 1;
  aid = 0x26;
  szmic = 0;
  seq_zero = 0x0345;
  seg_o = 1;
  seg_n = 1;
  seq_auth = 0x012345;
  payload = 7 ∷ 8 ∷ 9 ∷ [];
}

segment-IsBuildable : IsBuildable segment
segment-IsBuildable = record {
  akf = omega arith;
  aid = omega arith;
  szmic = omega arith;
  offset = omega arith;
  count = omega arith;
  payload = omega arith;
  full = λ h. absurd (omega arith);
  zero_bits = refl;
}

parse-build_segment_example :
    (pdu : Bytes) × (build_segment 1 0x26 0 0x0345 1 1 (7 ∷ 8 ∷ 9 ∷ []) ≡ ok pdu)
    × (parse_access_segment 0x01234A pdu ≡ ok segment)
parse-build_segment_example =
    parse-build_segment segment 0x01234A segment-IsBuildable (omega arith) (omega arith)
      (omega arith)

segment_pdu :
    parse_access_segment 0x01234A (0xE6 ∷ 0x0D ∷ 0x14 ∷ 0x21 ∷ 7 ∷ 8 ∷ 9 ∷ []) ≡ ok segment
unfolding parse_access_segment
segment_pdu = refl

parse_access_segment-IsSegment_example : IsSegment 0x01234A segment
parse_access_segment-IsSegment_example =
    parse_access_segment-IsSegment 0x01234A (0xE6 ∷ 0x0D ∷ 0x14 ∷ 0x21 ∷ 7 ∷ 8 ∷ 9 ∷ []) segment
      segment_pdu

abbrev empty : Reassembler
empty = record {
  timeout = 10;
  max_pending = 32;
  max_completed = 64;
  pending = [];
  completed = [];
  discarded = [];
}

abbrev pair : Pair
pair = record { src = 2; dst = 1 }

abbrev first_segment : AccessSegment
first_segment = record segment { seg_o = 0; payload = replicate 12 5 }

abbrev arrivals : List Arrival
arrivals =
    record { pair = pair; seq = 0x012346; segment = segment; now = 1 }
    ∷ record { pair = pair; seq = 0x012347; segment = first_segment; now = 2 }
    ∷ record { pair = pair; seq = 0x012348; segment = segment; now = 3 }
    ∷ []

-- Out of order, and repeated: one delivery.
one_delivery : deliveries empty arrivals ≡ record { pair = pair; seq_auth = 0x012345 } ∷ []
unfolding deliveries add add_to_pending add_new add_known add_completed prune prune_entries discard
    get put remove bitmap supersede tracked_pairs contains insert_all join_segments completed_ack
one_delivery = refl

deliveries-RisesFrom_example : RisesFrom (watermark empty pair) pair (deliveries empty arrivals)
deliveries-RisesFrom_example = deliveries-RisesFrom empty arrivals pair

add-IsBounded_example : IsBounded 32 (add empty pair 0x012346 segment 1).1
add-IsBounded_example =
    add-IsBounded 32 empty pair 0x012346 segment 1 (record { limit = refl; held = omega arith })
