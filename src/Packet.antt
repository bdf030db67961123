-- ===== src/Packet.antt =====
-- Ten-byte command payloads (custom_components/amaran_ble/amaranble/highspeed.py, motion.py,
-- partition.py and steady_modes.py): the little-endian bit fields, the command and operation
-- bits and the checksum byte that the four codecs share. Each of them has its own copy of these
-- helpers; the copies that agree are one definition here.
pub mod Fields
pub mod Header
use ha_amaran_ble.Base.{
  ℕ, ◌+◌, ◌%◌, ◌^◌, Bool, true, false, not, ◌&&◌, ◌||◌, Option, none, some, List, [], ◌∷◌, Result,
  ok, err, guard, value_error, leb, ltb, ◌==◌, if◌then◌else◌, length, drop, get_or, bit_or, ◌>>=◌,
  ◌>>◌,
}
use ha_amaran_ble.Base.Bits.{shl, shr, low_bits}
use ha_amaran_ble.Base.Bytes.{Bytes, to_bytes_little, from_bytes_little, sum}

-- (value, start, width)
pub record Field : Type 0 where
  pub value : ℕ
  pub start : ℕ
  pub width : ℕ

abbrev pub field : ℕ → ℕ → ℕ → Field
field value start width = record { value = value; start = start; width = width }

-- (packet >> start) & ((1 << width) - 1)
unfoldable pub bits : ℕ → ℕ → ℕ → ℕ
bits packet start width = low_bits (shr packet start) width

-- for value, start, _ in fields: packet |= value << start
abbrev pub or_fields : ℕ → List Field → ℕ
or_fields packet [] = packet
or_fields packet (f ∷ fs) = or_fields (bit_or packet (shl f.value f.start)) fs

-- for value, start, width in fields: packet |= (value & ((1 << width) - 1)) << start
abbrev pub or_masked : ℕ → List Field → ℕ
or_masked packet [] = packet
or_masked packet (f ∷ fs) = or_masked (bit_or packet (shl (low_bits f.value f.width) f.start)) fs

-- `ValueError` unless the value has at most `width` bits.
unfoldable pub wire_value : ℕ → ℕ → Result ℕ
wire_value value width = guard (ltb value (2 ^ width)) value_error >> ok value

-- payload[0] = sum(payload[1:10]) & 0xFF
abbrev pub with_checksum : Bytes → Bytes
with_checksum [] = []
with_checksum (b ∷ bs) = sum bs % 256 ∷ bs

unfoldable pub finalize : ℕ → Result Bytes
finalize packet = do payload ← to_bytes_little 10 packet; ok (with_checksum payload)

-- The length, the checksum and the command, as every decoder tests them.
unfoldable pub has_header : Bytes → ℕ → Bool
has_header payload command =
    (length payload == 10)
    && (get_or payload 0 0 == sum (drop 1 payload) % 256)
    && (low_bits (get_or payload 9 0) 7 == command)

-- One of the enumerations with the two members 0 and 1: `ValueError` on anything else.
abbrev pub one_bit : ℕ → Result ℕ
one_bit value = guard (ltb value 2) value_error >> ok value
