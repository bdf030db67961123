-- ===== src/Crypto.antt =====
-- Nonces and header obfuscation (custom_components/amaran_ble/amaranble/crypto.py). AES itself is
-- the `cryptography` package's: the record `Cipher` holds the calls that the code makes of it.
pub mod Nonces
pub mod Derive
pub mod Plain
mod Examples
use ha_amaran_ble.Base.{
  ℕ, ◌+◌, ◌*◌, ◌%◌, ◌≤◌, ◌<◌, ◌≡◌, Option, none, some, List, [], ◌∷◌, ◌++◌, Result, ok, err, guard,
  bit_or, length, All, take, drop, replicate, ltb, value_error, ◌>>=◌, ◌>>◌,
}
use ha_amaran_ble.Base.Bits.{shl, low_bits}
use ha_amaran_ble.Base.Bytes.{Bytes, IsByte, to_bytes_big}

-- `encrypt key nonce plaintext mic_len` is AES-CCM's ciphertext with its MIC; `decrypt` answers
-- `none` where the package raises `InvalidTag`. `aes_ecb key block` is one AES block.
pub record Cipher : Type 0 where
  pub aes_ecb : Bytes → Bytes → Bytes
  pub aes_ccm_encrypt : Bytes → Bytes → Bytes → ℕ → Bytes
  pub aes_ccm_decrypt : Bytes → Bytes → Bytes → ℕ → Option Bytes

-- The documented behaviour of the package that the code relies on: a block is 16 bytes, AES-CCM
-- adds its MIC to the length, yields bytes, and decrypts what it encrypted.
pub record IsCipher (c : Cipher) : Type 0 where
  pub block_length : (key block : Bytes) → length (c.aes_ecb key block) ≡ 16
  pub block-IsByte : (key block : Bytes) → All IsByte (c.aes_ecb key block)
  pub length-encrypt :
      (key nonce plaintext : Bytes) (mic_len : ℕ)
      → length (c.aes_ccm_encrypt key nonce plaintext mic_len) ≡ length plaintext + mic_len
  pub encrypt-IsByte :
      (key nonce plaintext : Bytes) (mic_len : ℕ)
      → All IsByte plaintext
      → All IsByte (c.aes_ccm_encrypt key nonce plaintext mic_len)
  pub decrypt-encrypt :
      (key nonce plaintext : Bytes) (mic_len : ℕ)
      → c.aes_ccm_decrypt key nonce (c.aes_ccm_encrypt key nonce plaintext mic_len) mic_len
        ≡ some plaintext

abbrev pub nonce_network : ℕ
nonce_network = 0x00

abbrev pub nonce_application : ℕ
nonce_application = 0x01

abbrev pub nonce_device : ℕ
nonce_device = 0x02

abbrev pub nonce_proxy : ℕ
nonce_proxy = 0x03

-- bytes([...]) of one number: `ValueError` unless it is a byte.
abbrev pub byte : ℕ → Result Bytes
byte b = guard (ltb b 256) value_error >> ok (b ∷ [])

-- (ctl << 7) | (ttl & 0x7F)
abbrev pub ctl_ttl : ℕ → ℕ → ℕ
ctl_ttl ctl ttl = bit_or (shl ctl 7) (low_bits ttl 7)

unfoldable pub network_nonce : ℕ → ℕ → ℕ → ℕ → ℕ → Result Bytes
network_nonce ctl ttl seq src iv_index = do
  flags ← byte (ctl_ttl ctl ttl)
  seq_bytes ← to_bytes_big 3 seq
  src_bytes ← to_bytes_big 2 src
  iv_bytes ← to_bytes_big 4 iv_index
  ok ((nonce_network ∷ flags) ++ (seq_bytes ++ (src_bytes ++ (0 ∷ 0 ∷ iv_bytes))))

unfoldable pub proxy_nonce : ℕ → ℕ → ℕ → Result Bytes
proxy_nonce seq src iv_index = do
  seq_bytes ← to_bytes_big 3 seq
  src_bytes ← to_bytes_big 2 src
  iv_bytes ← to_bytes_big 4 iv_index
  ok ((nonce_proxy ∷ 0 ∷ []) ++ (seq_bytes ++ (src_bytes ++ (0 ∷ 0 ∷ iv_bytes))))

unfoldable pub transport_nonce : ℕ → ℕ → ℕ → ℕ → ℕ → ℕ → Result Bytes
transport_nonce nonce_type szmic seq src dst iv_index = do
  type_byte ← byte nonce_type
  seq_bytes ← to_bytes_big 3 seq
  src_bytes ← to_bytes_big 2 src
  dst_bytes ← to_bytes_big 2 dst
  iv_bytes ← to_bytes_big 4 iv_index
  ok (
      type_byte
      ++ (shl (low_bits szmic 1) 7 ∷ (seq_bytes ++ (src_bytes ++ (dst_bytes ++ iv_bytes)))))

-- The six bytes that mask the header.
unfoldable pub obfuscation_ecb : Cipher → Bytes → ℕ → Bytes → Result Bytes
obfuscation_ecb c privacy_key iv_index privacy_random = do
  iv_bytes ← to_bytes_big 4 iv_index
  ok (take 6 (c.aes_ecb privacy_key (replicate 5 0 ++ (iv_bytes ++ take 7 privacy_random))))
