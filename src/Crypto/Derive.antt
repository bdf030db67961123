-- ===== src/Crypto/Derive.antt =====
-- Key derivation (custom_components/amaran_ble/amaranble/crypto.py, `s1` and `k1` to `k4`), over
-- the `cryptography` package's AES-CMAC, which is a parameter.
use ha_amaran_ble.Base.{ℕ, [], ◌∷◌, ◌++◌, get_or, drop, replicate}
use ha_amaran_ble.Base.Bits.{low_bits}
use ha_amaran_ble.Base.Bytes.{Bytes}

abbrev zero16 : Bytes
zero16 = replicate 16 0

module _ (aes_cmac : Bytes → Bytes → Bytes) where
  unfoldable pub s1 : Bytes → Bytes
  s1 m = aes_cmac zero16 m

  unfoldable pub k1 : Bytes → Bytes → Bytes → Bytes
  k1 n salt p = aes_cmac (aes_cmac salt n) p

  -- `p` is b"\x00" for the material that the program uses; the salt is of b"smk2".
  unfoldable pub k2 : Bytes → Bytes → ℕ × Bytes × Bytes
  k2 n p =
      let t = aes_cmac (s1 (0x73 ∷ 0x6D ∷ 0x6B ∷ 0x32 ∷ [])) n in
      let t1 = aes_cmac t (p ++ (0x01 ∷ [])) in
      let t2 = aes_cmac t (t1 ++ (p ++ (0x02 ∷ []))) in
      let t3 = aes_cmac t (t2 ++ (p ++ (0x03 ∷ []))) in (low_bits (get_or t1 15 0) 7, t2, t3)

  -- b"smk3" and b"id64\x01"
  unfoldable pub k3 : Bytes → Bytes
  k3 n =
      let t = aes_cmac (s1 (0x73 ∷ 0x6D ∷ 0x6B ∷ 0x33 ∷ [])) n in
      drop 8 (aes_cmac t (0x69 ∷ 0x64 ∷ 0x36 ∷ 0x34 ∷ 0x01 ∷ []))

  -- b"smk4" and b"id6\x01"
  unfoldable pub k4 : Bytes → ℕ
  k4 n =
      let t = aes_cmac (s1 (0x73 ∷ 0x6D ∷ 0x6B ∷ 0x34 ∷ [])) n in
      low_bits (get_or (aes_cmac t (0x69 ∷ 0x64 ∷ 0x36 ∷ 0x01 ∷ [])) 15 0) 6
