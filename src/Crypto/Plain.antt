-- ===== src/Crypto/Plain.antt =====
-- A toy cipher that meets what Crypto assumes of the `cryptography` package, so that its hypotheses
-- can hold.
use ha_amaran_ble.Base.Bytes.{IsByte}
use ha_amaran_ble.Base.{
  ℕ, ◌+◌, ◌≡◌, refl, ap, ◌++◌, some, length, length-append, replicate, length-replicate,
  All-replicate, take, take_left, All-append, arith, ◌-◌, ◌∙◌,
}
use ha_amaran_ble.Crypto.{Cipher, IsCipher}

-- The plaintext with a MIC of zeros: enough for the shape of what the package returns.
abbrev pub plain_cipher : Cipher
plain_cipher = record {
  aes_ecb = λ key block. replicate 16 0;
  aes_ccm_encrypt = λ key nonce plaintext mic_len. plaintext ++ replicate mic_len 0;
  aes_ccm_decrypt = λ key nonce received mic_len. some (take (length received - mic_len) received);
}

pub plain_cipher-IsCipher : IsCipher plain_cipher
plain_cipher-IsCipher = record {
  block_length = λ key block. refl;
  block-IsByte = λ key block. All-replicate IsByte 16 0 (omega arith);
  length-encrypt = λ key nonce plaintext mic_len.
      length-append plaintext (replicate mic_len 0)
      ∙ ap (λ t. length plaintext + t) (length-replicate {A = ℕ} mic_len 0);
  encrypt-IsByte = λ key nonce plaintext mic_len h.
      All-append IsByte plaintext (replicate mic_len 0) h
        (All-replicate IsByte mic_len 0 (omega arith));
  decrypt-encrypt = λ key nonce plaintext mic_len.
      let e : length (plaintext ++ replicate mic_len 0) - mic_len ≡ length plaintext = omega (
        arith,
        length-append plaintext (replicate mic_len 0),
        length-replicate {A = ℕ} mic_len 0,
      ) in
      ap some (rw e (take_left plaintext (replicate mic_len 0)));
}
