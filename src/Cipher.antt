-- ===== src/Cipher.antt =====
-- src/cipher.c and include/libce/cipher.h: the cipher interface, and AES-CBC with HMAC-SHA-256.
-- An `output` buffer is its contents, and a pointer into it an offset; SIZE_MAX is `none`.
pub mod RoundTrip
mod Runs
use libce.Base.{
  ℕ, zero, suc, ◌+◌, ◌-◌, ◌<◌, ◌≤◌, ◌≡◌, Bool, true, false, Option, none, some, List, [], ◌∷◌, ◌++◌,
  ltb, ◌==◌, ◌||◌, ◌&&◌, if◌then◌else◌,
}
use libce.Base.Lists.{length, take, drop}
use libce.Base.Bytes.{Bytes}
use libce.Memory.{is_equal}
use libce.Crypto.{
  Primitives, hmac_sha256, hkdf_sha256, aes_encrypt_cbc_length, aes_encrypt_cbc, aes_decrypt_cbc,
}

-- `_olm_cipher_ops`, with the cipher they are called on.
pub record Cipher : Type 0 where
  pub mac_length : ℕ
  pub encrypt_ciphertext_length : ℕ → ℕ
  -- key, plaintext, ciphertext_length, output, offset of the ciphertext in the output
  pub encrypt : Bytes → Bytes → ℕ → Bytes → ℕ → Option Bytes
  pub decrypt_max_plaintext_length : ℕ → ℕ
  -- key, input, ciphertext, max_plaintext_length
  pub decrypt : Bytes → Bytes → Bytes → ℕ → Option Bytes

-- What a cipher promises: it fills the ciphertext and the MAC behind it, and decryption with the
-- same key gives the plaintext back.
pub record IsCipher (c : Cipher) : Type 0 where
  pub seals :
      (key plaintext before region tail : Bytes)
      → length region ≡ c.encrypt_ciphertext_length (length plaintext)
      → length tail ≡ c.mac_length
      → (ciphertext mac : Bytes) × (c.encrypt key plaintext
            (length region)
            (before ++ (region ++ tail))
            (length before)
          ≡ some (before ++ (ciphertext ++ mac)))
        × (length ciphertext ≡ length region)
        × (length mac ≡ c.mac_length)
        × ((max_length : ℕ)
            → c.decrypt_max_plaintext_length (length ciphertext) ≤ max_length
            → c.decrypt key (before ++ (ciphertext ++ mac)) ciphertext max_length ≡ some plaintext)

-- `memcpy(buffer + at, bytes)`, inside the buffer.
unfoldable pub write_at : Bytes → ℕ → Bytes → Bytes
write_at buffer at bytes = take at buffer ++ (bytes ++ drop (length bytes) (drop at buffer))

pub record DerivedKeys : Type 0 where
  pub aes_key : Bytes
  pub mac_key : Bytes
  pub aes_iv : Bytes

abbrev pub cipher_mac_length : ℕ
cipher_mac_length = 8

module _ (p : Primitives) where
  unfoldable pub derive_keys : Bytes → Bytes → DerivedKeys
  derive_keys kdf_info key =
      let derived_secrets = hkdf_sha256 p key [] kdf_info 80 in
      record {
        aes_key = take 32 derived_secrets;
        mac_key = take 32 (drop 32 derived_secrets);
        aes_iv = take 16 (drop 64 derived_secrets);
      }

  unfoldable pub aes_sha_256_cipher_encrypt : Bytes → Bytes → Bytes → ℕ → Bytes → ℕ → Option Bytes
  aes_sha_256_cipher_encrypt kdf_info key plaintext ciphertext_length output ciphertext_at =
      let keys = derive_keys kdf_info key in
      let ciphertext = aes_encrypt_cbc p keys.aes_key keys.aes_iv plaintext in
      let output1 = write_at output ciphertext_at ciphertext in
      let signed = take (length output - cipher_mac_length) output1 in
      let mac = take cipher_mac_length (hmac_sha256 p keys.mac_key signed) in
      if ltb ciphertext_length (aes_encrypt_cbc_length (length plaintext))
        || ltb (length output) cipher_mac_length
      then none
      else some (write_at output1 (length output - cipher_mac_length) mac)

  unfoldable pub aes_sha_256_cipher_decrypt : Bytes → Bytes → Bytes → Bytes → ℕ → Option Bytes
  aes_sha_256_cipher_decrypt kdf_info key input ciphertext max_plaintext_length =
      let keys = derive_keys kdf_info key in
      let mac = hmac_sha256 p keys.mac_key (take (length input - cipher_mac_length) input) in
      let input_mac = drop (length input - cipher_mac_length) input in
      if ltb max_plaintext_length (length ciphertext) || ltb (length input) cipher_mac_length
      then none
      else if is_equal input_mac mac cipher_mac_length
      then aes_decrypt_cbc p keys.aes_key keys.aes_iv ciphertext
      else none

  -- `OLM_CIPHER_INIT_AES_SHA_256(KDF_INFO)`
  unfoldable pub aes_sha_256_cipher : Bytes → Cipher
  aes_sha_256_cipher kdf_info = record {
    mac_length = cipher_mac_length;
    encrypt_ciphertext_length = aes_encrypt_cbc_length;
    encrypt = aes_sha_256_cipher_encrypt kdf_info;
    decrypt_max_plaintext_length = λ n. n;
    decrypt = aes_sha_256_cipher_decrypt kdf_info;
  }
