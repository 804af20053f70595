-- ===== src/PickleEncoding.antt =====
-- src/pickle_encoding.c: pickles sealed with a key and written in base64. The work is done inside the
-- output buffer; `output` is the buffer before the call, and a result what the call leaves in it.
pub mod RoundTrip
mod Runs
use libce.Base.{ℕ, ◌+◌, ◌-◌, ◌%◌, ◌^◌, Option, none, some, List, [], ◌∷◌}
use libce.Base.Lists.{length, take, drop}
use libce.Base.Bytes.{Bytes}
use libce.Error.{OlmErrorCode, invalid_base64, bad_account_key}
use libce.Base64.{encode_base64_length, encode_base64, decode_base64}
use libce.Crypto.{Primitives}
use libce.Cipher.{Cipher, aes_sha_256_cipher, write_at}
use libce.Ratchet.Encrypt.{output_after}

-- "Pickle"
abbrev pub pickle_kdf_info : Bytes
pickle_kdf_info = 0x50 ∷ 0x69 ∷ 0x63 ∷ 0x6b ∷ 0x6c ∷ 0x65 ∷ []

module _ (p : Primitives) where
  unfoldable pub pickle_cipher : Cipher
  pickle_cipher = aes_sha_256_cipher p pickle_kdf_info

  -- The bytes that are encoded: the ciphertext and the MAC.
  unfoldable pub enc_length : ℕ → ℕ
  enc_length raw_length =
      pickle_cipher.encrypt_ciphertext_length raw_length + pickle_cipher.mac_length

  unfoldable pub enc_output_length : ℕ → ℕ
  enc_output_length raw_length = encode_base64_length (enc_length raw_length)

  -- Where in the output the raw pickle is written, counted from its start.
  unfoldable pub enc_output_pos : ℕ → ℕ
  enc_output_pos raw_length = encode_base64_length (enc_length raw_length) - enc_length raw_length

  -- The ciphertext takes the place of the raw pickle, and the base64 that of both.
  unfoldable pub enc_output : Bytes → Bytes → ℕ → Bytes
  enc_output key output raw_length =
      let ciphertext_length = pickle_cipher.encrypt_ciphertext_length raw_length in
      let size = ciphertext_length + pickle_cipher.mac_length in
      let base64_length = encode_base64_length size in
      let raw_output = take size (drop (base64_length - size) output) in
      encode_base64 (
        output_after raw_output
          (pickle_cipher.encrypt key (take raw_length raw_output) ciphertext_length raw_output 0))

  -- What the callers do: write the pickle at `enc_output_pos`, then seal it.
  unfoldable pub enc_pickle : Bytes → Bytes → Bytes → Bytes
  enc_pickle key output raw =
      enc_output key (write_at output (enc_output_pos (length raw)) raw) (length raw)

  -- The raw length wraps in a `size_t`, and the decryption then refuses the input.
  unfoldable pub enc_decrypt : Bytes → ℕ → Bytes → Option Bytes
  enc_decrypt key enc_size input =
      let raw_length = (enc_size + 2 ^ 64 - pickle_cipher.mac_length) % 2 ^ 64 in
      pickle_cipher.decrypt key input (take raw_length input) raw_length

  -- The plaintext with the error code that the caller is left with.
  unfoldable pub enc_opened : OlmErrorCode → Option Bytes → Option Bytes × OlmErrorCode
  enc_opened last_error none = (none, bad_account_key)
  enc_opened last_error (some raw) = (some raw, last_error)

  unfoldable pub enc_decoded :
      Bytes → OlmErrorCode → Option (ℕ × Bytes) → Option Bytes × OlmErrorCode
  enc_decoded key last_error none = (none, invalid_base64)
  enc_decoded key last_error (some (enc_size, input)) =
      enc_opened last_error (enc_decrypt key enc_size input)

  unfoldable pub enc_input : Bytes → Bytes → OlmErrorCode → Option Bytes × OlmErrorCode
  enc_input key input last_error = enc_decoded key last_error (decode_base64 input)
