-- ===== src/Pk.antt =====
-- src/pk.c: encryption to a public key, with its pickles, and signatures from a seed. Output buffers
-- are given by their lengths; a result is what the call writes at their front, `none` is SIZE_MAX.
pub mod Exchange
pub mod Unbound
mod Runs
use libce.Base.{
  ℕ, ◌+◌, ◌-◌, ◌^◌, Option, none, some, [], ◌∷◌, ◌⊎◌, inl, inr, Bool, false, ltb, ◌==◌, ◌||◌, not,
  if◌then◌else◌,
}
use libce.Base.Lists.{length, take, replicate}
use libce.Base.Bytes.{Bytes}
use libce.Error.{
  OlmErrorCode, success, code, not_enough_random, output_buffer_too_small, input_buffer_too_small,
  invalid_base64, bad_message_mac, unknown_pickle_version, corrupted_pickle, pickle_extra_data,
}
use libce.Base64.{encode_base64_length, encode_base64, decode_base64_length, decode_loop}
use libce.Pickle.{
  Curve25519PublicKey, Curve25519KeyPair, Ed25519KeyPair, pickle_uint32, unpickle_uint32,
  pickle_curve25519_key_pair_length, pickle_curve25519_key_pair, unpickle_curve25519_key_pair,
}
use libce.Crypto.{
  Primitives, hmac_sha256, aes_encrypt_cbc_length, aes_encrypt_cbc, curve25519_generate_key,
  curve25519_shared_secret, ed25519_generate_key, ed25519_sign,
}
use libce.Cipher.{Cipher, aes_sha_256_cipher, derive_keys, write_at, cipher_mac_length}
use libce.PickleEncoding.{enc_output_length, enc_pickle, enc_input}

pub record PkEncryption : Type 0 where
  pub last_error : OlmErrorCode
  pub recipient_key : Curve25519PublicKey

pub record PkDecryption : Type 0 where
  pub last_error : OlmErrorCode
  pub key_pair : Curve25519KeyPair

pub record PkSigning : Type 0 where
  pub last_error : OlmErrorCode
  pub key_pair : Ed25519KeyPair

-- The three outputs of `olm_pk_encrypt`, in base64.
pub record PkMessage : Type 0 where
  pub ciphertext : Bytes
  pub mac : Bytes
  pub ephemeral_key : Bytes

-- The objects after `_olm_unset`.
abbrev pub clear_pk_encryption : PkEncryption
clear_pk_encryption = record {
  last_error = success;
  recipient_key = record { public_key = replicate 32 0 };
}

abbrev pub clear_pk_decryption : PkDecryption
clear_pk_decryption = record {
  last_error = success;
  key_pair = record { public_key = replicate 32 0; private_key = replicate 32 0 };
}

abbrev pub clear_pk_signing : PkSigning
clear_pk_signing = record {
  last_error = success;
  key_pair = record { public_key = replicate 32 0; private_key = replicate 64 0 };
}

abbrev pub pk_decryption_pickle_version : ℕ
pk_decryption_pickle_version = 1

abbrev pub pk_private_key_length : ℕ
pk_private_key_length = 32

-- The lengths in base64 of a public key, a MAC and a ciphertext.
unfoldable pub pk_key_length : ℕ
pk_key_length = encode_base64_length 32

unfoldable pub pk_mac_length : ℕ
pk_mac_length = encode_base64_length cipher_mac_length

unfoldable pub pk_ciphertext_length : ℕ → ℕ
pk_ciphertext_length plaintext_length =
    encode_base64_length (aes_encrypt_cbc_length plaintext_length)

-- What `_olm_decode_base64_length` refuses is SIZE_MAX here.
unfoldable pub pk_max_plaintext_length : ℕ → ℕ
pk_max_plaintext_length ciphertext_length = bound (decode_base64_length ciphertext_length)
  where
    bound : Option ℕ → ℕ
    bound none = 2 ^ 64 - 1
    bound (some raw_length) = raw_length

unfoldable pub pk_encryption_set_recipient_key : PkEncryption → Bytes → Option ℕ × PkEncryption
pk_encryption_set_recipient_key encryption key =
    if ltb (length key) pk_key_length
    then (none, record encryption { last_error = input_buffer_too_small })
    else (
      some 0,
      record encryption {
        recipient_key = record { public_key = decode_loop (take pk_key_length key) };
      },
    )

unfoldable pub raw_pickle_length : PkDecryption → ℕ
raw_pickle_length decryption = 4 + pickle_curve25519_key_pair_length decryption.key_pair

unfoldable pub pickle_pk_decryption : PkDecryption → Bytes
pickle_pk_decryption decryption =
    pickle_curve25519_key_pair (pickle_uint32 [] pk_decryption_pickle_version) decryption.key_pair

-- The error of an earlier call stays.
unfoldable pub corrupted_pk_pickle : PkDecryption → OlmErrorCode
corrupted_pk_pickle decryption =
    if code decryption.last_error == code success then corrupted_pickle else decryption.last_error

-- The fields from the raw pickle; `inl` is the error code of a failure. What a failure leaves of the
-- key pair is not modelled.
unfoldable pub unpickle_pk_key :
    PkDecryption → Option (Curve25519KeyPair × Bytes) → OlmErrorCode ⊎ PkDecryption
unpickle_pk_key decryption none = inl (corrupted_pk_pickle decryption)
unpickle_pk_key decryption (some (key, [])) = inr (record decryption { key_pair = key })
unpickle_pk_key decryption (some (key, b ∷ rest)) = inl pickle_extra_data

unfoldable pub unpickle_pk_version : PkDecryption → Option (ℕ × Bytes) → OlmErrorCode ⊎ PkDecryption
unpickle_pk_version decryption none = inl (corrupted_pk_pickle decryption)
unpickle_pk_version decryption (some (version, pos)) =
    if not (version == pk_decryption_pickle_version)
    then inl unknown_pickle_version
    else unpickle_pk_key decryption (unpickle_curve25519_key_pair (some pos))

unfoldable pub unpickle_pk_raw :
    PkDecryption → Option Bytes × OlmErrorCode → OlmErrorCode ⊎ PkDecryption
unpickle_pk_raw decryption (none, error) = inl error
unpickle_pk_raw decryption (some raw, error) =
    unpickle_pk_version decryption (unpickle_uint32 (some raw))

-- `pubkey` is the length of the buffer for the public key, or `none` where it is NULL.
unfoldable pub pubkey_too_small : Option ℕ → Bool
pubkey_too_small none = false
pubkey_too_small (some pubkey_length) = ltb pubkey_length pk_key_length

-- The public key in base64, where it is asked for.
unfoldable pub written_pubkey : Option ℕ → PkDecryption → Option Bytes
written_pubkey none decryption = none
written_pubkey (some pubkey_length) decryption = some (encode_base64 decryption.key_pair.public_key)

unfoldable pub with_pubkey :
    Option ℕ → OlmErrorCode ⊎ PkDecryption → OlmErrorCode ⊎ (PkDecryption × Option Bytes)
with_pubkey pubkey (inl error) = inl error
with_pubkey pubkey (inr decryption) = inr (decryption, written_pubkey pubkey decryption)

-- The result of the cipher, with the error code that a failure leaves.
unfoldable pub conclude_pk_decrypt : PkDecryption → Option Bytes → Option Bytes × PkDecryption
conclude_pk_decrypt decryption none = (none, record decryption { last_error = bad_message_mac })
conclude_pk_decrypt decryption (some plaintext) = (some plaintext, decryption)

unfoldable pub pk_get_private_key : PkDecryption → ℕ → Option Bytes × PkDecryption
pk_get_private_key decryption private_key_length =
    if ltb private_key_length pk_private_key_length
    then (none, record decryption { last_error = output_buffer_too_small })
    else (some decryption.key_pair.private_key, decryption)

module _ (p : Primitives) where
  unfoldable pub pk_cipher : Cipher
  pk_cipher = aes_sha_256_cipher p []

  -- `encrypt` of the cipher where the ciphertext is a buffer of its own: both, or SIZE_MAX.
  unfoldable pub encrypt_apart : Bytes → Bytes → ℕ → Bytes → Option (Bytes × Bytes)
  encrypt_apart key plaintext ciphertext_length output =
      let keys = derive_keys p [] key in
      let ciphertext = aes_encrypt_cbc p keys.aes_key keys.aes_iv plaintext in
      let at = length output - cipher_mac_length in
      let mac = take cipher_mac_length (hmac_sha256 p keys.mac_key (take at output)) in
      if ltb ciphertext_length (aes_encrypt_cbc_length (length plaintext))
        || ltb (length output) cipher_mac_length
      then none
      else some (ciphertext, write_at output at mac)

  -- What is written after the cipher's result. Without one only the ephemeral key has been written.
  unfoldable pub conclude_pk_encrypt :
      PkEncryption → Bytes → Option (Bytes × Bytes) → Option PkMessage × PkEncryption
  conclude_pk_encrypt encryption ephemeral_key none = (none, encryption)
  conclude_pk_encrypt encryption ephemeral_key (some (ciphertext, raw_mac)) = (
    some (record {
      ciphertext = encode_base64 ciphertext;
      mac = encode_base64 raw_mac;
      ephemeral_key = ephemeral_key;
    }),
    encryption,
  )

  -- `raw_mac` is the array on the stack, before the call.
  unfoldable pub pk_encrypt :
      PkEncryption → Bytes → ℕ → ℕ → ℕ → Bytes → Bytes → Option PkMessage × PkEncryption
  pk_encrypt encryption plaintext ciphertext_length mac_length ephemeral_key_size random raw_mac =
      let ephemeral_keypair = curve25519_generate_key p random in
      let secret = curve25519_shared_secret p ephemeral_keypair encryption.recipient_key in
      if ltb ciphertext_length (pk_ciphertext_length (length plaintext))
        || (ltb mac_length pk_mac_length || ltb ephemeral_key_size pk_key_length)
      then (none, record encryption { last_error = output_buffer_too_small })
      else if ltb (length random) 32
      then (none, record encryption { last_error = not_enough_random })
      else conclude_pk_encrypt encryption (encode_base64 ephemeral_keypair.public_key)
          (encrypt_apart secret plaintext (aes_encrypt_cbc_length (length plaintext)) raw_mac)

  -- The public key in base64 is the output.
  unfoldable pub pk_key_from_private : PkDecryption → ℕ → Bytes → Option Bytes × PkDecryption
  pk_key_from_private decryption pubkey_length privkey =
      let key_pair = curve25519_generate_key p privkey in
      if ltb pubkey_length pk_key_length
      then (none, record decryption { last_error = output_buffer_too_small })
      else if ltb (length privkey) pk_private_key_length
      then (none, record decryption { last_error = input_buffer_too_small })
      else (some (encode_base64 key_pair.public_key), record decryption { key_pair = key_pair })

  unfoldable pub pickle_pk_decryption_sealed :
      PkDecryption → Bytes → Bytes → Option Bytes × PkDecryption
  pickle_pk_decryption_sealed decryption key output =
      if ltb (length output) (enc_output_length p (raw_pickle_length decryption))
      then (none, record decryption { last_error = output_buffer_too_small })
      else (some (enc_pickle p key output (pickle_pk_decryption decryption)), decryption)

  unfoldable pub unpickle_pk_decryption :
      PkDecryption → Bytes → Bytes → Option ℕ → OlmErrorCode ⊎ (PkDecryption × Option Bytes)
  unpickle_pk_decryption decryption key pickled pubkey =
      if pubkey_too_small pubkey
      then inl output_buffer_too_small
      else with_pubkey pubkey
          (unpickle_pk_raw decryption (enc_input p key pickled decryption.last_error))

  -- The secret of our key and a decoded ephemeral key.
  unfoldable pub pk_secret : PkDecryption → Bytes → Bytes
  pk_secret decryption ephemeral_key =
      curve25519_shared_secret p decryption.key_pair
        (record { public_key = decode_loop ephemeral_key })

  -- From the raw length of the ciphertext on.
  unfoldable pub pk_decrypt_sized :
      PkDecryption → Bytes → Bytes → Bytes → ℕ → Option ℕ → Option Bytes × PkDecryption
  pk_decrypt_sized decryption ephemeral_key mac ciphertext max_plaintext_length none =
      (none, record decryption { last_error = invalid_base64 })
  pk_decrypt_sized decryption ephemeral_key mac ciphertext max_plaintext_length (some raw_length) =
      if not (length ephemeral_key == pk_key_length) || not (length mac == pk_mac_length)
      then (none, record decryption { last_error = invalid_base64 })
      else conclude_pk_decrypt decryption (
          pk_cipher.decrypt (pk_secret decryption ephemeral_key) (decode_loop mac)
            (decode_loop ciphertext) max_plaintext_length)

  unfoldable pub pk_decrypt : PkDecryption → Bytes → Bytes → Bytes → ℕ → Option Bytes × PkDecryption
  pk_decrypt decryption ephemeral_key mac ciphertext max_plaintext_length =
      if ltb max_plaintext_length (pk_max_plaintext_length (length ciphertext))
      then (none, record decryption { last_error = output_buffer_too_small })
      else pk_decrypt_sized decryption ephemeral_key mac ciphertext max_plaintext_length
          (decode_base64_length (length ciphertext))

  unfoldable pub pk_signing_key_from_seed : PkSigning → ℕ → Bytes → Option Bytes × PkSigning
  pk_signing_key_from_seed signing pubkey_length seed =
      let key_pair = ed25519_generate_key p seed in
      if ltb pubkey_length (encode_base64_length 32)
      then (none, record signing { last_error = output_buffer_too_small })
      else if ltb (length seed) 32
      then (none, record signing { last_error = input_buffer_too_small })
      else (some (encode_base64 key_pair.public_key), record signing { key_pair = key_pair })

  unfoldable pub pk_sign : PkSigning → Bytes → ℕ → Option Bytes × PkSigning
  pk_sign signing message signature_length =
      if ltb signature_length (encode_base64_length 64)
      then (none, record signing { last_error = output_buffer_too_small })
      else (some (encode_base64 (ed25519_sign p signing.key_pair message)), signing)
