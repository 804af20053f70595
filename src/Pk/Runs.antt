-- ===== src/Pk/Runs.antt =====
-- Public-key encryption on a short plaintext.
use libce.Base.{ℕ, ◌≡◌, ap, some, [], ◌∷◌, arith, refl}
use libce.Base.Lists.{replicate}
use libce.Base.Bytes.{Bytes}
use libce.Base64.{encode_base64, decode_loop}
use libce.Crypto.{curve25519_generate_key, aes_decrypt_cbc}
use libce.Crypto.Example.{
  example_primitives, example-IsCbc, example-IsHmac, example-AreBytes, example-IsX25519,
  example-ArePublicBytes,
}
use libce.Cipher.{derive_keys}
use libce.Pk.{
  PkEncryption, PkDecryption, PkMessage, clear_pk_encryption, clear_pk_decryption,
  pk_key_from_private, pk_encryption_set_recipient_key, pk_encrypt, pk_decrypt, pk_secret,
  conclude_pk_decrypt, pk_key_length, pk_mac_length, pk_ciphertext_length,
}
use libce.Pk.Exchange.{pk_sealed, pk_mac, pk_decrypt-opens, pk_decrypt-pk_encrypt}
use libce.Pk.Unbound.{pk_decrypt-unbound}

abbrev short_text : Bytes
short_text = 1 ∷ 2 ∷ []

abbrev scalar : ℕ → Bytes
scalar n = replicate 32 n

pk_decrypt-pk_encrypt_example :
    (pubkey : Bytes) × (holder : PkDecryption) × (sender : PkEncryption) × (m : PkMessage)
    × (pk_key_from_private example_primitives clear_pk_decryption 43 (scalar 5)
        ≡ (some pubkey, holder))
    × (pk_encryption_set_recipient_key clear_pk_encryption pubkey ≡ (some 0, sender))
    × (pk_encrypt example_primitives sender short_text 30 11 43 (scalar 9) (replicate 8 0)
        ≡ (some m, sender))
    × (pk_decrypt example_primitives holder m.ephemeral_key m.mac m.ciphertext 16
        ≡ (some short_text, holder))
unfolding pk_key_length pk_mac_length pk_ciphertext_length libce.Base64.encode_base64_length
    libce.Crypto.aes_encrypt_cbc_length
pk_decrypt-pk_encrypt_example =
    pk_decrypt-pk_encrypt example_primitives example-IsCbc example-IsHmac example-AreBytes
      example-IsX25519 example-ArePublicBytes clear_pk_decryption clear_pk_encryption (scalar 5)
      short_text (scalar 9) (replicate 8 0) 43 30 11 43 16 (omega arith) (omega arith)
      (omega arith, (omega arith, tt)) (omega arith) (omega arith) (omega arith) (omega arith) refl
      (omega arith)

-- The key of a message to the cleared key pair, its ephemeral key and its MAC.
abbrev ephemeral : Bytes
ephemeral = example_primitives.scalarmult_curve25519_base (scalar 9)

abbrev message_key : Bytes
message_key = example_primitives.scalarmult_curve25519 (scalar 0) ephemeral

abbrev message_mac : Bytes
message_mac = encode_base64 (pk_mac example_primitives example-IsCbc example-IsHmac message_key)

pk_decrypt-unbound_example :
    pk_decrypt example_primitives clear_pk_decryption
      (encode_base64 ephemeral)
      message_mac
      (replicate 22 65)
      16
    ≡ conclude_pk_decrypt clear_pk_decryption (
        aes_decrypt_cbc example_primitives
          (derive_keys example_primitives []
            (pk_secret example_primitives clear_pk_decryption (encode_base64 ephemeral))).aes_key
          (derive_keys example_primitives []
            (pk_secret example_primitives clear_pk_decryption (encode_base64 ephemeral))).aes_iv
          (decode_loop (replicate 22 65)))
unfolding libce.Crypto.aes_encrypt_cbc_length
pk_decrypt-unbound_example =
    pk_decrypt-unbound example_primitives clear_pk_decryption (encode_base64 ephemeral) message_mac
      (encode_base64
        (pk_sealed example_primitives example-IsCbc example-IsHmac message_key short_text))
      (replicate 22 65) short_text 16 16
      (ap (λ r. r.0)
        (pk_decrypt-opens example_primitives example-IsCbc example-IsHmac example-AreBytes
          example-IsX25519 example-ArePublicBytes clear_pk_decryption (scalar 9) short_text 16
          (omega arith, (omega arith, tt)) (omega arith)))
      (omega arith) (omega arith)
