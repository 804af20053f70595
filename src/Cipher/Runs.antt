-- ===== src/Cipher/Runs.antt =====
-- The cipher on a short plaintext.
use libce.Base.{◌≡◌, refl, some, [], ◌∷◌, ◌++◌, arith}
use libce.Base.Lists.{length, replicate}
use libce.Base.Bytes.{Bytes}
use libce.Crypto.Example.{example_primitives, example-IsCbc, example-IsHmac}
use libce.Cipher.{aes_sha_256_cipher_encrypt, aes_sha_256_cipher_decrypt}
use libce.Cipher.RoundTrip.{aes_sha_256_cipher_round_trip}

abbrev short_text : Bytes
short_text = 1 ∷ 2 ∷ []

aes_sha_256_cipher_example :
    (ciphertext mac : Bytes) × (aes_sha_256_cipher_encrypt example_primitives []
        (9 ∷ [])
        short_text
        16
        ((3 ∷ []) ++ (replicate 16 0 ++ replicate 8 0))
        1
      ≡ some ((3 ∷ []) ++ (ciphertext ++ mac)))
    × (length ciphertext ≡ 16)
    × (length mac ≡ 8)
    × (aes_sha_256_cipher_decrypt example_primitives []
          (9 ∷ [])
          ((3 ∷ []) ++ (ciphertext ++ mac))
          ciphertext
          16
        ≡ some short_text)
aes_sha_256_cipher_example =
    aes_sha_256_cipher_round_trip example_primitives example-IsCbc example-IsHmac [] (9 ∷ [])
      short_text (3 ∷ []) (replicate 16 0) (replicate 8 0) 16
      (unfold libce.Crypto.aes_encrypt_cbc_length in refl) refl (omega arith)
