-- ===== src/PickleEncoding/Runs.antt =====
-- A short pickle.
use libce.Base.{◌≡◌, some, [], ◌∷◌, arith}
use libce.Base.Lists.{length, replicate}
use libce.Base.Bytes.{Bytes}
use libce.Error.{success}
use libce.Base64.{encode_base64_length}
use libce.Crypto.{aes_encrypt_cbc_length}
use libce.Crypto.Example.{example_primitives, example-IsCbc, example-IsHmac, example-AreBytes}
use libce.Cipher.{aes_sha_256_cipher}
use libce.PickleEncoding.{enc_length, enc_output_length, enc_pickle, enc_input, pickle_cipher}
use libce.PickleEncoding.RoundTrip.{enc_input-enc_pickle}

abbrev raw_pickle : Bytes
raw_pickle = 1 ∷ 2 ∷ []

enc_input_example :
    (enc_input example_primitives
        (9 ∷ [])
        (enc_pickle example_primitives (9 ∷ []) (replicate 40 0) raw_pickle)
        success
      ≡ (some raw_pickle, success))
    × (length (enc_pickle example_primitives (9 ∷ []) (replicate 40 0) raw_pickle)
        ≡ enc_output_length example_primitives 2)
unfolding enc_output_length enc_length pickle_cipher aes_sha_256_cipher aes_encrypt_cbc_length
    encode_base64_length
enc_input_example =
    enc_input-enc_pickle example_primitives example-IsCbc example-IsHmac example-AreBytes (9 ∷ [])
      (replicate 40 0) raw_pickle success (omega arith, (omega arith, tt)) (omega arith)
      (omega arith)
