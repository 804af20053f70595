-- ===== src/Crypto/Runs.antt =====
-- Crypto on concrete bytes.
use libce.Base.{◌≡◌, [], ◌∷◌, some}
use libce.Base.Bytes.{Bytes}
use libce.Crypto.{aes_encrypt_cbc, aes_decrypt_cbc}
use libce.Crypto.Aes.{aes_decrypt_cbc-aes_encrypt_cbc}
use libce.Crypto.Example.{example_primitives, example-IsCbc}

abbrev three_bytes : Bytes
three_bytes = 104 ∷ 105 ∷ 33 ∷ []

aes_decrypt_cbc_example :
    aes_decrypt_cbc example_primitives [] [] (aes_encrypt_cbc example_primitives [] [] three_bytes)
    ≡ some three_bytes
aes_decrypt_cbc_example =
    aes_decrypt_cbc-aes_encrypt_cbc example_primitives example-IsCbc [] [] three_bytes
