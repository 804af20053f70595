-- ===== src/Crypto/Aes.antt =====
-- AES-CBC with padding: decryption after encryption.
use libce.Base.{
  ℕ, zero, suc, ◌+◌, ◌-◌, ◌%◌, ◌<◌, ◌≤◌, ◌≡◌, refl, ◌∙◌, some, [], ◌∷◌, ◌++◌, arith, ne→==_false,
  eq→==, le→ltb_false,
}
use libce.Base.Lists.{length, get_or, replicate, length-append, take-append}
use libce.Base.Bytes.{Bytes}
use libce.Crypto.{Primitives, aes_encrypt_cbc_length, aes_encrypt_cbc, aes_decrypt_cbc}

-- AES in CBC mode keeps the number of bytes of whole blocks, and decryption undoes encryption.
pub record IsCbc (p : Primitives) : Type 0 where
  pub length-cbcenc :
      (key iv input : Bytes) → length input % 16 ≡ 0 → length (p.cbcenc key iv input) ≡ length input
  pub cbcdec-cbcenc :
      (key iv input : Bytes)
      → length input % 16 ≡ 0
      → p.cbcdec key iv (p.cbcenc key iv input) ≡ input

length-replicate : (n a : ℕ) → length (replicate n a) ≡ n
length-replicate zero a = refl
length-replicate (suc n) a = omega (arith, length-replicate n a)

get_or-append_replicate :
    (xs : Bytes) (n a i : ℕ)
    → length xs ≤ i
    → i < length xs + n
    → get_or (xs ++ replicate n a) i 0 ≡ a
get_or-append_replicate [] zero a i h k = absurd (omega arith)
get_or-append_replicate [] (suc n) a zero h k = refl
get_or-append_replicate [] (suc n) a (suc i) h k =
    get_or-append_replicate [] n a i (omega arith) (omega arith)
get_or-append_replicate (x ∷ xs) n a zero h k = absurd (omega arith)
get_or-append_replicate (x ∷ xs) n a (suc i) h k =
    get_or-append_replicate xs n a i (omega arith) (omega arith)

-- The announced length is the next multiple of the block, never the input's own length.
pub aes_encrypt_cbc_length_bounds :
    (n : ℕ)
    → (aes_encrypt_cbc_length n % 16 ≡ 0)
      × (n < aes_encrypt_cbc_length n)
      × (aes_encrypt_cbc_length n ≤ n + 16)
unfolding aes_encrypt_cbc_length
aes_encrypt_cbc_length_bounds n = omega arith

module _ (p : Primitives) (cbc : IsCbc p) where
  length-padded :
      (input : Bytes) (a : ℕ)
      → length (input ++ replicate (aes_encrypt_cbc_length (length input) - length input) a)
        ≡ aes_encrypt_cbc_length (length input)
  length-padded input a = omega (
    arith,
    length-append input (replicate (aes_encrypt_cbc_length (length input) - length input) a),
    length-replicate (aes_encrypt_cbc_length (length input) - length input) a,
    aes_encrypt_cbc_length_bounds (length input),
  )

  pub length-aes_encrypt_cbc :
      (key iv input : Bytes)
      → length (aes_encrypt_cbc p key iv input) ≡ aes_encrypt_cbc_length (length input)
  unfolding aes_encrypt_cbc
  length-aes_encrypt_cbc key iv input =
      let fit = length-padded input (16 - length input % 16) in
      cbc.length-cbcenc key iv _ (rw fit (aes_encrypt_cbc_length_bounds (length input)).0) ∙ fit

  decrypted :
      (key iv input : Bytes)
      → p.cbcdec key iv (aes_encrypt_cbc p key iv input)
        ≡ input
          ++ replicate
              (aes_encrypt_cbc_length (length input) - length input)
              (16 - length input % 16)
  unfolding aes_encrypt_cbc
  decrypted key iv input = cbc.cbcdec-cbcenc key iv _ (
      rw (length-padded input (16 - length input % 16))
        (aes_encrypt_cbc_length_bounds (length input)).0)

  last_padding :
      (input : Bytes)
      → get_or
          (input
            ++ replicate
                (aes_encrypt_cbc_length (length input) - length input)
                (16 - length input % 16))
          (aes_encrypt_cbc_length (length input) - 1)
          0
        ≡ 16 - length input % 16
  last_padding input =
      let bounds = aes_encrypt_cbc_length_bounds (length input) in
      get_or-append_replicate input _ _ _ (omega (arith, bounds)) (omega (arith, bounds))

  padded_rest : (n : ℕ) → aes_encrypt_cbc_length n - (16 - n % 16) ≡ n
  unfolding aes_encrypt_cbc_length
  padded_rest n = omega arith

  -- Over a CBC that is undone on whole blocks, decryption with the same key and initialisation vector
  -- gives every plaintext back.
  pub aes_decrypt_cbc-aes_encrypt_cbc :
      (key iv input : Bytes)
      → aes_decrypt_cbc p key iv (aes_encrypt_cbc p key iv input) ≡ some input
  unfolding aes_decrypt_cbc
  aes_decrypt_cbc-aes_encrypt_cbc key iv input =
      let n = length input in
      let bounds = aes_encrypt_cbc_length_bounds n in
      rw
        (
          length-aes_encrypt_cbc key iv input,
          decrypted key iv input,
          last_padding input,
          ne→==_false (aes_encrypt_cbc_length n) 0 (omega (arith, bounds)),
          eq→== (aes_encrypt_cbc_length n % 16) 0 bounds.0,
          le→ltb_false (aes_encrypt_cbc_length n) (16 - n % 16) (omega (arith, bounds)),
          padded_rest n,
          take-append input,
        )
        refl
