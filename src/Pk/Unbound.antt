-- ===== src/Pk/Unbound.antt =====
-- What the MAC of `olm_pk_encrypt` covers.
use libce.Base.{
  ℕ, ◌*◌, ◌/◌, ◌%◌, ◌≤◌, ◌≡◌, ◌≢◌, refl, ap, ◌∙◌, true, Option, Bool-cases, inl, inr, ne→==_false,
  some, none, [], arith, ltb, le→ltb_false, eq→==,
}
use libce.Base.Lists.{length}
use native.Mathlib.Decide.{ℕ_discrete}
use libce.Base.Bytes.{Bytes}
use libce.Memory.{is_equal}
use libce.Base64.{decode_loop, decode_base64_length}
use libce.Base64.RoundTrip.{length-decode_loop}
use libce.Crypto.{Primitives, hmac_sha256, aes_decrypt_cbc}
use libce.Cipher.{derive_keys, aes_sha_256_cipher, aes_sha_256_cipher_decrypt}
use libce.Pk.{
  PkDecryption, pk_cipher, pk_key_length, pk_mac_length, pk_max_plaintext_length, pk_secret,
  conclude_pk_decrypt, pk_decrypt_sized, pk_decrypt,
}

module _ (p : Primitives) (decryption : PkDecryption) (ephemeral_key mac : Bytes) where
  -- Both texts have their lengths, and the MAC is the front of the HMAC of nothing.
  IsAccepted : Type 0
  IsAccepted =
      (length ephemeral_key ≡ pk_key_length)
      × (length mac ≡ pk_mac_length)
      × (is_equal (decode_loop mac)
            (hmac_sha256 p (derive_keys p [] (pk_secret p decryption ephemeral_key)).mac_key []) 8
          ≡ true)

  length-raw_mac : length mac ≡ pk_mac_length → length (decode_loop mac) ≡ 8
  unfolding pk_mac_length libce.Base64.encode_base64_length
  length-raw_mac h = length-decode_loop mac (rw h (omega arith)) ∙ rw h refl

  opened :
      (secret raw_mac ciphertext : Bytes) (max_length : ℕ) (text : Bytes)
      → length raw_mac ≡ 8
      → (pk_cipher p).decrypt secret raw_mac ciphertext max_length ≡ some text
      → is_equal raw_mac (hmac_sha256 p (derive_keys p [] secret).mac_key []) 8 ≡ true
  unfolding pk_cipher aes_sha_256_cipher aes_sha_256_cipher_decrypt
  opened secret raw_mac ciphertext max_length text hm =
      let expected = hmac_sha256 p (derive_keys p [] secret).mac_key [] in
      elim (Bool-cases (ltb max_length (length ciphertext))) [
        | inl e ↦ rw e (λ h. absurd (cc))
        | inr e ↦
            rw (e, hm)
              (elim (Bool-cases (is_equal raw_mac expected 8)) [
                | inl same ↦ λ h. same
                | inr differs ↦ rw differs (λ h. absurd (cc))
              ])
      ]

  concluded :
      (result : Option Bytes) (text : Bytes)
      → (conclude_pk_decrypt decryption result).0 ≡ some text
      → result ≡ some text
  unfolding conclude_pk_decrypt
  concluded none text h = h
  concluded (some t) text h = h

  sized-IsAccepted :
      (ciphertext : Bytes) (max_length : ℕ) (size : Option ℕ) (text : Bytes)
      → (pk_decrypt_sized p decryption ephemeral_key mac ciphertext max_length size).0 ≡ some text
      → IsAccepted
  unfolding pk_decrypt_sized IsAccepted
  sized-IsAccepted ciphertext max_length none text = λ h. absurd (cc)
  sized-IsAccepted ciphertext max_length (some size) text =
      let secret = pk_secret p decryption ephemeral_key in
      elim (ℕ_discrete (length ephemeral_key) pk_key_length) [
        | no e ↦ rw (ne→==_false (length ephemeral_key) pk_key_length e) (λ h. absurd (cc))
        | yes e ↦
            rw (eq→== (length ephemeral_key) pk_key_length e)
              (elim (ℕ_discrete (length mac) pk_mac_length) [
                | no m ↦ rw (ne→==_false (length mac) pk_mac_length m) (λ h. absurd (cc))
                | yes m ↦ rw (eq→== (length mac) pk_mac_length m) (λ h. (
                  e,
                  m,
                  opened secret (decode_loop mac) (decode_loop ciphertext) max_length text
                      (length-raw_mac m) (concluded _ text h),
                ))
              ])
      ]

  decrypt-IsAccepted :
      (ciphertext : Bytes) (max_length : ℕ) (text : Bytes)
      → (pk_decrypt p decryption ephemeral_key mac ciphertext max_length).0 ≡ some text
      → IsAccepted
  unfolding pk_decrypt
  decrypt-IsAccepted ciphertext max_length text =
      elim (Bool-cases (ltb max_length (pk_max_plaintext_length (length ciphertext)))) [
        | inl e ↦ rw e (λ h. absurd (cc))
        | inr e ↦ rw e (sized-IsAccepted ciphertext max_length _ text)
      ]

  decoded_size : (n : ℕ) → n % 4 ≢ 1 → decode_base64_length n ≡ some (n * 3 / 4)
  unfolding decode_base64_length
  decoded_size n h = rw (ne→==_false (n % 4) 1 h) (ap some (omega arith))

  accepted-opens :
      (ciphertext : Bytes) (max_length : ℕ)
      → IsAccepted
      → length (decode_loop ciphertext) ≤ max_length
      → (pk_cipher p).decrypt
          (pk_secret p decryption ephemeral_key)
          (decode_loop mac)
          (decode_loop ciphertext)
          max_length
        ≡ aes_decrypt_cbc p
            (derive_keys p [] (pk_secret p decryption ephemeral_key)).aes_key
            (derive_keys p [] (pk_secret p decryption ephemeral_key)).aes_iv
            (decode_loop ciphertext)
  unfolding pk_cipher aes_sha_256_cipher aes_sha_256_cipher_decrypt IsAccepted
  accepted-opens ciphertext max_length (e, m, same) room =
      rw (le→ltb_false max_length (length (decode_loop ciphertext)) room, length-raw_mac m, same)
        refl

  -- Once a ciphertext is decrypted with an ephemeral key and a MAC, every other base64 text passes with
  -- the same two, given room for its bytes: the result is what padded CBC makes of them, and the
  -- MAC check refuses none.
  pub pk_decrypt-unbound :
      (accepted other text : Bytes) (max_length other_max_length : ℕ)
      → (pk_decrypt p decryption ephemeral_key mac accepted max_length).0 ≡ some text
      → length other % 4 ≢ 1
      → length other * 3 / 4 ≤ other_max_length
      → pk_decrypt p decryption ephemeral_key mac other other_max_length
        ≡ conclude_pk_decrypt decryption (
            aes_decrypt_cbc p
              (derive_keys p [] (pk_secret p decryption ephemeral_key)).aes_key
              (derive_keys p [] (pk_secret p decryption ephemeral_key)).aes_iv
              (decode_loop other))
  unfolding pk_decrypt pk_decrypt_sized pk_max_plaintext_length IsAccepted
  pk_decrypt-unbound accepted other text max_length other_max_length h whole room =
      let good = decrypt-IsAccepted accepted max_length text h in
      let sized = length-decode_loop other whole in
      rw
        (
          decoded_size (length other) whole,
          le→ltb_false other_max_length (length other * 3 / 4) room,
          eq→== (length ephemeral_key) pk_key_length good.0,
          eq→== (length mac) pk_mac_length good.1,
        )
        (ap (conclude_pk_decrypt decryption)
          (accepted-opens other other_max_length good (rw sized room)))
