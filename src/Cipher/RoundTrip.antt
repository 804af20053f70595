-- ===== src/Cipher/RoundTrip.antt =====
-- The AES cipher keeps the promises of the interface.
use libce.Base.{
  ℕ, zero, suc, ◌-◌, ◌≤◌, ◌≡◌, refl, ap, ◌∙◌, sym, true, some, [], ◌∷◌, ◌++◌, append_assoc,
  append-nil, arith, le→ltb_false,
}
use libce.Base.Lists.{
  All, All-take, length, take, length-append, length-take, take-append, drop-append,
}
use libce.Base.Bytes.{Bytes, IsByte}
use libce.Memory.{is_equal, is_equal_iff}
use libce.Crypto.{Primitives, hmac_sha256, aes_encrypt_cbc_length, aes_encrypt_cbc, aes_decrypt_cbc}
use libce.Crypto.Outputs.{IsHmac, AreBytes, aes_encrypt_cbc-bytes}
use libce.Crypto.Aes.{IsCbc, length-aes_encrypt_cbc, aes_decrypt_cbc-aes_encrypt_cbc}
use libce.Cipher.{
  IsCipher, write_at, derive_keys, aes_sha_256_cipher_encrypt, aes_sha_256_cipher_decrypt,
  aes_sha_256_cipher, cipher_mac_length,
}

write_at-middle :
    (before old tail new : Bytes)
    → length new ≡ length old
    → write_at (before ++ (old ++ tail)) (length before) new ≡ before ++ (new ++ tail)
unfolding write_at
write_at-middle before old tail new h =
    rw (take-append before (old ++ tail), drop-append before (old ++ tail), h, drop-append old tail)

pub write_at-end :
    (before old new : Bytes)
    → length new ≡ length old
    → write_at (before ++ old) (length before) new ≡ before ++ new
write_at-end before old new h =
    ap (λ (w : Bytes). write_at (before ++ w) (length before) new) (sym (append-nil old))
    ∙ write_at-middle before old [] new h
    ∙ ap (◌++◌ before) (append-nil new)

take-take_same : (n : ℕ) (xs : Bytes) → take n (take n xs) ≡ take n xs
take-take_same zero xs = refl
take-take_same (suc n) [] = refl
take-take_same (suc n) (x ∷ xs) = ap (x ∷◌) (take-take_same n xs)

module _ (p : Primitives) (cbc : IsCbc p) (hmac : IsHmac p) (kdf_info : Bytes) where
  unfoldable pub mac_of : Bytes → Bytes → Bytes
  mac_of key signed = take 8 (hmac_sha256 p (derive_keys p kdf_info key).mac_key signed)

  pub length-mac_of : (key signed : Bytes) → length (mac_of key signed) ≡ 8
  unfolding mac_of hmac_sha256
  length-mac_of key signed =
      let key' = (derive_keys p kdf_info key).mac_key in
      omega (
        arith,
        length-take 8 (p.auth_hmacsha256 key' signed),
        hmac.length-auth_hmacsha256 key' signed,
      )

  unfoldable pub sealed : Bytes → Bytes → Bytes
  sealed key plaintext =
      aes_encrypt_cbc p (derive_keys p kdf_info key).aes_key (derive_keys p kdf_info key).aes_iv
        plaintext

  pub length-sealed :
      (key plaintext : Bytes)
      → length (sealed key plaintext) ≡ aes_encrypt_cbc_length (length plaintext)
  unfolding sealed
  length-sealed key plaintext =
      length-aes_encrypt_cbc p cbc (derive_keys p kdf_info key).aes_key
        (derive_keys p kdf_info key).aes_iv plaintext

  -- What is sealed from bytes is bytes, and so is a MAC.
  pub sealed-bytes :
      (outputs : AreBytes p) (key plaintext : Bytes)
      → All IsByte plaintext
      → All IsByte (sealed key plaintext)
  unfolding sealed
  sealed-bytes outputs key plaintext h =
      aes_encrypt_cbc-bytes p outputs (derive_keys p kdf_info key).aes_key
        (derive_keys p kdf_info key).aes_iv plaintext h

  pub mac_of-bytes : (outputs : AreBytes p) (key signed : Bytes) → All IsByte (mac_of key signed)
  unfolding mac_of hmac_sha256
  mac_of-bytes outputs key signed =
      All-take IsByte 8 (p.auth_hmacsha256 (derive_keys p kdf_info key).mac_key signed)
        (outputs.bytes-auth_hmacsha256 (derive_keys p kdf_info key).mac_key signed)

  -- The MAC is written over what follows the ciphertext, and covers all before it.
  mac-written :
      (key signed tail : Bytes)
      → length tail ≡ 8
      → write_at
          (signed ++ tail)
          (length (signed ++ tail) - 8)
          (mac_of key (take (length (signed ++ tail) - 8) (signed ++ tail)))
        ≡ signed ++ mac_of key signed
  mac-written key signed tail ht =
      let e : length (signed ++ tail) - 8 ≡ length signed =
        omega (arith, length-append signed tail) in
      rw (e, take-append signed tail)
        (write_at-end signed tail (mac_of key signed) (omega (arith, length-mac_of key signed)))

  length-over :
      (before region ciphertext tail : Bytes)
      → length ciphertext ≡ length region
      → length (before ++ (region ++ tail)) ≡ length ((before ++ ciphertext) ++ tail)
  length-over before region ciphertext tail h = omega (
    arith,
    length-append before (region ++ tail),
    length-append region tail,
    length-append (before ++ ciphertext) tail,
    length-append before ciphertext,
  )

  pub encrypt-seals :
      (key plaintext before region tail : Bytes)
      → length region ≡ aes_encrypt_cbc_length (length plaintext)
      → length tail ≡ 8
      → aes_sha_256_cipher_encrypt p kdf_info key plaintext
          (length region)
          (before ++ (region ++ tail))
          (length before)
        ≡ some (before ++ (sealed key plaintext ++ mac_of key (before ++ sealed key plaintext)))
  unfolding aes_sha_256_cipher_encrypt mac_of sealed
  encrypt-seals key plaintext before region tail hr ht =
      let ciphertext = sealed key plaintext in
      let fits : length ciphertext ≡ length region = length-sealed key plaintext ∙ sym hr in
      let l = length-over before region ciphertext tail fits in
      rw
        (
          le→ltb_false (length region) (aes_encrypt_cbc_length (length plaintext)) (omega arith),
          le→ltb_false (length (before ++ (region ++ tail))) 8
              (omega (arith, length-append before (region ++ tail), length-append region tail)),
          write_at-middle before region tail ciphertext fits,
          l,
          ← append_assoc before ciphertext tail,
        )
        (ap some (
          mac-written key (before ++ ciphertext) tail ht
          ∙ append_assoc before ciphertext (mac_of key (before ++ ciphertext))))

  pub mac-checks :
      (key signed : Bytes)
      → is_equal (mac_of key signed) (hmac_sha256 p (derive_keys p kdf_info key).mac_key signed) 8
        ≡ true
  mac-checks key signed =
      let full = hmac_sha256 p (derive_keys p kdf_info key).mac_key signed in
      let h : length full ≡ 32 =
        unfold hmac_sha256 in
        hmac.length-auth_hmacsha256 (derive_keys p kdf_info key).mac_key signed in
      (is_equal_iff (mac_of key signed) full 8 (omega (arith, length-mac_of key signed))
          (omega arith)).1
        (unfold mac_of in take-take_same 8 full)

  pub opens :
      (key plaintext : Bytes)
      → aes_decrypt_cbc p
          (derive_keys p kdf_info key).aes_key
          (derive_keys p kdf_info key).aes_iv
          (sealed key plaintext)
        ≡ some plaintext
  unfolding sealed
  opens key plaintext =
      aes_decrypt_cbc-aes_encrypt_cbc p cbc (derive_keys p kdf_info key).aes_key
        (derive_keys p kdf_info key).aes_iv plaintext

  pub decrypt-opens :
      (key plaintext before : Bytes) (max_length : ℕ)
      → length (sealed key plaintext) ≤ max_length
      → aes_sha_256_cipher_decrypt p kdf_info key
          (before ++ (sealed key plaintext ++ mac_of key (before ++ sealed key plaintext)))
          (sealed key plaintext)
          max_length
        ≡ some plaintext
  unfolding aes_sha_256_cipher_decrypt
  decrypt-opens key plaintext before max_length h =
      let ciphertext = sealed key plaintext in
      let signed = before ++ ciphertext in
      let mac = mac_of key signed in
      let input_length : length (signed ++ mac) - 8 ≡ length signed =
        omega (arith, length-append signed mac, length-mac_of key signed) in
      rw
        (
          ← append_assoc before ciphertext mac,
          le→ltb_false max_length (length ciphertext) (omega arith),
          le→ltb_false (length (signed ++ mac)) 8
              (omega (arith, length-append signed mac, length-mac_of key signed)),
          input_length,
          take-append signed mac,
          drop-append signed mac,
          mac-checks key signed,
        )
        (opens key plaintext)

  -- AES-CBC with HMAC-SHA-256 keeps the promise of the interface.
  pub aes_sha_256_cipher-IsCipher : IsCipher (aes_sha_256_cipher p kdf_info)
  unfolding aes_sha_256_cipher
  aes_sha_256_cipher-IsCipher = record {
    seals = λ key plaintext before region tail hr ht. (
      sealed key plaintext,
      mac_of key (before ++ sealed key plaintext),
      encrypt-seals key plaintext before region tail hr ht,
      length-sealed key plaintext ∙ sym hr,
      length-mac_of key (before ++ sealed key plaintext),
      λ max_length h. decrypt-opens key plaintext before max_length h,
    );
  }

  -- Over a CBC that is undone on whole blocks and an HMAC of 32 bytes: what is encrypted into a region
  -- and a tail of the announced lengths is decrypted with the same key, in a buffer for as many bytes
  -- as the ciphertext has. What stands before the region is left.
  pub aes_sha_256_cipher_round_trip :
      (key plaintext before region tail : Bytes) (max_length : ℕ)
      → length region ≡ aes_encrypt_cbc_length (length plaintext)
      → length tail ≡ cipher_mac_length
      → length region ≤ max_length
      → (ciphertext mac : Bytes) × (aes_sha_256_cipher_encrypt p kdf_info key plaintext
            (length region)
            (before ++ (region ++ tail))
            (length before)
          ≡ some (before ++ (ciphertext ++ mac)))
        × (length ciphertext ≡ length region)
        × (length mac ≡ length tail)
        × (aes_sha_256_cipher_decrypt p kdf_info key
              (before ++ (ciphertext ++ mac))
              ciphertext
              max_length
            ≡ some plaintext)
  aes_sha_256_cipher_round_trip key plaintext before region tail max_length hr ht room =
      let ciphertext = sealed key plaintext in
      let n = length-sealed key plaintext in
      (
        ciphertext,
        mac_of key (before ++ ciphertext),
        encrypt-seals key plaintext before region tail hr ht,
        n ∙ sym hr,
        length-mac_of key (before ++ ciphertext) ∙ sym ht,
        decrypt-opens key plaintext before max_length (omega arith),
      )
