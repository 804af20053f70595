-- ===== src/Pk/Exchange.antt =====
-- A private key, the recipient key made from it, and a message between the two.
use libce.Base.{ℕ, ◌≤◌, ◌≡◌, refl, ap, ◌∙◌, sym, some, [], arith, le→ltb_false, eq→==}
use libce.Base.Lists.{length, take, take_all, All}
use libce.Base.Bytes.{Bytes, IsByte}
use libce.Base64.{encode_base64_length, encode_base64, decode_loop}
use libce.Base64.RoundTrip.{length-encode_base64, decode-encode_length, decode_loop-encode_base64}
use libce.Crypto.{
  Primitives, aes_encrypt_cbc_length, curve25519_generate_key, curve25519_shared_secret,
}
use libce.Crypto.Aes.{IsCbc}
use libce.Crypto.Outputs.{IsHmac, AreBytes, IsX25519, ArePublicBytes}
use libce.Cipher.{aes_sha_256_cipher, aes_sha_256_cipher_decrypt}
use libce.Cipher.RoundTrip.{
  write_at-end, mac_of, length-mac_of, mac_of-bytes, sealed, length-sealed, sealed-bytes, opens,
  mac-checks,
}
use libce.Pk.{
  PkEncryption, PkDecryption, PkMessage, pk_cipher, pk_key_length, pk_mac_length,
  pk_ciphertext_length, pk_max_plaintext_length, pk_encryption_set_recipient_key, encrypt_apart,
  conclude_pk_encrypt, pk_encrypt, pk_key_from_private, pk_secret, conclude_pk_decrypt,
  pk_decrypt_sized, pk_decrypt,
}

module _ (p : Primitives) (cbc : IsCbc p) (hmac : IsHmac p) where
  abbrev pub pk_sealed : Bytes → Bytes → Bytes
  pk_sealed = sealed p cbc hmac []

  abbrev pub pk_mac : Bytes → Bytes
  pk_mac key = mac_of p cbc hmac [] key []

  encrypt_apart-seals :
      (key plaintext raw_mac : Bytes)
      → length raw_mac ≡ 8
      → encrypt_apart p key plaintext (aes_encrypt_cbc_length (length plaintext)) raw_mac
        ≡ some (pk_sealed key plaintext, pk_mac key)
  unfolding encrypt_apart sealed mac_of
  encrypt_apart-seals key plaintext raw_mac h =
      let size = aes_encrypt_cbc_length (length plaintext) in
      rw (le→ltb_false size size (omega arith), h)
        (ap (λ (m : Bytes). some (pk_sealed key plaintext, m))
          (write_at-end [] raw_mac (pk_mac key) (length-mac_of p cbc hmac [] key [] ∙ sym h)))

  cipher-opens :
      (key plaintext : Bytes) (max_length : ℕ)
      → aes_encrypt_cbc_length (length plaintext) ≤ max_length
      → (pk_cipher p).decrypt key (pk_mac key) (pk_sealed key plaintext) max_length ≡ some plaintext
  unfolding pk_cipher aes_sha_256_cipher aes_sha_256_cipher_decrypt
  cipher-opens key plaintext max_length room =
      rw
        (
          le→ltb_false max_length (length (pk_sealed key plaintext))
              (rw (length-sealed p cbc hmac [] key plaintext) room),
          length-mac_of p cbc hmac [] key [],
          mac-checks p cbc hmac [] key [],
        )
        (opens p cbc hmac [] key plaintext)

module _ (p : Primitives) (cbc : IsCbc p) (hmac : IsHmac p) (outputs : AreBytes p)
    (x25519 : IsX25519 p) (publics : ArePublicBytes p) where
  length-public_text :
      (a : Bytes) → length (encode_base64 (p.scalarmult_curve25519_base a)) ≡ pk_key_length
  unfolding pk_key_length
  length-public_text a =
      length-encode_base64 (p.scalarmult_curve25519_base a)
      ∙ ap encode_base64_length (x25519.length-public a)

  decode-public_text :
      (a : Bytes)
      → decode_loop (encode_base64 (p.scalarmult_curve25519_base a))
        ≡ p.scalarmult_curve25519_base a
  decode-public_text a =
      decode_loop-encode_base64 (p.scalarmult_curve25519_base a) (publics.bytes-public a)

  set_recipient_key-public :
      (encryption : PkEncryption) (a : Bytes)
      → pk_encryption_set_recipient_key encryption (encode_base64 (p.scalarmult_curve25519_base a))
        ≡ (
          some 0,
          record encryption {
            recipient_key = record { public_key = p.scalarmult_curve25519_base a };
          },
        )
  unfolding pk_encryption_set_recipient_key
  set_recipient_key-public encryption a =
      let text = encode_base64 (p.scalarmult_curve25519_base a) in
      let size = length-public_text a in
      rw
        (
          le→ltb_false (length text) pk_key_length (omega (arith, size)),
          take_all text pk_key_length (omega (arith, size)),
          decode-public_text a,
        )
        refl

  pub pk_decrypt-opens :
      (decryption : PkDecryption) (a plaintext : Bytes) (max_length : ℕ)
      → All IsByte plaintext
      → aes_encrypt_cbc_length (length plaintext) ≤ max_length
      → let key =
          p.scalarmult_curve25519 decryption.key_pair.private_key
            (p.scalarmult_curve25519_base a) in
        pk_decrypt p decryption
          (encode_base64 (p.scalarmult_curve25519_base a))
          (encode_base64 (pk_mac p cbc hmac key))
          (encode_base64 (pk_sealed p cbc hmac key plaintext))
          max_length
        ≡ (some plaintext, decryption)
  unfolding pk_decrypt pk_decrypt_sized pk_max_plaintext_length pk_secret curve25519_shared_secret
      pk_mac_length
  pk_decrypt-opens decryption a plaintext max_length bytes room =
      let key =
        p.scalarmult_curve25519 decryption.key_pair.private_key (p.scalarmult_curve25519_base a) in
      let ciphertext = pk_sealed p cbc hmac key plaintext in
      let raw_mac = pk_mac p cbc hmac key in
      let size = length-sealed p cbc hmac [] key plaintext in
      let mac_size =
        length-encode_base64 raw_mac
        ∙ ap encode_base64_length (length-mac_of p cbc hmac [] key []) in
      rw
        (
          length-encode_base64 ciphertext,
          decode-encode_length (length ciphertext),
          le→ltb_false max_length (length ciphertext) (rw size room),
          eq→== (length (encode_base64 (p.scalarmult_curve25519_base a))) pk_key_length
              (length-public_text a),
          eq→== (length (encode_base64 raw_mac)) (encode_base64_length 8) mac_size,
          decode-public_text a,
          decode_loop-encode_base64 raw_mac (mac_of-bytes p cbc hmac [] outputs key []),
          decode_loop-encode_base64 ciphertext
              (sealed-bytes p cbc hmac [] outputs key plaintext bytes),
          cipher-opens p cbc hmac key plaintext max_length room,
        )
        (unfold conclude_pk_decrypt in refl)

  pk_encrypt-seals :
      (encryption : PkEncryption) (plaintext random raw_mac : Bytes)
      (ciphertext_length mac_length ephemeral_key_size : ℕ)
      → pk_ciphertext_length (length plaintext) ≤ ciphertext_length
      → pk_mac_length ≤ mac_length
      → pk_key_length ≤ ephemeral_key_size
      → 32 ≤ length random
      → length raw_mac ≡ 8
      → let key = p.scalarmult_curve25519 (take 32 random) encryption.recipient_key.public_key in
        pk_encrypt p encryption plaintext ciphertext_length mac_length ephemeral_key_size random
          raw_mac
        ≡ (
          some (record {
            ciphertext = encode_base64 (pk_sealed p cbc hmac key plaintext);
            mac = encode_base64 (pk_mac p cbc hmac key);
            ephemeral_key = encode_base64 (p.scalarmult_curve25519_base (take 32 random));
          }),
          encryption,
        )
  unfolding pk_encrypt curve25519_generate_key curve25519_shared_secret
  pk_encrypt-seals encryption plaintext random raw_mac ciphertext_length mac_length
        ephemeral_key_size room mac_room key_room enough size =
      let key = p.scalarmult_curve25519 (take 32 random) encryption.recipient_key.public_key in
      rw
        (
          le→ltb_false ciphertext_length (pk_ciphertext_length (length plaintext)) room,
          le→ltb_false mac_length pk_mac_length mac_room,
          le→ltb_false ephemeral_key_size pk_key_length key_room,
          le→ltb_false (length random) 32 enough,
          encrypt_apart-seals p cbc hmac key plaintext raw_mac size,
        )
        (unfold conclude_pk_encrypt in refl)

  -- Over a CBC that is undone, an HMAC of 32 bytes, an X25519 whose secret is the same from either
  -- side and outputs that are bytes: a private key of at least 32 bytes gives a public key, that is
  -- accepted as the recipient's, and what is encrypted to it, with enough random bytes and buffers of
  -- the announced lengths, is decrypted with the private key into a buffer for the ciphertext.
  pub pk_decrypt-pk_encrypt :
      (decryption : PkDecryption) (encryption : PkEncryption)
      (privkey plaintext random raw_mac : Bytes)
      (pubkey_length ciphertext_length mac_length ephemeral_key_size max_length : ℕ)
      → pk_key_length ≤ pubkey_length
      → 32 ≤ length privkey
      → All IsByte plaintext
      → pk_ciphertext_length (length plaintext) ≤ ciphertext_length
      → pk_mac_length ≤ mac_length
      → pk_key_length ≤ ephemeral_key_size
      → 32 ≤ length random
      → length raw_mac ≡ 8
      → aes_encrypt_cbc_length (length plaintext) ≤ max_length
      → (pubkey : Bytes) × (holder : PkDecryption) × (sender : PkEncryption) × (m : PkMessage)
        × (pk_key_from_private p decryption pubkey_length privkey ≡ (some pubkey, holder))
        × (pk_encryption_set_recipient_key encryption pubkey ≡ (some 0, sender))
        × (pk_encrypt p sender plaintext ciphertext_length mac_length ephemeral_key_size random
              raw_mac
            ≡ (some m, sender))
        × (pk_decrypt p holder m.ephemeral_key m.mac m.ciphertext max_length
            ≡ (some plaintext, holder))
  unfolding pk_key_from_private curve25519_generate_key
  pk_decrypt-pk_encrypt decryption encryption privkey plaintext random raw_mac pubkey_length
        ciphertext_length mac_length ephemeral_key_size max_length pub_room enough_key bytes room
        mac_room key_room enough size max_room =
      let a = take 32 random in
      let b = take 32 privkey in
      let key = p.scalarmult_curve25519 a (p.scalarmult_curve25519_base b) in
      let holder : PkDecryption = record decryption {
        key_pair = record { public_key = p.scalarmult_curve25519_base b; private_key = b };
      } in
      let sender : PkEncryption = record encryption {
        recipient_key = record { public_key = p.scalarmult_curve25519_base b };
      } in
      (
        encode_base64 (p.scalarmult_curve25519_base b),
        holder,
        sender,
        record {
          ciphertext = encode_base64 (pk_sealed p cbc hmac key plaintext);
          mac = encode_base64 (pk_mac p cbc hmac key);
          ephemeral_key = encode_base64 (p.scalarmult_curve25519_base a);
        },
        rw
            (
              le→ltb_false pubkey_length pk_key_length pub_room,
              le→ltb_false (length privkey) 32 enough_key,
            )
            refl,
        set_recipient_key-public encryption b,
        pk_encrypt-seals sender plaintext random raw_mac ciphertext_length mac_length
            ephemeral_key_size room mac_room key_room enough size,
        rw (x25519.agrees a b) (pk_decrypt-opens holder a plaintext max_length bytes max_room),
      )
