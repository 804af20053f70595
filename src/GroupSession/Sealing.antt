-- ===== src/GroupSession/Sealing.antt =====
-- What an outbound session seals: the ciphertext, the message around it and the MAC.
use libce.Base.{ℕ, ◌≡◌, refl, ◌∙◌, sym, some, [], ◌∷◌, ◌++◌, append_assoc}
use libce.Base.Lists.{length}
use libce.Base.Bytes.{Bytes}
use libce.Varint.{varint_encode_bytes}
use libce.Fields.{encode_bytes, encode_uint32}
use libce.Crypto.{Primitives, aes_encrypt_cbc_length}
use libce.Crypto.Aes.{IsCbc}
use libce.Crypto.Outputs.{IsHmac}
use libce.Cipher.{aes_sha_256_cipher}
use libce.Cipher.RoundTrip.{mac_of, sealed, length-sealed, encrypt-seals}
use libce.Message.{group_message_index_tag, group_ciphertext_tag, encode_group_message}
use libce.GroupSession.{megolm_kdf_info, megolm_cipher}

-- What `encode_group_message` writes before the ciphertext.
unfoldable pub group_header : ℕ → ℕ → Bytes
group_header message_index ciphertext_length =
    varint_encode_bytes
      (encode_uint32 (3 ∷ []) group_message_index_tag message_index ++ (group_ciphertext_tag ∷ []))
      ciphertext_length

pub encode_group_message-header :
    (message_index : ℕ) (text : Bytes)
    → ((encode_group_message 3 message_index text).0
        ≡ group_header message_index (length text) ++ text)
      × ((encode_group_message 3 message_index text).1
          ≡ length (group_header message_index (length text)))
unfolding group_header encode_group_message encode_bytes
encode_group_message-header message_index text = (refl, refl)

module _ (p : Primitives) (cbc : IsCbc p) (hmac : IsHmac p) where
  -- The ciphertext, the message around it, and that message with its MAC.
  unfoldable pub group_ciphertext : Bytes → Bytes → Bytes
  group_ciphertext key plaintext = sealed p cbc hmac megolm_kdf_info key plaintext

  unfoldable pub group_body : ℕ → Bytes → Bytes → Bytes
  group_body message_index key plaintext =
      (encode_group_message 3 message_index (group_ciphertext key plaintext)).0

  unfoldable pub group_mac : ℕ → Bytes → Bytes → Bytes
  group_mac message_index key plaintext =
      mac_of p cbc hmac megolm_kdf_info key (group_body message_index key plaintext)

  pub length-group_ciphertext :
      (key plaintext : Bytes)
      → length (group_ciphertext key plaintext) ≡ aes_encrypt_cbc_length (length plaintext)
  unfolding group_ciphertext
  length-group_ciphertext key plaintext = length-sealed p cbc hmac megolm_kdf_info key plaintext

  pub cipher-written :
      (message_index : ℕ) (key plaintext region tail : Bytes)
      → length region ≡ aes_encrypt_cbc_length (length plaintext)
      → length tail ≡ 8
      → (megolm_cipher p).encrypt key plaintext
          (aes_encrypt_cbc_length (length plaintext))
          ((encode_group_message 3 message_index region).0 ++ tail)
          (encode_group_message 3 message_index region).1
        ≡ some (group_body message_index key plaintext ++ group_mac message_index key plaintext)
  unfolding megolm_cipher aes_sha_256_cipher group_body group_mac group_ciphertext
  cipher-written message_index key plaintext region tail hr ht =
      let text = sealed p cbc hmac megolm_kdf_info key plaintext in
      let before = group_header message_index (length region) in
      let head = encode_group_message-header message_index region in
      let head' = encode_group_message-header message_index text in
      let same : length text ≡ length region =
        length-sealed p cbc hmac megolm_kdf_info key plaintext ∙ sym hr in
      rw (head.0, head.1, append_assoc before region tail, ← hr)
        (encrypt-seals p cbc hmac megolm_kdf_info key plaintext before region tail hr ht
          ∙ rw (head'.0, same, append_assoc before text) refl)
