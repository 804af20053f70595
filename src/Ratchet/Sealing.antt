-- ===== src/Ratchet/Sealing.antt =====
-- The message that `write_message` leaves in the output: what it decodes to, and what opens it.
use libce.Base.{
  ℕ, ◌+◌, ◌-◌, ◌^◌, ◌<◌, ◌≤◌, ◌≡◌, refl, ◌∙◌, sym, true, some, [], ◌∷◌, ◌++◌, append_assoc, arith,
}
use libce.Base.Lists.{length, take, drop, length-take, length-drop}
use libce.Base.Bytes.{Bytes}
use libce.Varint.{varint_encode_bytes, varstring_length}
use libce.Fields.{encode_bytes, encode_uint32}
use libce.Message.{
  ratchet_key_tag, counter_tag, ciphertext_tag, encode_message, encode_message_length,
  decode_message,
}
use libce.Message.RoundTrip.{decode_message-encode_message}
use libce.Cipher.{Cipher, IsCipher}
use libce.Ratchet.{MessageKey}
use libce.Ratchet.Encrypt.{output_after, write_message}

-- What `encode_message` writes before the ciphertext.
header : ℕ → Bytes → ℕ → Bytes
header counter ratchet_key ciphertext_length =
    let pos1 = (encode_bytes (3 ∷ []) ratchet_key_tag ratchet_key).0 in
    let pos2 = encode_uint32 pos1 counter_tag counter in
    varint_encode_bytes (pos2 ++ (ciphertext_tag ∷ [])) ciphertext_length

encode_message-header :
    (counter : ℕ) (ratchet_key text : Bytes)
    → ((encode_message 3 counter ratchet_key text).0
        ≡ header counter ratchet_key (length text) ++ text)
      × ((encode_message 3 counter ratchet_key text).1.ciphertext
          ≡ length (header counter ratchet_key (length text)))
unfolding header encode_message encode_bytes
encode_message-header counter ratchet_key text = (refl, refl)

module _ (c : Cipher) (sealing : IsCipher c) (ratchet_key : Bytes) (keys : MessageKey)
    (plaintext : Bytes) where
  -- `message` is what the keys make of the plaintext, and `ciphertext` its part that is sealed.
  pub record Sealed (message ciphertext : Bytes) : Type 0 where
    pub mac : Bytes
    pub written : message ≡ (encode_message 3 keys.index ratchet_key ciphertext).0 ++ mac
    pub mac_sized : length mac ≡ c.mac_length
    pub sized : length ciphertext ≡ c.encrypt_ciphertext_length (length plaintext)
    pub opens :
        (max_length : ℕ)
        → c.decrypt_max_plaintext_length (length ciphertext) ≤ max_length
        → c.decrypt keys.key message ciphertext max_length ≡ some plaintext

  seal_into :
      (region tail : Bytes)
      → length region ≡ c.encrypt_ciphertext_length (length plaintext)
      → length tail ≡ c.mac_length
      → (ciphertext : Bytes) × Sealed
          (output_after ((encode_message 3 keys.index ratchet_key region).0 ++ tail) (
            c.encrypt keys.key plaintext
              (c.encrypt_ciphertext_length (length plaintext))
              ((encode_message 3 keys.index ratchet_key region).0 ++ tail)
              (encode_message 3 keys.index ratchet_key region).1.ciphertext))
          ciphertext
  seal_into region tail hr ht =
      let before = header keys.index ratchet_key (length region) in
      let (ciphertext, mac, encrypts, n, m, opens) =
        sealing.seals keys.key plaintext before region tail hr ht in
      let head = encode_message-header keys.index ratchet_key region in
      let head' = encode_message-header keys.index ratchet_key ciphertext in
      let e : output_after ((encode_message 3 keys.index ratchet_key region).0 ++ tail) (
            c.encrypt keys.key plaintext (c.encrypt_ciphertext_length (length plaintext))
              ((encode_message 3 keys.index ratchet_key region).0 ++ tail)
              (encode_message 3 keys.index ratchet_key region).1.ciphertext)
          ≡ before ++ (ciphertext ++ mac) =
        rw (head.0, head.1, append_assoc before region tail, ← hr, encrypts)
          (unfold output_after in refl) in
      (
        ciphertext,
        record {
          mac = mac;
          written = e ∙ rw (head'.0, n) (sym (append_assoc before ciphertext mac));
          mac_sized = m;
          sized = n ∙ hr;
          opens = λ max_length h. rw e (opens max_length h);
        },
      )

  pub write_message-Sealed :
      (output : Bytes)
      → encode_message_length keys.index 32
          (c.encrypt_ciphertext_length (length plaintext))
          c.mac_length
        ≤ length output
      → (ciphertext : Bytes) × Sealed
          (write_message c ratchet_key keys plaintext
            (encode_message_length keys.index 32
              (c.encrypt_ciphertext_length (length plaintext))
              c.mac_length)
            output)
          ciphertext
  unfolding write_message encode_message_length varstring_length
  write_message-Sealed output room =
      let size = c.encrypt_ciphertext_length (length plaintext) in
      let at = encode_message_length keys.index 32 size c.mac_length - c.mac_length - size in
      seal_into (take size (drop at output)) (take c.mac_length (drop (at + size) output))
        (omega (arith, length-take size (drop at output), length-drop at output))
        (omega (
          arith,
          length-take c.mac_length (drop (at + size) output),
          length-drop (at + size) output,
        ))

  pub Sealed-decode :
      (message ciphertext : Bytes)
      → Sealed message ciphertext
      → keys.index < 2 ^ 32
      → length ratchet_key < 2 ^ 64
      → length ciphertext < 2 ^ 64
      → decode_message message c.mac_length
        ≡ some (record {
          version = 3;
          has_counter = true;
          counter = keys.index;
          input = message;
          ratchet_key = some ratchet_key;
          ciphertext = some ciphertext;
        })
  Sealed-decode message ciphertext s hi hk ht =
      rw (s.written, ← s.mac_sized)
        (decode_message-encode_message 3 keys.index ratchet_key ciphertext s.mac hi hk ht)
