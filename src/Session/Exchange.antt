-- ===== src/Session/Exchange.antt =====
-- The first message of a session, from the account of one device to that of another.
use libce.Base.{
  ℕ, ◌-◌, ◌^◌, ◌≤◌, ◌<◌, ◌≡◌, refl, ap, ◌∙◌, sym, true, false, some, none, Option, ◌++◌, arith,
  le→ltb_false,
}
use libce.Base.Lists.{length, take, drop, length-take, length-drop, take_all}
use libce.Base.Bytes.{Bytes}
use libce.Pickle.{Curve25519PublicKey, Curve25519KeyPair}
use libce.Crypto.{
  Primitives, aes_encrypt_cbc_length, curve25519_generate_key, curve25519_shared_secret,
}
use libce.Crypto.Aes.{IsCbc}
use libce.Crypto.Outputs.{IsX25519, IsHmac}
use libce.Cipher.{Cipher, IsCipher, aes_sha_256_cipher}
use libce.Cipher.RoundTrip.{aes_sha_256_cipher-IsCipher}
use libce.Varint.{varstring_length}
use libce.Message.{
  MessageReader, decode_message, encode_one_time_key_message, encode_one_time_key_message_length,
}
use libce.Message.PreKey.{Fit, decode-encode_one_time_key_message}
use libce.Ratchet.{Ratchet, ratchet_initialise_as_alice, ratchet_initialise_as_bob}
use libce.Ratchet.Encrypt.{ratchet_encrypt, encrypt_output_length}
use libce.Ratchet.Exchange.{InStep, ratchet_message}
use libce.Account.{Account, OneTimeKey, lookup_key}
use libce.Session.{
  Session, pre_key, cipher_kdf_info, olm_cipher, session_encrypt_message_length, wrap_message,
  session_encrypt, conclude_decrypt, session_decrypt, message_body,
}
use libce.Session.Start.{
  is_present, is_key, check_message_fields, load_key, new_outbound_session_random_length,
  new_outbound_session, inbound_with_key, inbound_with_message, inbound_load, inbound_read,
  new_inbound_session,
}
use libce.Session.Agreement.{
  IsKeyPair, IsFresh, shared_secret-agrees, curve25519_generate_key-IsKeyPair, length-key,
  initialise-sender_key, initialise-InStep,
}

-- Two sessions that are initialised and not started, and the accounts' keys: Bob's account still has
-- the one-time key.
pub record Meets (p : Primitives) (alice bob : Session) (account_a account_b : Account)
    (one_time : OneTimeKey) : Type 0 where
  pub alice_fresh : IsFresh alice.ratchet
  pub bob_fresh : IsFresh bob.ratchet
  pub same_info : alice.ratchet.kdf_info ≡ bob.ratchet.kdf_info
  pub alice_cipher : alice.ratchet.ratchet_cipher ≡ olm_cipher p
  pub bob_cipher : bob.ratchet.ratchet_cipher ≡ olm_cipher p
  pub alice_identity : IsKeyPair p account_a.identity_keys.curve25519_key
  pub bob_identity : IsKeyPair p account_b.identity_keys.curve25519_key
  pub one_time_pair : IsKeyPair p one_time.key
  pub kept : lookup_key account_b (record { public_key = one_time.key.public_key }) ≡ some one_time

module _ (p : Primitives) (cbc : IsCbc p) (hmac : IsHmac p) (x25519 : IsX25519 p)
    (alice bob : Session) (account_a account_b : Account) (one_time : OneTimeKey)
    (meets : Meets p alice bob account_a account_b one_time) (random : Bytes) where
  abbrev pub identity_a : Curve25519KeyPair
  identity_a = account_a.identity_keys.curve25519_key

  abbrev pub identity_b : Curve25519KeyPair
  identity_b = account_b.identity_keys.curve25519_key

  abbrev pub base_key : Curve25519KeyPair
  base_key = curve25519_generate_key p random

  abbrev pub ratchet_key : Curve25519KeyPair
  ratchet_key = curve25519_generate_key p (drop 32 random)

  abbrev pub public : Curve25519KeyPair → Curve25519PublicKey
  public k = record { public_key = k.public_key }

  abbrev pub secret : Bytes
  secret =
      curve25519_shared_secret p identity_a (public one_time.key)
      ++ (curve25519_shared_secret p base_key (public identity_b)
          ++ curve25519_shared_secret p base_key (public one_time.key))

  -- Alice's session after `_olm_session_new_outbound_session`, and Bob's after
  -- `_olm_session_new_inbound_session`.
  abbrev pub started : Session
  started = record alice {
    received_message = false;
    alice_identity_key = public identity_a;
    alice_base_key = public base_key;
    bob_one_time_key = public one_time.key;
    ratchet = ratchet_initialise_as_alice p alice.ratchet secret ratchet_key;
  }

  abbrev pub joined : Session
  joined = record bob {
    alice_identity_key = public identity_a;
    alice_base_key = public base_key;
    bob_one_time_key = public one_time.key;
    ratchet = ratchet_initialise_as_bob p bob.ratchet secret (public ratchet_key);
  }

  pub starts :
      64 ≤ length random
      → new_outbound_session p alice account_a (public identity_b) (public one_time.key) random
        ≡ (some 0, started)
  unfolding new_outbound_session new_outbound_session_random_length
  starts enough = rw (le→ltb_false (length random) 64 enough) refl

  same_secret :
      curve25519_shared_secret p one_time.key (public identity_a)
        ++ (curve25519_shared_secret p identity_b (public base_key)
            ++ curve25519_shared_secret p one_time.key (public base_key))
      ≡ secret
  same_secret =
      let base = curve25519_generate_key-IsKeyPair p x25519 random in
      rw
        (
          shared_secret-agrees p x25519 one_time.key identity_a meets.one_time_pair
              meets.alice_identity,
          shared_secret-agrees p x25519 identity_b base_key meets.bob_identity base,
          shared_secret-agrees p x25519 one_time.key base_key meets.one_time_pair base,
        )
        refl

  step : InStep p started.ratchet joined.ratchet 0 0
  step =
      initialise-InStep p x25519 alice.ratchet bob.ratchet secret ratchet_key meets.alice_fresh
        meets.bob_fresh meets.same_info (meets.alice_cipher ∙ sym meets.bob_cipher)
        (curve25519_generate_key-IsKeyPair p x25519 (drop 32 random))

  keys_fit :
      (body : Bytes)
      → length body < 2 ^ 64
      → Fit identity_a.public_key base_key.public_key one_time.key.public_key body
  keys_fit body fits =
      let base = curve25519_generate_key-IsKeyPair p x25519 random in
      record {
        identity_fits = omega (arith, length-key p x25519 identity_a meets.alice_identity);
        base_fits = omega (arith, length-key p x25519 base_key base);
        one_time_fits = omega (arith, length-key p x25519 one_time.key meets.one_time_pair);
        message_fits = fits;
      }

  joins :
      (body : Bytes) (reader : MessageReader)
      → length body < 2 ^ 64
      → decode_message body bob.ratchet.ratchet_cipher.mac_length ≡ some reader
      → reader.ratchet_key ≡ some ratchet_key.public_key
      → new_inbound_session p bob account_b none
          (encode_one_time_key_message 3 identity_a.public_key base_key.public_key
            one_time.key.public_key body).0
        ≡ some (some 0, joined)
  unfolding new_inbound_session inbound_read inbound_load inbound_with_message inbound_with_key
      check_message_fields is_key is_present load_key
  joins body reader fits decodes names =
      let base = curve25519_generate_key-IsKeyPair p x25519 random in
      let ratchet = curve25519_generate_key-IsKeyPair p x25519 (drop 32 random) in
      let a = length-key p x25519 identity_a meets.alice_identity in
      let e = length-key p x25519 base_key base in
      let o = length-key p x25519 one_time.key meets.one_time_pair in
      let r = length-key p x25519 ratchet_key ratchet in
      rw
        (
          decode-encode_one_time_key_message 3 identity_a.public_key base_key.public_key
              one_time.key.public_key body (keys_fit body fits),
          a,
          e,
          o,
          take_all identity_a.public_key 32 a,
          take_all base_key.public_key 32 e,
          take_all one_time.key.public_key 32 o,
          decodes,
          names,
          r,
          take_all ratchet_key.public_key 32 r,
          meets.kept,
          same_secret,
        )
        refl

  sealing : IsCipher started.ratchet.ratchet_cipher
  unfolding ratchet_initialise_as_alice olm_cipher
  sealing = rw meets.alice_cipher (aes_sha_256_cipher-IsCipher p cbc hmac cipher_kdf_info)

  same_length :
      (n : ℕ)
      → started.ratchet.ratchet_cipher.encrypt_ciphertext_length n ≡ aes_encrypt_cbc_length n
  unfolding ratchet_initialise_as_alice olm_cipher aes_sha_256_cipher
  same_length n = ap (λ (c : Cipher). c.encrypt_ciphertext_length n) meets.alice_cipher

  same_maximum : (n : ℕ) → started.ratchet.ratchet_cipher.decrypt_max_plaintext_length n ≡ n
  unfolding ratchet_initialise_as_alice olm_cipher aes_sha_256_cipher
  same_maximum n = ap (λ (c : Cipher). c.decrypt_max_plaintext_length n) meets.alice_cipher

  same_mac_length :
      started.ratchet.ratchet_cipher.mac_length ≡ bob.ratchet.ratchet_cipher.mac_length
  unfolding ratchet_initialise_as_alice
  same_mac_length = ap (λ (c : Cipher). c.mac_length) (meets.alice_cipher ∙ sym meets.bob_cipher)

  -- The pre-key message around a message of the ratchet.
  abbrev wrapped : Bytes → Bytes
  wrapped body =
      (encode_one_time_key_message 3 identity_a.public_key base_key.public_key
        one_time.key.public_key body).0

  wrap_message-started :
      (body : Bytes) (result : Option Bytes × Ratchet)
      → result.0 ≡ some body
      → (wrap_message p started result).0 ≡ some (wrapped body)
  unfolding wrap_message
  wrap_message-started body (sent, ratchet) h = rw h refl

  message_body-wrapped :
      (body : Bytes) → length body < 2 ^ 64 → message_body pre_key (wrapped body) ≡ some body
  unfolding message_body
  message_body-wrapped body fits =
      rw
        (decode-encode_one_time_key_message 3 identity_a.public_key base_key.public_key
          one_time.key.public_key body (keys_fit body fits))
        refl

  -- The whole exchange, from the message of the ratchet.
  pub first_message :
      (plaintext more output : Bytes) (max_length : ℕ)
      → aes_encrypt_cbc_length (length plaintext) < 2 ^ 64
      → encrypt_output_length started.ratchet (length plaintext) < 2 ^ 64
      → session_encrypt_message_length started (length plaintext) ≤ length output
      → aes_encrypt_cbc_length (length plaintext) ≤ max_length
      → (sent : Bytes) × ((session_encrypt p started plaintext more output).0 ≡ some sent)
        × (new_inbound_session p bob account_b none sent ≡ some (some 0, joined))
        × ((session_decrypt p joined pre_key sent max_length).0 ≡ some plaintext)
        × ((session_decrypt p joined pre_key sent max_length).1.received_message ≡ true)
  unfolding session_encrypt session_encrypt_message_length session_decrypt conclude_decrypt
      encode_one_time_key_message_length varstring_length
  first_message plaintext more output max_length text_fits fits room enough =
      let n = encrypt_output_length started.ratchet (length plaintext) in
      let size = encode_one_time_key_message_length 32 32 32 n in
      let rest = drop (size - n) output in
      let roomy : n ≤ length (take n rest) =
        omega (arith, length-take n rest, length-drop (size - n) output) in
      let (body, ciphertext, encrypted, decodes, sized, decrypted) =
        ratchet_message p started.ratchet joined.ratchet 0 0 step sealing plaintext more
          (take n rest) max_length (rw (same_length (length plaintext)) text_fits) roomy
          (rw
            (
              same_length (length plaintext),
              same_maximum (aes_encrypt_cbc_length (length plaintext)),
            )
            enough) in
      let body_fits : length body < 2 ^ 64 = rw sized fits in
      let names =
        ap (λ (k : Curve25519KeyPair). some k.public_key)
          (initialise-sender_key p x25519 alice.ratchet secret ratchet_key meets.alice_fresh) in
      (
        wrapped body,
        rw (le→ltb_false (length output) size room) (
            wrap_message-started body
              (ratchet_encrypt p started.ratchet plaintext more (take n rest)) encrypted),
        joins body _ body_fits (ap (decode_message body) (sym same_mac_length) ∙ decodes) names,
        rw (message_body-wrapped body body_fits, decrypted) refl,
        rw (message_body-wrapped body body_fits, decrypted) refl,
      )
