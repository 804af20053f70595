-- ===== src/Session.antt =====
-- src/session.c and include/libce/session.h: sessions of two devices, over the ratchet. `none` is SIZE_MAX.
-- The C keeps the error of a failed ratchet call in the session and resets that of the ratchet.
pub mod Start
pub mod Stored
pub mod Agreement
pub mod Exchange
pub mod First
pub mod Undefined
pub mod Restored
pub mod Errors
mod Runs
use libce.Base.{
  ℕ, ◌+◌, ◌-◌, Bool, true, false, Option, none, some, List, [], ◌∷◌, ◌++◌, ltb, ◌==◌, ◌&&◌, ◌||◌,
  not, if◌then◌else◌,
}
use libce.Base.Lists.{length, take, drop}
use libce.Base.Bytes.{Bytes}
use libce.Error.{
  OlmErrorCode, success, not_enough_random, output_buffer_too_small, bad_message_format,
  bad_message_key_id,
}
use libce.Pickle.{Curve25519PublicKey, Curve25519KeyPair}
use libce.Crypto.{Primitives, curve25519_generate_key, curve25519_shared_secret, sha256}
use libce.Cipher.{Cipher, aes_sha_256_cipher}
use libce.Message.{
  MessageReader, PreKeyMessageReader, decode_message, encode_one_time_key_message_length,
  encode_one_time_key_message, decode_one_time_key_message,
}
use libce.Ratchet.{
  Ratchet, KdfInfo, ratchet_init, ratchet_initialise_as_alice, ratchet_initialise_as_bob,
}
use libce.Ratchet.Encrypt.{ratchet_encrypt, encrypt_output_length, encrypt_random_length}
use libce.Ratchet.Decrypt.{ratchet_decrypt, ratchet_decrypt_max_plaintext_length, same_bytes}
use libce.Account.{Account, OneTimeKey, lookup_key}

pub record Session : Type 0 where
  pub last_error : OlmErrorCode
  pub ratchet : Ratchet
  pub alice_identity_key : Curve25519PublicKey
  pub alice_base_key : Curve25519PublicKey
  pub bob_one_time_key : Curve25519PublicKey
  pub received_message : Bool

pub data MessageType : Type 0 where
  pre_key : MessageType
  message : MessageType

-- "OLM_ROOT" and "OLM_RATCHET"
abbrev pub olm_kdf_info : KdfInfo
olm_kdf_info = record {
  root_info = 0x4f ∷ 0x4c ∷ 0x4d ∷ 0x5f ∷ 0x52 ∷ 0x4f ∷ 0x4f ∷ 0x54 ∷ [];
  ratchet_info = 0x4f ∷ 0x4c ∷ 0x4d ∷ 0x5f ∷ 0x52 ∷ 0x41 ∷ 0x54 ∷ 0x43 ∷ 0x48 ∷ 0x45 ∷ 0x54 ∷ [];
}

-- "OLM_KEYS"
abbrev pub cipher_kdf_info : Bytes
cipher_kdf_info = 0x4f ∷ 0x4c ∷ 0x4d ∷ 0x5f ∷ 0x4b ∷ 0x45 ∷ 0x59 ∷ 0x53 ∷ []

unfoldable pub olm_cipher : Primitives → Cipher
olm_cipher p = aes_sha_256_cipher p cipher_kdf_info

unfoldable pub session_encrypt_message_type : Session → MessageType
session_encrypt_message_type session = if session.received_message then message else pre_key

unfoldable pub session_encrypt_message_length : Session → ℕ → ℕ
session_encrypt_message_length session plaintext_length =
    let message_length = encrypt_output_length session.ratchet plaintext_length in
    if session.received_message
    then message_length
    else encode_one_time_key_message_length 32 32 32 message_length

unfoldable pub session_encrypt_random_length : Session → ℕ
session_encrypt_random_length session = encrypt_random_length session.ratchet

-- After a call of the ratchet that failed.
unfoldable pub take_error : Session → Ratchet → Session
take_error session ratchet = record session {
  last_error = ratchet.last_error;
  ratchet = record ratchet { last_error = success };
}

-- The part of a message that the ratchet reads: `none` is a missing one.
unfoldable pub message_body : MessageType → Bytes → Option Bytes
message_body message bytes = some bytes
message_body pre_key bytes = read (decode_one_time_key_message bytes)
  where
    read : Option PreKeyMessageReader → Option Bytes
    read none = none
    read (some reader) = reader.message

unfoldable pub max_plaintext_length_of_body : Session → Option ℕ × Ratchet → Option ℕ × Session
max_plaintext_length_of_body session (none, ratchet) = (none, take_error session ratchet)
max_plaintext_length_of_body session (some n, ratchet) =
    (some n, record session { ratchet = ratchet })

unfoldable pub session_decrypt_max_plaintext_length :
    Session → MessageType → Bytes → Option ℕ × Session
session_decrypt_max_plaintext_length session type bytes = of_body (message_body type bytes)
  where
    of_body : Option Bytes → Option ℕ × Session
    of_body none = (none, record session { last_error = bad_message_format })
    of_body (some body) =
        max_plaintext_length_of_body session
          (ratchet_decrypt_max_plaintext_length session.ratchet body)

module _ (p : Primitives) where
  unfoldable pub session_init : Session → Session
  session_init session = record session {
    last_error = success;
    received_message = false;
    ratchet = ratchet_init session.ratchet olm_kdf_info (olm_cipher p);
  }

  unfoldable pub session_id : Session → ℕ → Option Bytes × Session
  session_id session id_length =
      if ltb id_length 32
      then (none, record session { last_error = output_buffer_too_small })
      else (
        some (
            sha256 p (
              session.alice_identity_key.public_key
              ++ (session.alice_base_key.public_key ++ session.bob_one_time_key.public_key))),
        session,
      )

  -- The ratchet's message takes the place that the pre-key message leaves for it.
  unfoldable pub wrap_message : Session → Option Bytes × Ratchet → Option Bytes × Session
  wrap_message session (none, ratchet) = (none, take_error session ratchet)
  wrap_message session (some body, ratchet) =
      let wrapped =
        (encode_one_time_key_message 3 session.alice_identity_key.public_key
          session.alice_base_key.public_key session.bob_one_time_key.public_key body).0 in
      (
        some (if session.received_message then body else wrapped),
        record session { ratchet = ratchet },
      )

  unfoldable pub session_encrypt : Session → Bytes → Bytes → Bytes → Option Bytes × Session
  session_encrypt session plaintext random output =
      let size = session_encrypt_message_length session (length plaintext) in
      let body_length = encrypt_output_length session.ratchet (length plaintext) in
      let body_output = take body_length (drop (size - body_length) output) in
      if ltb (length output) size
      then (none, record session { last_error = output_buffer_too_small })
      else wrap_message session (ratchet_encrypt p session.ratchet plaintext random body_output)

  unfoldable pub conclude_decrypt : Session → Option Bytes × Ratchet → Option Bytes × Session
  conclude_decrypt session (none, ratchet) = (none, take_error session ratchet)
  conclude_decrypt session (some plaintext, ratchet) =
      (some plaintext, record session { ratchet = ratchet; received_message = true })

  unfoldable pub session_decrypt : Session → MessageType → Bytes → ℕ → Option Bytes × Session
  session_decrypt session type bytes max_plaintext_length = of_body (message_body type bytes)
    where
      of_body : Option Bytes → Option Bytes × Session
      of_body none = (none, record session { last_error = bad_message_format })
      of_body (some body) =
          conclude_decrypt session (ratchet_decrypt p session.ratchet body max_plaintext_length)
