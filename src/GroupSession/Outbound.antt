-- ===== src/GroupSession/Outbound.antt =====
-- src/outbound_group_session.c. `output` is a buffer before the call; a result is what the call leaves
-- at its front, and `none` is SIZE_MAX.
use libce.Base.{
  ℕ, ◌+◌, ◌-◌, Option, none, some, [], ◌∷◌, ◌++◌, ◌⊎◌, inl, inr, ltb, ◌==◌, not, if◌then◌else◌,
}
use libce.Base.Lists.{length, take, drop, replicate}
use libce.Base.Bytes.{Bytes}
use libce.Error.{
  OlmErrorCode, success, not_enough_random, output_buffer_too_small, unknown_pickle_version,
  corrupted_pickle, pickle_extra_data,
}
use libce.Base64.{encode_base64_length, encode_base64}
use libce.Pickle.{
  Ed25519KeyPair, pickle_uint32, unpickle_uint32, pickle_ed25519_key_pair_length,
  pickle_ed25519_key_pair, unpickle_ed25519_key_pair,
}
use libce.Crypto.{Primitives, ed25519_generate_key, ed25519_sign}
use libce.Message.{encode_group_message_length, encode_group_message}
use libce.Megolm.{
  Megolm, get_data, megolm_init, megolm_advance, megolm_pickle_length, megolm_pickle,
  megolm_unpickle, megolm_ratchet_length,
}
use libce.PickleEncoding.{enc_output_length, enc_pickle, enc_input}
use libce.GroupSession.{
  megolm_cipher, olm_protocol_version, group_session_id_length, session_key_version,
  session_key_raw_length, ed25519_signature_length, write_counter,
}

pub record OutboundGroupSession : Type 0 where
  pub ratchet : Megolm
  pub signing_key : Ed25519KeyPair
  pub last_error : OlmErrorCode

-- The session after `_olm_unset`.
abbrev pub clear_outbound_group_session : OutboundGroupSession
clear_outbound_group_session = record {
  ratchet = record {
    parts = record {
      part0 = replicate 32 0;
      part1 = replicate 32 0;
      part2 = replicate 32 0;
      part3 = replicate 32 0;
    };
    counter = 0;
  };
  signing_key = record { public_key = replicate 32 0; private_key = replicate 64 0 };
  last_error = success;
}

abbrev pub outbound_pickle_version : ℕ
outbound_pickle_version = 1

unfoldable pub outbound_raw_pickle_length : OutboundGroupSession → ℕ
outbound_raw_pickle_length session =
    4 + megolm_pickle_length session.ratchet + pickle_ed25519_key_pair_length session.signing_key

unfoldable pub outbound_raw_pickle : OutboundGroupSession → Bytes
outbound_raw_pickle session =
    let pos1 = pickle_uint32 [] outbound_pickle_version in
    let pos2 = megolm_pickle pos1 session.ratchet in
    pickle_ed25519_key_pair pos2 session.signing_key

unfoldable pub init_outbound_random_length : ℕ
init_outbound_random_length = megolm_ratchet_length + 32

-- The fields from the raw pickle, in order; `inl` is the error code of a failure. What a failure
-- leaves of the other fields is not modelled.
unfoldable pub unpickle_outbound_fields :
    OutboundGroupSession → Option (Megolm × Bytes) → OlmErrorCode ⊎ OutboundGroupSession
unpickle_outbound_fields session none = inl corrupted_pickle
unpickle_outbound_fields session (some (ratchet, pos)) = last (unpickle_ed25519_key_pair (some pos))
  where
    last : Option (Ed25519KeyPair × Bytes) → OlmErrorCode ⊎ OutboundGroupSession
    last none = inl corrupted_pickle
    last (some (key, [])) = inr (record session { ratchet = ratchet; signing_key = key })
    last (some (key, b ∷ rest)) = inl pickle_extra_data

unfoldable pub unpickle_outbound_version :
    OutboundGroupSession → Option (ℕ × Bytes) → OlmErrorCode ⊎ OutboundGroupSession
unpickle_outbound_version session none = inl corrupted_pickle
unpickle_outbound_version session (some (version, pos)) =
    if not (version == outbound_pickle_version)
    then inl unknown_pickle_version
    else unpickle_outbound_fields session (megolm_unpickle (some pos))

unfoldable pub unpickle_outbound_raw :
    OutboundGroupSession → Option Bytes × OlmErrorCode → OlmErrorCode ⊎ OutboundGroupSession
unpickle_outbound_raw session (none, error) = inl error
unpickle_outbound_raw session (some raw, error) =
    unpickle_outbound_version session (unpickle_uint32 (some raw))

module _ (p : Primitives) where
  unfoldable pub pickle_outbound_group_session :
      OutboundGroupSession → Bytes → Bytes → Option Bytes × OutboundGroupSession
  pickle_outbound_group_session session key output =
      if ltb (length output) (enc_output_length p (outbound_raw_pickle_length session))
      then (none, record session { last_error = output_buffer_too_small })
      else (some (enc_pickle p key output (outbound_raw_pickle session)), session)

  unfoldable pub unpickle_outbound_group_session :
      OutboundGroupSession → Bytes → Bytes → OlmErrorCode ⊎ OutboundGroupSession
  unpickle_outbound_group_session session key pickled =
      unpickle_outbound_raw session (enc_input p key pickled session.last_error)

  unfoldable pub init_outbound_group_session :
      OutboundGroupSession → Bytes → Option ℕ × OutboundGroupSession
  init_outbound_group_session session random =
      if ltb (length random) init_outbound_random_length
      then (none, record session { last_error = not_enough_random })
      else (
        some 0,
        record session {
          ratchet = megolm_init random 0;
          signing_key = ed25519_generate_key p (drop megolm_ratchet_length random);
        },
      )

  unfoldable pub raw_message_length : OutboundGroupSession → ℕ → ℕ
  raw_message_length session plaintext_length =
      encode_group_message_length session.ratchet.counter
        ((megolm_cipher p).encrypt_ciphertext_length plaintext_length) (megolm_cipher p).mac_length
        ed25519_signature_length

  unfoldable pub group_encrypt_message_length : OutboundGroupSession → ℕ → ℕ
  group_encrypt_message_length session plaintext_length =
      encode_base64_length (raw_message_length session plaintext_length)

  -- After `ops->encrypt`: the ratchet advances, and the signature follows the message.
  unfoldable pub sign_message :
      OutboundGroupSession → Option Bytes → Option Bytes × OutboundGroupSession
  sign_message session none = (none, session)
  sign_message session (some message) = (
    some (message ++ ed25519_sign p session.signing_key message),
    record session { ratchet = megolm_advance p session.ratchet },
  )

  -- `_encrypt`, into a buffer for the raw message.
  unfoldable pub encrypt_raw :
      OutboundGroupSession → Bytes → Bytes → Option Bytes × OutboundGroupSession
  encrypt_raw session plaintext buffer =
      let cipher = megolm_cipher p in
      let ciphertext_length = cipher.encrypt_ciphertext_length (length plaintext) in
      let trailer_length = cipher.mac_length + ed25519_signature_length in
      let start =
        raw_message_length session (length plaintext) - trailer_length - ciphertext_length in
      let region = take ciphertext_length (drop start buffer) in
      let tail = take cipher.mac_length (drop (start + ciphertext_length) buffer) in
      let (message, ciphertext_at) =
        encode_group_message olm_protocol_version session.ratchet.counter region in
      sign_message session (
        cipher.encrypt (get_data session.ratchet) plaintext ciphertext_length (message ++ tail)
          ciphertext_at)

  unfoldable pub encode_message_base64 :
      Option Bytes × OutboundGroupSession → Option Bytes × OutboundGroupSession
  encode_message_base64 (none, session) = (none, session)
  encode_message_base64 (some message, session) = (some (encode_base64 message), session)

  -- The raw message is built at the end of the output, and its base64 then over all of it.
  unfoldable pub group_encrypt :
      OutboundGroupSession → Bytes → Bytes → Option Bytes × OutboundGroupSession
  group_encrypt session plaintext output =
      let rawmsglen = raw_message_length session (length plaintext) in
      let buffer = take rawmsglen (drop (encode_base64_length rawmsglen - rawmsglen) output) in
      if ltb (length output) (encode_base64_length rawmsglen)
      then (none, record session { last_error = output_buffer_too_small })
      else encode_message_base64 (encrypt_raw session plaintext buffer)

  unfoldable pub outbound_group_session_id :
      OutboundGroupSession → ℕ → Option Bytes × OutboundGroupSession
  outbound_group_session_id session id_length =
      if ltb id_length (encode_base64_length group_session_id_length)
      then (none, record session { last_error = output_buffer_too_small })
      else (some (encode_base64 (take 32 session.signing_key.public_key)), session)

  unfoldable pub outbound_group_session_message_index : OutboundGroupSession → ℕ
  outbound_group_session_message_index session = session.ratchet.counter

  -- The part of the session key that is signed.
  unfoldable pub session_key_body : OutboundGroupSession → Bytes
  session_key_body session =
      session_key_version
      ∷ (write_counter 4 session.ratchet.counter
          ++ (get_data session.ratchet ++ take 32 session.signing_key.public_key))

  unfoldable pub outbound_group_session_key :
      OutboundGroupSession → ℕ → Option Bytes × OutboundGroupSession
  outbound_group_session_key session key_length =
      let body = session_key_body session in
      if ltb key_length (encode_base64_length session_key_raw_length)
      then (none, record session { last_error = output_buffer_too_small })
      else (some (encode_base64 (body ++ ed25519_sign p session.signing_key body)), session)
