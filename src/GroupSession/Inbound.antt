-- ===== src/GroupSession/Inbound.antt =====
-- src/inbound_group_session.c. `none` is SIZE_MAX. The base64 of a message is decoded in place: `message`
-- is the buffer before the call.
use libce.Base.{
  ℕ, ◌+◌, ◌-◌, ◌%◌, ◌^◌, Bool, true, false, Option, none, some, [], ◌∷◌, ◌++◌, ltb, ◌==◌, not,
  if◌then◌else◌,
}
use libce.Base.Lists.{length, take, drop, replicate}
use libce.Base.Bytes.{Bytes}
use libce.Error.{
  OlmErrorCode, success, output_buffer_too_small, bad_message_version, bad_message_format,
  bad_message_mac, bad_session_key, bad_signature, invalid_base64, unknown_message_index,
}
use libce.Base64.{encode_base64_length, encode_base64, decode_base64}
use libce.Pickle.{Ed25519PublicKey}
use libce.Crypto.{Primitives, ed25519_verify}
use libce.Message.{DecodeGroupMessageResults, decode_group_message}
use libce.Megolm.{Megolm, get_data, megolm_init, megolm_advance_to}
use libce.GroupSession.{
  megolm_cipher, olm_protocol_version, group_session_id_length, session_key_version,
  session_export_version, session_key_raw_length, session_export_raw_length,
  ed25519_signature_length, write_counter, read_counter,
}

-- `signing_key_verified` is an `int` used as a flag.
pub record InboundGroupSession : Type 0 where
  pub initial_ratchet : Megolm
  pub latest_ratchet : Megolm
  pub signing_key : Ed25519PublicKey
  pub signing_key_verified : Bool
  pub last_error : OlmErrorCode

abbrev pub unset_ratchet : Megolm
unset_ratchet = record {
  parts = record {
    part0 = replicate 32 0;
    part1 = replicate 32 0;
    part2 = replicate 32 0;
    part3 = replicate 32 0;
  };
  counter = 0;
}

-- The session after `_olm_unset`.
abbrev pub clear_inbound_group_session : InboundGroupSession
clear_inbound_group_session = record {
  initial_ratchet = unset_ratchet;
  latest_ratchet = unset_ratchet;
  signing_key = record { public_key = replicate 32 0 };
  signing_key_verified = false;
  last_error = success;
}

module _ (p : Primitives) where
  -- The session with the ratchets and the key from `key_buf`, whose version has been tested.
  unfoldable pub load_session_keys : InboundGroupSession → Bytes → InboundGroupSession
  load_session_keys session key_buf =
      let counter = read_counter 4 0 (drop 1 key_buf) in
      let ptr = drop 5 key_buf in
      record session {
        initial_ratchet = megolm_init ptr counter;
        latest_ratchet = megolm_init ptr counter;
        signing_key = record { public_key = take 32 (drop 128 ptr) };
      }

  -- `_init_group_session_keys`
  unfoldable pub init_group_session_keys :
      InboundGroupSession → Bytes → Bool → Option ℕ × InboundGroupSession
  init_group_session_keys session [] export_format = (none, session)
  init_group_session_keys session (version ∷ rest) export_format =
      let expected_version =
        if export_format then session_export_version else session_key_version in
      let loaded = load_session_keys session (version ∷ rest) in
      let signed = take 165 (version ∷ rest) in
      let signature = take 64 (drop 165 (version ∷ rest)) in
      if not (version == expected_version)
      then (none, record session { last_error = bad_session_key })
      else if export_format
      then (some 0, loaded)
      else if not (ed25519_verify p loaded.signing_key signed signature)
      then (none, record loaded { last_error = bad_signature })
      else (some 0, record loaded { signing_key_verified = true })

  -- After `_olm_decode_base64_length` and `_olm_decode_base64` of the key.
  unfoldable pub load_decoded_key :
      InboundGroupSession → ℕ → Bool → Option (ℕ × Bytes) → Option ℕ × InboundGroupSession
  load_decoded_key session expected_length export_format none =
      (none, record session { last_error = invalid_base64 })
  load_decoded_key session expected_length export_format (some (raw_length, key_buf)) =
      if not (raw_length == expected_length)
      then (none, record session { last_error = bad_session_key })
      else init_group_session_keys session key_buf export_format

  unfoldable pub init_inbound_group_session :
      InboundGroupSession → Bytes → Option ℕ × InboundGroupSession
  init_inbound_group_session session session_key =
      load_decoded_key session session_key_raw_length false (decode_base64 session_key)

  unfoldable pub import_inbound_group_session :
      InboundGroupSession → Bytes → Option ℕ × InboundGroupSession
  import_inbound_group_session session session_key =
      load_decoded_key session session_export_raw_length true (decode_base64 session_key)

  unfoldable pub max_plaintext_length_of :
      InboundGroupSession → Option DecodeGroupMessageResults → Option ℕ × InboundGroupSession
  max_plaintext_length_of session none = (none, session)
  max_plaintext_length_of session (some results) =
      if not (results.version == olm_protocol_version)
      then (none, record session { last_error = bad_message_version })
      else of_ciphertext results.ciphertext
    where
      of_ciphertext : Option Bytes → Option ℕ × InboundGroupSession
      of_ciphertext none = (none, record session { last_error = bad_message_format })
      of_ciphertext (some text) =
          (some ((megolm_cipher p).decrypt_max_plaintext_length (length text)), session)

  unfoldable pub max_plaintext_length_decoded :
      InboundGroupSession → Option (ℕ × Bytes) → Option ℕ × InboundGroupSession
  max_plaintext_length_decoded session none = (none, record session { last_error = invalid_base64 })
  max_plaintext_length_decoded session (some (raw_length, message)) =
      max_plaintext_length_of session
        (decode_group_message message (megolm_cipher p).mac_length ed25519_signature_length)

  unfoldable pub group_decrypt_max_plaintext_length :
      InboundGroupSession → Bytes → Option ℕ × InboundGroupSession
  group_decrypt_max_plaintext_length session message =
      max_plaintext_length_decoded session (decode_base64 message)

  -- `_get_megolm`
  unfoldable pub get_megolm : InboundGroupSession → ℕ → Option Megolm × InboundGroupSession
  get_megolm session message_index =
      let latest = megolm_advance_to p message_index session.latest_ratchet in
      let earlier = megolm_advance_to p message_index session.initial_ratchet in
      if ltb ((message_index + 2 ^ 32 - session.latest_ratchet.counter) % 2 ^ 32) (2 ^ 31)
      then (some latest, record session { latest_ratchet = latest })
      else if not
          (ltb ((message_index + 2 ^ 32 - session.initial_ratchet.counter) % 2 ^ 32) (2 ^ 31))
      then (none, record session { last_error = unknown_message_index })
      else (some earlier, session)

  -- After `ops->decrypt`.
  unfoldable pub decrypted : InboundGroupSession → Option Bytes → Option Bytes × InboundGroupSession
  decrypted session none = (none, record session { last_error = bad_message_mac })
  decrypted session (some plaintext) =
      (some plaintext, record session { signing_key_verified = true })

  -- From `_get_megolm` on; `signed` is the message without its signature.
  unfoldable pub decrypt_with_megolm :
      Bytes → Bytes → ℕ → Option Megolm × InboundGroupSession → Option Bytes × InboundGroupSession
  decrypt_with_megolm signed ciphertext max_plaintext_length (none, session) = (none, session)
  decrypt_with_megolm signed ciphertext max_plaintext_length (some megolm, session) =
      decrypted session
        ((megolm_cipher p).decrypt (get_data megolm) signed ciphertext max_plaintext_length)

  -- From the signature on.
  unfoldable pub decrypt_verified :
      InboundGroupSession → Bytes → ℕ → Bytes → ℕ → Option Bytes × InboundGroupSession
  decrypt_verified session message message_index ciphertext max_plaintext_length =
      let signed_length = length message - ed25519_signature_length in
      let signed = take signed_length message in
      let signature = take ed25519_signature_length (drop signed_length message) in
      if not (ed25519_verify p session.signing_key signed signature)
      then (none, record session { last_error = bad_signature })
      else if ltb max_plaintext_length
          ((megolm_cipher p).decrypt_max_plaintext_length (length ciphertext))
      then (none, record session { last_error = output_buffer_too_small })
      else decrypt_with_megolm signed ciphertext max_plaintext_length
          (get_megolm session message_index)

  -- `_decrypt` after the message is decoded: the plaintext, what is stored in `*message_index`, and the
  -- session. Results are always produced (Message.Loop); the clause for none is not reached.
  unfoldable pub decrypt_results :
      InboundGroupSession
      → Bytes
      → ℕ
      → Option DecodeGroupMessageResults
      → Option Bytes × Option ℕ × InboundGroupSession
  decrypt_results session message max_plaintext_length none = (none, none, session)
  decrypt_results session message max_plaintext_length (some results) =
      if not (results.version == olm_protocol_version)
      then (none, none, record session { last_error = bad_message_version })
      else if not results.has_message_index
      then (none, none, record session { last_error = bad_message_format })
      else with_text results.ciphertext
    where
      with_text : Option Bytes → Option Bytes × Option ℕ × InboundGroupSession
      with_text none = (none, none, record session { last_error = bad_message_format })
      with_text (some text) =
          let (result, session') =
            decrypt_verified session message results.message_index text max_plaintext_length in
          (result, some results.message_index, session')

  unfoldable pub group_decrypt_decoded :
      InboundGroupSession → ℕ → Option (ℕ × Bytes) → Option Bytes × Option ℕ × InboundGroupSession
  group_decrypt_decoded session max_plaintext_length none =
      (none, none, record session { last_error = invalid_base64 })
  group_decrypt_decoded session max_plaintext_length (some (raw_length, message)) =
      decrypt_results session message max_plaintext_length
        (decode_group_message message (megolm_cipher p).mac_length ed25519_signature_length)

  unfoldable pub group_decrypt :
      InboundGroupSession → Bytes → ℕ → Option Bytes × Option ℕ × InboundGroupSession
  group_decrypt session message max_plaintext_length =
      group_decrypt_decoded session max_plaintext_length (decode_base64 message)

  unfoldable pub inbound_group_session_id :
      InboundGroupSession → ℕ → Option Bytes × InboundGroupSession
  inbound_group_session_id session id_length =
      if ltb id_length (encode_base64_length group_session_id_length)
      then (none, record session { last_error = output_buffer_too_small })
      else (some (encode_base64 (take 32 session.signing_key.public_key)), session)

  unfoldable pub inbound_group_session_first_known_index : InboundGroupSession → ℕ
  inbound_group_session_first_known_index session = session.initial_ratchet.counter

  unfoldable pub inbound_group_session_is_verified : InboundGroupSession → Bool
  inbound_group_session_is_verified session = session.signing_key_verified

  unfoldable pub export_with_megolm :
      ℕ → Option Megolm × InboundGroupSession → Option Bytes × InboundGroupSession
  export_with_megolm message_index (none, session) = (none, session)
  export_with_megolm message_index (some megolm, session) = (
    some (
        encode_base64 (
          session_export_version
          ∷ (write_counter 4 message_index
              ++ (get_data megolm ++ take 32 session.signing_key.public_key)))),
    session,
  )

  unfoldable pub export_inbound_group_session :
      InboundGroupSession → ℕ → ℕ → Option Bytes × InboundGroupSession
  export_inbound_group_session session key_length message_index =
      if ltb key_length (encode_base64_length session_export_raw_length)
      then (none, record session { last_error = output_buffer_too_small })
      else export_with_megolm message_index (get_megolm session message_index)
