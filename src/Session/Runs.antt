-- ===== src/Session/Runs.antt =====
-- Two devices with one key each.
use libce.Base.{ℕ, ◌^◌, ◌<◌, ◌≤◌, ◌≡◌, refl, true, false, some, none, [], ◌∷◌, ◌++◌, inr, arith}
use libce.Base.Lists.{length, drop, replicate}
use libce.Base.Bytes.{Bytes}
use libce.Error.{OlmErrorCode, success}
use libce.OlmList.{init, to_list}
use libce.Pickle.{Curve25519KeyPair}
use libce.Crypto.{aes_encrypt_cbc_length, curve25519_generate_key}
use libce.Crypto.Example.{example-IsX25519, example_primitives, example-IsCbc, example-IsHmac}
use libce.Cipher.{aes_sha_256_cipher}
use libce.Fields.{at_tag, read_payload, decode_bytes, skip_unknown}
use libce.Varint.{
  varint_skip, varint_decode, varint_decode_bytes, between, varstring_length, varint_length_bytes,
  varint_length_uint32,
}
use libce.Memory.{is_equal, differences}
use libce.Message.{
  PreKeyMessageReader, encode_message_length, encode_one_time_key_message_length,
  decode_one_time_key_message, decode_fields, pre_key_round,
}
use libce.Ratchet.{
  ratchet_init, unset_sender_chain, unset_receiver_chain, unset_skipped_message_key,
}
use libce.Ratchet.Encrypt.{encrypt_output_length}
use libce.Ratchet.Pickled.RoundTrip.{HasArrays}
use libce.Account.{Account, OneTimeKey, unset_one_time_key, lookup_key, find_key, matches}
use libce.Session.{
  Session, pre_key, message, olm_kdf_info, olm_cipher, session_init, session_encrypt_message_type,
  session_encrypt_message_length, session_id, session_encrypt, message_body, session_decrypt,
}
use libce.Session.Start.{check_message_fields, is_key, is_present, new_inbound_session}
use libce.Session.Stored.{pickle_session, pickle_session_length, unpickle_session}
use libce.Session.Agreement.{
  IsKeyPair, IsFresh, curve25519_generate_key-IsKeyPair, initialise-encrypt_output_length,
}
use libce.Session.Exchange.{Meets, secret, starts, started}
use libce.Session.First.{outbound, session_decrypt-first_message}
use libce.Session.Undefined.{new_inbound_session-undefined}
use libce.Session.Restored.{IsSession, SameSession, unpickle_session-pickle_session}
use libce.Session.Errors.{session_decrypt-FailsCleanly}

abbrev key_of : ℕ → Curve25519KeyPair
key_of n = curve25519_generate_key example_primitives (replicate 32 n)

key_of-IsKeyPair : (n : ℕ) → IsKeyPair example_primitives (key_of n)
key_of-IsKeyPair n =
    curve25519_generate_key-IsKeyPair example_primitives example-IsX25519 (replicate 32 n)

abbrev new_session : Session
new_session = record {
  last_error = success;
  ratchet = record {
    kdf_info = olm_kdf_info;
    ratchet_cipher = olm_cipher example_primitives;
    last_error = success;
    root_key = replicate 32 0;
    sender_chain = record { size = 0; data_array = unset_sender_chain ∷ [] };
    receiver_chains = record { size = 0; data_array = replicate 5 unset_receiver_chain };
    skipped_message_keys = record { size = 0; data_array = replicate 40 unset_skipped_message_key };
  };
  alice_identity_key = record { public_key = replicate 32 0 };
  alice_base_key = record { public_key = replicate 32 0 };
  bob_one_time_key = record { public_key = replicate 32 0 };
  received_message = false;
}

abbrev bob_key : OneTimeKey
bob_key = record { id = 1; published = true; key = key_of 5 }

abbrev account_of : ℕ → Account
account_of n = record {
  last_error = success;
  identity_keys = record {
    ed25519_key = record { public_key = replicate 32 0; private_key = replicate 64 0 };
    curve25519_key = key_of n;
  };
  one_time_keys = record { size = 1; data_array = bob_key ∷ replicate 99 unset_one_time_key };
  current_fallback_key = unset_one_time_key;
  prev_fallback_key = unset_one_time_key;
  num_fallback_keys = 0;
  next_one_time_key_id = 1;
  ed25519_seed = replicate 32 0;
  ed25519_seed_known = false;
}

new_session-IsFresh : IsFresh new_session.ratchet
new_session-IsFresh = record {
  no_sender = refl;
  no_receiver = refl;
  sender_room = omega arith;
  receiver_room = omega arith;
}

example-Meets :
    Meets example_primitives new_session new_session (account_of 2) (account_of 3) bob_key
unfolding lookup_key find_key matches is_equal differences to_list curve25519_generate_key
example-Meets = record {
  alice_fresh = new_session-IsFresh;
  bob_fresh = new_session-IsFresh;
  same_info = refl;
  alice_cipher = refl;
  bob_cipher = refl;
  alice_identity = key_of-IsKeyPair 2;
  bob_identity = key_of-IsKeyPair 3;
  one_time_pair = key_of-IsKeyPair 5;
  kept = refl;
}

abbrev alice_started : Session
alice_started =
    started example_primitives example-IsCbc example-IsHmac example-IsX25519 new_session new_session
      (account_of 2) (account_of 3) bob_key example-Meets (replicate 64 4)

alice_starts :
    outbound example_primitives new_session (account_of 2) (account_of 3) bob_key (replicate 64 4)
    ≡ (some 0, alice_started)
alice_starts =
    starts example_primitives example-IsCbc example-IsHmac example-IsX25519 new_session new_session
      (account_of 2) (account_of 3) bob_key example-Meets (replicate 64 4) (omega arith)

body_length : encrypt_output_length alice_started.ratchet 2 ≡ 63
unfolding encode_message_length varstring_length varint_length_bytes varint_length_uint32
    aes_sha_256_cipher aes_encrypt_cbc_length olm_cipher
body_length =
    initialise-encrypt_output_length example_primitives example-IsX25519 new_session.ratchet
      (secret example_primitives example-IsCbc example-IsHmac example-IsX25519 new_session
        new_session (account_of 2) (account_of 3) bob_key example-Meets (replicate 64 4))
      (curve25519_generate_key example_primitives (drop 32 (replicate 64 4))) 2 new_session-IsFresh

text_length : aes_encrypt_cbc_length 2 ≡ 16
unfolding aes_encrypt_cbc_length
text_length = refl

body_fits :
    encrypt_output_length
      (outbound example_primitives new_session
        (account_of 2)
        (account_of 3)
        bob_key
        (replicate 64 4)).1.ratchet
      2
    < 2 ^ 64
body_fits = rw (alice_starts, body_length) (omega arith)

pre_key_length : encode_one_time_key_message_length 32 32 32 63 ≤ 200
unfolding encode_one_time_key_message_length varstring_length varint_length_bytes
pre_key_length = omega arith

message_length : session_encrypt_message_length alice_started 2 ≤ 200
unfolding session_encrypt_message_length
message_length = rw body_length pre_key_length

room_for_message :
    session_encrypt_message_length
      (outbound example_primitives new_session
        (account_of 2)
        (account_of 3)
        bob_key
        (replicate 64 4)).1
      2
    ≤ 200
room_for_message = rw alice_starts message_length

session_decrypt-first_message_example :
    ((outbound example_primitives new_session
        (account_of 2)
        (account_of 3)
        bob_key
        (replicate 64 4)).0
      ≡ some 0)
    × ((sent : Bytes) × (inbound : Session) × ((session_encrypt example_primitives
            (outbound example_primitives new_session
              (account_of 2)
              (account_of 3)
              bob_key
              (replicate 64 4)).1
            (1 ∷ 2 ∷ [])
            []
            (replicate 200 0)).0
          ≡ some sent)
        × (new_inbound_session example_primitives new_session (account_of 3) none sent
            ≡ some (some 0, inbound))
        × ((session_decrypt example_primitives inbound pre_key sent 16).0 ≡ some (1 ∷ 2 ∷ []))
        × (session_encrypt_message_type
              (session_decrypt example_primitives inbound pre_key sent 16).1
            ≡ message)
        × ((session_id example_primitives inbound 32).0
            ≡ (session_id example_primitives
                (outbound example_primitives new_session
                  (account_of 2)
                  (account_of 3)
                  bob_key
                  (replicate 64 4)).1
                32).0))
session_decrypt-first_message_example =
    session_decrypt-first_message example_primitives example-IsCbc example-IsHmac example-IsX25519
      new_session new_session (account_of 2) (account_of 3) bob_key (replicate 64 4) (1 ∷ 2 ∷ []) []
      (replicate 200 0) 16 example-Meets (omega arith) (omega (arith, text_length)) body_fits
      room_for_message (omega (arith, text_length))

new_session-IsSession : IsSession new_session
unfolding to_list
new_session-IsSession = record {
  ratchet_fits = record {
    arrays = record { sender_capacity = refl; receiver_capacity = refl; skipped_capacity = refl };
    root_sized = refl;
    sender_valid = record { fits = omega arith };
    receiver_valid = record { fits = omega arith };
    skipped_valid = record { fits = omega arith };
    senders = tt;
    receivers = tt;
    skipped = tt;
  };
  identity_sized = record { public_sized = refl };
  base_sized = record { public_sized = refl };
  one_time_sized = record { public_sized = refl };
}

new_session-HasArrays : HasArrays (session_init example_primitives new_session).ratchet
unfolding session_init ratchet_init init
new_session-HasArrays = record {
  sender_capacity = refl;
  receiver_capacity = refl;
  skipped_capacity = refl;
}

unpickle_session-pickle_session_example :
    (length (pickle_session [] new_session) ≡ pickle_session_length new_session)
    × ((new : Session) × (unpickle_session example_primitives new_session
            (some (pickle_session [] new_session ++ (1 ∷ [])))
          ≡ inr (new, 1 ∷ []))
        × SameSession new new_session)
unpickle_session-pickle_session_example =
    unpickle_session-pickle_session example_primitives new_session new_session (1 ∷ [])
      new_session-IsSession new_session-HasArrays

-- The empty pre-key message has no message inside.
empty_message_fails : (session_decrypt example_primitives new_session pre_key [] 16).0 ≡ none
unfolding session_decrypt message_body decode_one_time_key_message
empty_message_fails = refl

session_decrypt-FailsCleanly_example :
    (e : OlmErrorCode) × ((session_decrypt example_primitives new_session pre_key [] 16).1
      ≡ record new_session { last_error = e })
session_decrypt-FailsCleanly_example =
    session_decrypt-FailsCleanly example_primitives new_session refl pre_key [] 16
      empty_message_fails

-- A one-time key, a base key and an empty message.
abbrev message_without_identity : Bytes
message_without_identity =
    3 ∷ 0x0a ∷ 32 ∷ (replicate 32 1 ++ (0x12 ∷ 32 ∷ (replicate 32 2 ++ (0x22 ∷ 0 ∷ []))))

abbrev reader_without_identity : PreKeyMessageReader
reader_without_identity = record {
  version = 3;
  identity_key = none;
  base_key = some (replicate 32 2);
  one_time_key = some (replicate 32 1);
  message = some [];
}

read_without_identity :
    decode_one_time_key_message message_without_identity ≡ some reader_without_identity
unfolding decode_one_time_key_message decode_fields pre_key_round decode_bytes at_tag read_payload
    skip_unknown varint_skip varint_decode varint_decode_bytes between
read_without_identity = refl

new_inbound_session-undefined_example :
    (check_message_fields reader_without_identity true ≡ true)
    × (new_inbound_session example_primitives new_session
          (account_of 3)
          (some (record { public_key = replicate 32 9 }))
          message_without_identity
        ≡ none)
unfolding is_key is_present
new_inbound_session-undefined_example =
    new_inbound_session-undefined example_primitives new_session (account_of 3)
      (record { public_key = replicate 32 9 }) message_without_identity reader_without_identity
      read_without_identity refl refl refl refl
