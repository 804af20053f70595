-- ===== src/GroupSession/Runs.antt =====
-- A sender two steps after the ratchet it shared, and a receiver that is already three steps after it.
use libce.Base.{ℕ, ◌+◌, ◌++◌, ◌%◌, ◌^◌, ◌<◌, ◌≤◌, ◌≡◌, refl, true, false, some, [], ◌∷◌, inr, arith}
use libce.Base.Lists.{length, replicate, All, All-append, All-replicate}
use libce.Base.Iterate.{iterate}
use libce.Base.Bytes.{Bytes, IsByte}
use libce.Error.{success}
use libce.Base64.{encode_base64_length, decode_base64}
use libce.Pickle.{Ed25519KeyPair, pickle_ed25519_public_key_length, pickle_ed25519_key_pair_length}
use libce.Crypto.{reduce_scalar, ed25519_generate_key, aes_encrypt_cbc_length}
use libce.Crypto.Signing.{ed25519_generate_key-IsPair}
use libce.Crypto.Example.{
  example_primitives, example-IsCbc, example-IsHmac, example-AreBytes, example-IsEd25519,
}
use libce.Cipher.{aes_sha_256_cipher}
use libce.Varint.{varstring_length, varint_length_bytes, varint_length_uint32}
use libce.Message.{encode_group_message_length}
use libce.Megolm.{Megolm, get_data, megolm_advance, megolm_pickle_length}
use libce.Megolm.Pickled.{IsMegolm}
use libce.PickleEncoding.{enc_length, enc_output_length, pickle_cipher}
use libce.GroupSession.{megolm_cipher}
use libce.GroupSession.Outbound.{
  OutboundGroupSession, outbound_group_session_key, group_encrypt, group_encrypt_message_length,
  raw_message_length, outbound_raw_pickle_length, pickle_outbound_group_session,
  unpickle_outbound_group_session,
}
use libce.GroupSession.Inbound.{
  InboundGroupSession, init_inbound_group_session, get_megolm, group_decrypt,
}
use libce.GroupSession.Stored.{
  inbound_raw_pickle_length, pickle_inbound_group_session, unpickle_inbound_group_session,
}
use libce.GroupSession.Known.{Knows, get_megolm-known}
use libce.GroupSession.Sharing.{IsShareable, init_inbound-session_key}
use libce.GroupSession.Exchange.{InTouch, group_decrypt-group_encrypt}
use libce.GroupSession.Safety.{Outcome, IsSigned, group_decrypt-Outcome}
use libce.GroupSession.Restored.{
  IsStorableInbound, IsStorableOutbound, unpickle_inbound-pickle, unpickle_outbound-pickle,
}

abbrev first_ratchet : Megolm
first_ratchet = record {
  parts = record {
    part0 = replicate 32 1;
    part1 = replicate 32 2;
    part2 = replicate 32 3;
    part3 = replicate 32 4;
  };
  counter = 5;
}

abbrev example_key_pair : Ed25519KeyPair
example_key_pair = ed25519_generate_key example_primitives (replicate 32 1)

abbrev sender : OutboundGroupSession
sender = record {
  ratchet = iterate 2 (megolm_advance example_primitives) first_ratchet;
  signing_key = example_key_pair;
  last_error = success;
}

abbrev receiver : InboundGroupSession
receiver = record {
  initial_ratchet = first_ratchet;
  latest_ratchet = iterate 3 (megolm_advance example_primitives) first_ratchet;
  signing_key = record { public_key = example_key_pair.public_key };
  signing_key_verified = false;
  last_error = success;
}

abbrev receiver-Knows : Knows example_primitives receiver first_ratchet 3
receiver-Knows = record { counter_fits = omega arith; first_known = refl; gone = refl }

example-InTouch : InTouch example_primitives sender receiver first_ratchet 3 2
example-InTouch = record {
  knows = receiver-Knows;
  ahead = refl;
  near_known = omega arith;
  near_sent = omega arith;
  same_key = refl;
  pair = ed25519_generate_key-IsPair example_primitives example-IsEd25519 (replicate 32 1);
}

get_megolm-known_example :
    (k' : ℕ) × ((get_megolm example_primitives receiver ((5 + 2) % 2 ^ 32)).0
      ≡ some (iterate 2 (megolm_advance example_primitives) first_ratchet))
    × Knows example_primitives
        (get_megolm example_primitives receiver ((5 + 2) % 2 ^ 32)).1
        first_ratchet
        k'
    × (3 ≤ k')
    × (k' < 2 ^ 31)
get_megolm-known_example =
    get_megolm-known example_primitives receiver first_ratchet 3 2 receiver-Knows (omega arith)
      (omega arith)

abbrev text_length : aes_encrypt_cbc_length 2 ≡ 16
unfolding aes_encrypt_cbc_length
text_length = refl

room_for_message : group_encrypt_message_length example_primitives sender 2 ≤ 300
unfolding group_encrypt_message_length raw_message_length megolm_cipher aes_sha_256_cipher
    encode_group_message_length varstring_length varint_length_bytes varint_length_uint32 iterate
    megolm_advance aes_encrypt_cbc_length encode_base64_length
room_for_message = omega arith

group_decrypt-group_encrypt_example :
    (message : Bytes) × (group_encrypt example_primitives sender (1 ∷ 2 ∷ []) (replicate 300 0) ≡ (
      some message,
      record sender { ratchet = megolm_advance example_primitives sender.ratchet },
    ))
    × ((group_decrypt example_primitives receiver message 16).0 ≡ some (1 ∷ 2 ∷ []))
    × ((group_decrypt example_primitives receiver message 16).1 ≡ some sender.ratchet.counter)
    × ((k' : ℕ) × Knows example_primitives
          (group_decrypt example_primitives receiver message 16).2
          first_ratchet
          k'
        × (3 ≤ k')
        × (k' < 2 ^ 31))
    × ((group_decrypt example_primitives receiver message 16).2.signing_key_verified ≡ true)
group_decrypt-group_encrypt_example =
    group_decrypt-group_encrypt example_primitives example-IsCbc example-IsHmac example-AreBytes
      example-IsEd25519 sender receiver first_ratchet 3 2 (1 ∷ 2 ∷ []) (replicate 300 0) 16
      example-InTouch (omega arith, (omega arith, tt)) (omega (arith, text_length)) room_for_message
      (omega (arith, text_length))

-- Arrays of one byte.
replicate-bytes : (n b : ℕ) → IsByte b → All IsByte (replicate n b)
replicate-bytes n b h = All-replicate IsByte n b h

first_ratchet-IsMegolm : IsMegolm first_ratchet
first_ratchet-IsMegolm = record {
  sized0 = refl;
  sized1 = refl;
  sized2 = refl;
  sized3 = refl;
  counter_fits = omega arith;
}

first_ratchet-bytes : All IsByte (get_data first_ratchet)
unfolding get_data
first_ratchet-bytes =
    let last = replicate 32 4 in
    let after2 = replicate 32 3 ++ last in
    let after1 = replicate 32 2 ++ after2 in
    All-append IsByte (replicate 32 1) after1 (replicate-bytes 32 1 (omega arith)) (
      All-append IsByte (replicate 32 2) after2 (replicate-bytes 32 2 (omega arith)) (
        All-append IsByte (replicate 32 3) last (replicate-bytes 32 3 (omega arith))
          (replicate-bytes 32 4 (omega arith))))

abbrev fresh_sender : OutboundGroupSession
fresh_sender = record sender { ratchet = first_ratchet }

fresh_sender-IsShareable : IsShareable fresh_sender.ratchet fresh_sender.signing_key.public_key
unfolding ed25519_generate_key
fresh_sender-IsShareable = record {
  is_megolm = first_ratchet-IsMegolm;
  ratchet_bytes = first_ratchet-bytes;
  key_sized = refl;
  key_bytes =
      example-IsEd25519.bytes-point (reduce_scalar example_primitives example_key_pair.private_key);
}

init_inbound-session_key_example :
    (key : Bytes) × (outbound_group_session_key example_primitives fresh_sender 306
      ≡ (some key, fresh_sender))
    × (init_inbound_group_session example_primitives receiver key ≡ (
      some 0,
      record {
        initial_ratchet = fresh_sender.ratchet;
        latest_ratchet = fresh_sender.ratchet;
        signing_key = record { public_key = fresh_sender.signing_key.public_key };
        signing_key_verified = true;
        last_error = receiver.last_error;
      },
    ))
init_inbound-session_key_example =
    init_inbound-session_key example_primitives example-IsEd25519 fresh_sender receiver 306
      fresh_sender-IsShareable
      (ed25519_generate_key-IsPair example_primitives example-IsEd25519 (replicate 32 1))
      (omega arith)

-- A message that is not base64.
group_decrypt-Outcome_example :
    Outcome
      ((n : ℕ) × (raw : Bytes) × (decode_base64 (65 ∷ []) ≡ some (n, raw))
        × IsSigned example_primitives receiver raw)
      receiver
      (group_decrypt example_primitives receiver (65 ∷ []) 16).0
      (group_decrypt example_primitives receiver (65 ∷ []) 16).2
group_decrypt-Outcome_example = group_decrypt-Outcome example_primitives receiver (65 ∷ []) 16

abbrev stored_receiver : InboundGroupSession
stored_receiver = record {
  initial_ratchet = first_ratchet;
  latest_ratchet = first_ratchet;
  signing_key = record { public_key = replicate 32 7 };
  signing_key_verified = true;
  last_error = success;
}

stored_receiver-IsStorable : IsStorableInbound stored_receiver
stored_receiver-IsStorable = record {
  initial = first_ratchet-IsMegolm;
  latest = first_ratchet-IsMegolm;
  key = record { public_sized = refl };
  initial_bytes = first_ratchet-bytes;
  latest_bytes = first_ratchet-bytes;
  key_bytes = replicate-bytes 32 7 (omega arith);
}

room_for_inbound :
    enc_output_length example_primitives (inbound_raw_pickle_length stored_receiver) ≤ 450
unfolding inbound_raw_pickle_length pickle_ed25519_public_key_length enc_output_length enc_length
    pickle_cipher aes_sha_256_cipher aes_encrypt_cbc_length encode_base64_length
    megolm_pickle_length
room_for_inbound = omega arith

unpickle_inbound-pickle_example :
    (pickled : Bytes) × (pickle_inbound_group_session example_primitives stored_receiver
        (9 ∷ [])
        (replicate 450 0)
      ≡ (some pickled, stored_receiver))
    × (unpickle_inbound_group_session example_primitives receiver (9 ∷ []) pickled
        ≡ inr (record stored_receiver { last_error = receiver.last_error }))
    × (length pickled
        ≡ enc_output_length example_primitives (inbound_raw_pickle_length stored_receiver))
unpickle_inbound-pickle_example =
    unpickle_inbound-pickle example_primitives example-IsCbc example-IsHmac example-AreBytes
      stored_receiver receiver (9 ∷ []) (replicate 450 0) stored_receiver-IsStorable
      room_for_inbound

abbrev stored_sender : OutboundGroupSession
stored_sender = record {
  ratchet = first_ratchet;
  signing_key = record { public_key = replicate 32 7; private_key = replicate 64 8 };
  last_error = success;
}

stored_sender-IsStorable : IsStorableOutbound stored_sender
stored_sender-IsStorable = record {
  ratchet = first_ratchet-IsMegolm;
  key = record { public_sized = refl; private_sized = refl };
  ratchet_bytes = first_ratchet-bytes;
  public_bytes = replicate-bytes 32 7 (omega arith);
  private_bytes = replicate-bytes 64 8 (omega arith);
}

room_for_outbound :
    enc_output_length example_primitives (outbound_raw_pickle_length stored_sender) ≤ 450
unfolding outbound_raw_pickle_length pickle_ed25519_key_pair_length enc_output_length enc_length
    pickle_cipher aes_sha_256_cipher aes_encrypt_cbc_length encode_base64_length
    megolm_pickle_length
room_for_outbound = omega arith

unpickle_outbound-pickle_example :
    (pickled : Bytes) × (pickle_outbound_group_session example_primitives stored_sender
        (9 ∷ [])
        (replicate 450 0)
      ≡ (some pickled, stored_sender))
    × (unpickle_outbound_group_session example_primitives sender (9 ∷ []) pickled
        ≡ inr (record stored_sender { last_error = sender.last_error }))
    × (length pickled
        ≡ enc_output_length example_primitives (outbound_raw_pickle_length stored_sender))
unpickle_outbound-pickle_example =
    unpickle_outbound-pickle example_primitives example-IsCbc example-IsHmac example-AreBytes
      stored_sender sender (9 ∷ []) (replicate 450 0) stored_sender-IsStorable room_for_outbound
