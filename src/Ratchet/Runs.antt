-- ===== src/Ratchet/Runs.antt =====
-- A ratchet with one sender chain and one receiver chain.
use libce.Base.{◌⊎◌, ◌≤◌, ◌<◌, ◌≡◌, refl, ◌⊎◌, false, some, [], ◌∷◌, ◌++◌, arith}
use libce.Base.Lists.{replicate}
use libce.Base.Iterate.{iterate}
use libce.Base.Bytes.{Bytes}
use libce.Crypto.{aes_encrypt_cbc_length}
use libce.Crypto.Example.{example_primitives, example-IsCbc, example-IsHmac}
use libce.OlmList.{OlmList, empty, to_list}
use libce.Error.{OlmErrorCode, success, not_enough_random, output_buffer_too_small}
use libce.Cipher.{aes_sha_256_cipher}
use libce.Cipher.RoundTrip.{aes_sha_256_cipher-IsCipher}
use libce.Ratchet.Following.{Followed}
use libce.Ratchet.Exchange.{InStep, ratchet_decrypt-ratchet_encrypt}
use libce.Ratchet.Sending.{Refuses, Sends}
use libce.Ratchet.Invariant.{
  IsWellFormed, ratchet_init-IsWellFormed, ratchet_encrypt-IsWellFormed,
  ratchet_decrypt-IsWellFormed,
}
use libce.Ratchet.{
  ratchet_init, ratchet_initialise_as_alice, ratchet_initialise_as_bob, slot, advance_chain_key,
  ChainKey, Ratchet, SenderChain, ReceiverChain, unset_sender_chain, unset_receiver_chain,
  unset_skipped_message_key,
}
use libce.Ratchet.Encrypt.{ratchet_encrypt, encrypt_random_length, encrypt_output_length}
use libce.Varint.{varstring_length, varint_length_bytes, varint_length_uint32}
use libce.Message.{encode_message_length, decode_message}
use libce.Ratchet.Decrypt.{find_chain, ratchet_decrypt, decrypt_read, decrypt_checked, check_reader}
use libce.Ratchet.Pickled.{ratchet_pickle, ratchet_unpickle}
use libce.Ratchet.Errors.{ratchet_decrypt-FailsCleanly, ratchet_encrypt-FailsCleanly}
use libce.Ratchet.Pickled.RoundTrip.{
  HasArrays, IsRatchet, SameKeys, ratchet_unpickle-ratchet_pickle,
}

abbrev example_chain_key : ChainKey
example_chain_key = record { index = 7; key = replicate 32 5 }

abbrev example_sender : SenderChain
example_sender = record {
  ratchet_key = record { public_key = replicate 32 1; private_key = replicate 32 2 };
  chain_key = example_chain_key;
}

abbrev example_receiver : ReceiverChain
example_receiver = record {
  ratchet_key = record { public_key = replicate 32 3 };
  chain_key = example_chain_key;
}

abbrev example_ratchet : Ratchet
example_ratchet = record {
  kdf_info = record { root_info = []; ratchet_info = [] };
  ratchet_cipher = aes_sha_256_cipher example_primitives [];
  last_error = success;
  root_key = replicate 32 8;
  sender_chain = record { size = 1; data_array = example_sender ∷ [] };
  receiver_chains = record {
    size = 1;
    data_array = example_receiver ∷ replicate 4 unset_receiver_chain;
  };
  skipped_message_keys = record { size = 0; data_array = replicate 40 unset_skipped_message_key };
}

-- The ratchet of a new struct: nothing but the arrays.
abbrev fresh_ratchet : Ratchet
fresh_ratchet = record example_ratchet {
  sender_chain = record { size = 0; data_array = unset_sender_chain ∷ [] };
  receiver_chains = record { size = 0; data_array = replicate 5 unset_receiver_chain };
}

abbrev example-HasArrays : HasArrays example_ratchet
example-HasArrays = record {
  sender_capacity = refl;
  receiver_capacity = refl;
  skipped_capacity = refl;
}

abbrev fresh-HasArrays : HasArrays fresh_ratchet
fresh-HasArrays = record {
  sender_capacity = refl;
  receiver_capacity = refl;
  skipped_capacity = refl;
}

abbrev example-IsRatchet : IsRatchet example_ratchet
unfolding libce.OlmList.to_list
example-IsRatchet = record {
  arrays = example-HasArrays;
  root_sized = refl;
  sender_valid = record { fits = omega arith };
  receiver_valid = record { fits = omega arith };
  skipped_valid = record { fits = omega arith };
  senders = (
    record {
      key_sized = record { public_sized = refl; private_sized = refl };
      chain_sized = refl;
      index_fits = omega arith;
    },
    tt,
  );
  receivers = (
    record {
      key_sized = record { public_sized = refl };
      chain_sized = refl;
      index_fits = omega arith;
    },
    tt,
  );
  skipped = tt;
}

-- The empty message has no version.
ratchet_decrypt-FailsCleanly_example :
    (e : OlmErrorCode) × ((ratchet_decrypt example_primitives example_ratchet [] 0).1
      ≡ record example_ratchet { last_error = e })
unfolding ratchet_decrypt aes_sha_256_cipher decrypt_read decode_message decrypt_checked
    check_reader
ratchet_decrypt-FailsCleanly_example =
    ratchet_decrypt-FailsCleanly example_primitives example_ratchet [] 0 refl

-- A ratchet without a sender chain needs random bytes.
ratchet_encrypt-FailsCleanly_example :
    ((0 < encrypt_random_length fresh_ratchet)
      × ((ratchet_encrypt example_primitives fresh_ratchet (1 ∷ []) [] []).1
          ≡ record fresh_ratchet { last_error = not_enough_random }))
    ⊎ ((0 < encrypt_output_length fresh_ratchet 1)
        × ((ratchet_encrypt example_primitives fresh_ratchet (1 ∷ []) [] []).1
            ≡ record fresh_ratchet { last_error = output_buffer_too_small }))
unfolding ratchet_encrypt encrypt_random_length empty
ratchet_encrypt-FailsCleanly_example =
    ratchet_encrypt-FailsCleanly example_primitives fresh_ratchet (1 ∷ []) [] [] refl

ratchet_unpickle_example :
    (new : Ratchet) × (ratchet_unpickle
        (some (ratchet_pickle [] example_ratchet ++ (1 ∷ [])))
        fresh_ratchet
        false
      ≡ some (new, 1 ∷ []))
    × SameKeys new example_ratchet
ratchet_unpickle_example =
    ratchet_unpickle-ratchet_pickle example_ratchet fresh_ratchet (1 ∷ []) example-IsRatchet
      fresh-HasArrays

-- Bob has the chain of `example_ratchet`, two messages behind it.
abbrev bob_ratchet : Ratchet
bob_ratchet = record fresh_ratchet {
  receiver_chains = record {
    size = 1;
    data_array =
        record {
          ratchet_key = record { public_key = replicate 32 1 };
          chain_key = example_chain_key;
        }
        ∷ replicate 4 unset_receiver_chain;
  };
}

abbrev alice_ratchet : Ratchet
alice_ratchet = record example_ratchet {
  sender_chain = record {
    size = 1;
    data_array =
        record {
          ratchet_key = record { public_key = replicate 32 1; private_key = replicate 32 2 };
          chain_key = iterate 2 (advance_chain_key example_primitives) example_chain_key;
        }
        ∷ [];
  };
}

abbrev alice_bob-InStep : InStep example_primitives alice_ratchet bob_ratchet 0 2
unfolding empty slot to_list find_chain
alice_bob-InStep = record {
  same_cipher = refl;
  sender_present = refl;
  key_sized = refl;
  found = refl;
  ahead = refl;
  near = omega arith;
  index_fits = omega arith;
}

abbrev sealed_length : aes_encrypt_cbc_length 2 ≡ 16
unfolding aes_encrypt_cbc_length
sealed_length = refl

abbrev room_in_output : encrypt_output_length alice_ratchet 2 ≤ 100
unfolding encrypt_output_length encode_message_length iterate advance_chain_key empty slot
    aes_sha_256_cipher aes_encrypt_cbc_length varstring_length varint_length_bytes
    varint_length_uint32
room_in_output = omega arith

ratchet_decrypt-ratchet_encrypt_example :
    (message : Bytes) × (alice_after : Ratchet) × (bob_after : Ratchet) × (ratchet_encrypt
        example_primitives alice_ratchet
        (1 ∷ 2 ∷ [])
        []
        (replicate 100 0)
      ≡ (some message, alice_after))
    × (ratchet_decrypt example_primitives bob_ratchet message 16 ≡ (some (1 ∷ 2 ∷ []), bob_after))
    × Followed example_primitives bob_ratchet 0 2 bob_after
    × InStep example_primitives alice_after bob_after 0 0
unfolding aes_sha_256_cipher
ratchet_decrypt-ratchet_encrypt_example =
    ratchet_decrypt-ratchet_encrypt example_primitives alice_ratchet bob_ratchet 0 2
      alice_bob-InStep
      (aes_sha_256_cipher-IsCipher example_primitives example-IsCbc example-IsHmac []) (1 ∷ 2 ∷ [])
      [] (replicate 100 0) 16 (omega (arith, sealed_length)) room_in_output
      (omega (arith, sealed_length)) (omega arith) (record { fits = omega arith }) (omega arith)

abbrev example-IsWellFormed : IsWellFormed example_ratchet
example-IsWellFormed = record {
  sender_in = record { valid = record { fits = omega arith }; sized = refl };
  receivers_in = record { valid = record { fits = omega arith }; sized = refl };
  skipped_in = record { valid = record { fits = omega arith }; sized = refl };
}

ratchet_encrypt-IsWellFormed_example :
    IsWellFormed
      (ratchet_encrypt example_primitives example_ratchet (1 ∷ 2 ∷ []) [] (replicate 100 0)).1
    × (Refuses example_ratchet
          (ratchet_encrypt example_primitives example_ratchet (1 ∷ 2 ∷ []) [] (replicate 100 0)).1
          (ratchet_encrypt example_primitives example_ratchet (1 ∷ 2 ∷ []) [] (replicate 100 0)).0
        ⊎ Sends example_primitives example_ratchet
            (ratchet_encrypt example_primitives example_ratchet (1 ∷ 2 ∷ []) [] (replicate 100 0)).1
            []
            (ratchet_encrypt example_primitives example_ratchet
              (1 ∷ 2 ∷ [])
              []
              (replicate 100 0)).0)
ratchet_encrypt-IsWellFormed_example =
    ratchet_encrypt-IsWellFormed example_primitives example_ratchet (1 ∷ 2 ∷ []) []
      (replicate 100 0) example-IsWellFormed

ratchet_decrypt-IsWellFormed_example :
    IsWellFormed (ratchet_decrypt example_primitives example_ratchet (replicate 70 3) 16).1
ratchet_decrypt-IsWellFormed_example =
    ratchet_decrypt-IsWellFormed example_primitives example_ratchet (replicate 70 3) 16
      example-IsWellFormed

ratchet_init-IsWellFormed_example :
    IsWellFormed
      (ratchet_init example_ratchet example_ratchet.kdf_info example_ratchet.ratchet_cipher)
    × IsWellFormed (
        ratchet_initialise_as_alice example_primitives
          (ratchet_init example_ratchet example_ratchet.kdf_info example_ratchet.ratchet_cipher)
          (4 ∷ [])
          example_sender.ratchet_key)
    × IsWellFormed (
        ratchet_initialise_as_bob example_primitives
          (ratchet_init example_ratchet example_ratchet.kdf_info example_ratchet.ratchet_cipher)
          (4 ∷ [])
          example_receiver.ratchet_key)
ratchet_init-IsWellFormed_example =
    ratchet_init-IsWellFormed example_primitives example_ratchet example_ratchet.kdf_info
      example_ratchet.ratchet_cipher (4 ∷ []) example_receiver.ratchet_key
      example_sender.ratchet_key refl refl refl
