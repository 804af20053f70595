-- ===== src/Ratchet.antt =====
-- src/ratchet.c and include/libce/ratchet.h: the double ratchet, its state and its key schedule.
-- The bytes that a function wipes before it returns have no counterpart.
pub mod Encrypt
pub mod Sending
pub mod Decrypt
pub mod Pickled
pub mod Errors
pub mod Invariant
pub mod Sealing
pub mod Existing
pub mod Following
pub mod Exchange
mod Runs
use libce.Base.{
  ℕ, zero, suc, ◌+◌, ◌*◌, ◌%◌, ◌^◌, Bool, Option, none, some, List, [], ◌∷◌, ltb, if◌then◌else◌,
}
use libce.Base.Lists.{take, drop, get_or, replicate}
use libce.Base.Bytes.{Bytes}
use libce.Pickle.{Curve25519PublicKey, Curve25519KeyPair}
use libce.Crypto.{Primitives, curve25519_shared_secret, hkdf_sha256, hmac_sha256}
use libce.OlmList.{OlmList, init, insert_front}
use libce.Error.{OlmErrorCode, success}
use libce.Cipher.{Cipher}

abbrev pub olm_shared_key_length : ℕ
olm_shared_key_length = 32

abbrev pub olm_max_receiver_chains : ℕ
olm_max_receiver_chains = 5

abbrev pub olm_max_skipped_message_keys : ℕ
olm_max_skipped_message_keys = 40

abbrev pub protocol_version : ℕ
protocol_version = 3

abbrev pub message_key_seed : Bytes
message_key_seed = 0x01 ∷ []

abbrev pub chain_key_seed : Bytes
chain_key_seed = 0x02 ∷ []

abbrev pub max_message_gap : ℕ
max_message_gap = 2000

pub record ChainKey : Type 0 where
  pub index : ℕ
  pub key : Bytes

pub record MessageKey : Type 0 where
  pub index : ℕ
  pub key : Bytes

pub record SenderChain : Type 0 where
  pub ratchet_key : Curve25519KeyPair
  pub chain_key : ChainKey

pub record ReceiverChain : Type 0 where
  pub ratchet_key : Curve25519PublicKey
  pub chain_key : ChainKey

pub record SkippedMessageKey : Type 0 where
  pub ratchet_key : Curve25519PublicKey
  pub message_key : MessageKey

-- `_OlmKdfInfo`, an info with its length as one sequence.
pub record KdfInfo : Type 0 where
  pub root_info : Bytes
  pub ratchet_info : Bytes

pub record Ratchet : Type 0 where
  pub kdf_info : KdfInfo
  pub ratchet_cipher : Cipher
  pub last_error : OlmErrorCode
  pub root_key : Bytes
  pub sender_chain : OlmList SenderChain
  pub receiver_chains : OlmList ReceiverChain
  pub skipped_message_keys : OlmList SkippedMessageKey

-- Items of zero bytes, which `_OLM_UNSET_VALUE` leaves.
abbrev pub unset_sender_chain : SenderChain
unset_sender_chain = record {
  ratchet_key = record { public_key = replicate 32 0; private_key = replicate 32 0 };
  chain_key = record { index = 0; key = replicate 32 0 };
}

abbrev pub unset_receiver_chain : ReceiverChain
unset_receiver_chain = record {
  ratchet_key = record { public_key = replicate 32 0 };
  chain_key = record { index = 0; key = replicate 32 0 };
}

abbrev pub unset_skipped_message_key : SkippedMessageKey
unset_skipped_message_key = record {
  ratchet_key = record { public_key = replicate 32 0 };
  message_key = record { index = 0; key = replicate 32 0 };
}

-- `_olm_list_get(list, index)`: a slot of the array, whether or not it holds an item. The default
-- stands for a read outside the array.
unfoldable pub slot : {A : Type 0} → OlmList A → ℕ → A → A
slot l i outside = get_or l.data_array i outside

module _ (p : Primitives) where
  -- The new root key and the new chain key.
  unfoldable pub create_chain_key :
      Bytes → Curve25519KeyPair → Curve25519PublicKey → KdfInfo → Bytes × ChainKey
  create_chain_key root_key our_key their_key info =
      let secret = curve25519_shared_secret p our_key their_key in
      let derived_secrets =
        hkdf_sha256 p secret root_key info.ratchet_info (2 * olm_shared_key_length) in
      (
        take olm_shared_key_length derived_secrets,
        record {
          index = 0;
          key = take olm_shared_key_length (drop olm_shared_key_length derived_secrets);
        },
      )

  unfoldable pub advance_chain_key : ChainKey → ChainKey
  advance_chain_key chain_key = record {
    index = (chain_key.index + 1) % 2 ^ 32;
    key = hmac_sha256 p chain_key.key chain_key_seed;
  }

  unfoldable pub create_message_keys : ChainKey → MessageKey
  create_message_keys chain_key = record {
    index = chain_key.index;
    key = hmac_sha256 p chain_key.key message_key_seed;
  }

  -- `while (new_chain.index < reader->counter)`, on fuel.
  unfoldable pub advance_while : ℕ → ℕ → ChainKey → ChainKey
  advance_while zero counter chain = chain
  advance_while (suc fuel) counter chain =
      let rest = advance_while fuel counter (advance_chain_key chain) in
      if ltb chain.index counter then rest else chain

unfoldable pub ratchet_init : Ratchet → KdfInfo → Cipher → Ratchet
ratchet_init ratchet kdf_info ratchet_cipher = record {
  kdf_info = kdf_info;
  ratchet_cipher = ratchet_cipher;
  last_error = success;
  root_key = ratchet.root_key;
  sender_chain = init ratchet.sender_chain;
  receiver_chains = init ratchet.receiver_chains;
  skipped_message_keys = init ratchet.skipped_message_keys;
}

module _ (p : Primitives) where
  unfoldable pub ratchet_initialise_as_bob : Ratchet → Bytes → Curve25519PublicKey → Ratchet
  ratchet_initialise_as_bob ratchet shared_secret their_ratchet_key =
      let derived_secrets =
        hkdf_sha256 p shared_secret [] ratchet.kdf_info.root_info (2 * olm_shared_key_length) in
      let chain_key : ChainKey = record {
        index = 0;
        key = take olm_shared_key_length (drop olm_shared_key_length derived_secrets);
      } in
      record ratchet {
        root_key = take olm_shared_key_length derived_secrets;
        receiver_chains =
            insert_front ratchet.receiver_chains
              (record { ratchet_key = their_ratchet_key; chain_key = chain_key });
      }

  unfoldable pub ratchet_initialise_as_alice : Ratchet → Bytes → Curve25519KeyPair → Ratchet
  ratchet_initialise_as_alice ratchet shared_secret our_ratchet_key =
      let derived_secrets =
        hkdf_sha256 p shared_secret [] ratchet.kdf_info.root_info (2 * olm_shared_key_length) in
      let chain_key : ChainKey = record {
        index = 0;
        key = take olm_shared_key_length (drop olm_shared_key_length derived_secrets);
      } in
      record ratchet {
        root_key = take olm_shared_key_length derived_secrets;
        sender_chain =
            insert_front ratchet.sender_chain
              (record { ratchet_key = our_ratchet_key; chain_key = chain_key });
      }
