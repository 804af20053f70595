-- ===== src/Ratchet/Decrypt.antt =====
-- src/ratchet.c: `_olm_ratchet_decrypt` and what it calls. `none` is SIZE_MAX; the plaintext is the
-- value that the call returns, and what a failed call leaves in the buffer is not modelled.
use libce.Base.{
  ℕ, zero, suc, ◌-◌, Bool, true, false, Option, none, some, List, [], ◌∷◌, ltb, ◌==◌, ◌&&◌, not,
  if◌then◌else◌,
}
use libce.Base.Lists.{length, take, set}
use libce.Base.Bytes.{Bytes}
use libce.Pickle.{Curve25519PublicKey}
use libce.Crypto.{Primitives}
use libce.OlmList.{OlmList, empty, to_list, insert_front, erase}
use libce.Error.{
  OlmErrorCode, bad_message_version, bad_message_format, bad_message_mac, output_buffer_too_small,
}
use libce.Message.{MessageReader, decode_message}
use libce.Cipher.{Cipher}
use libce.Ratchet.{
  ChainKey, MessageKey, SenderChain, ReceiverChain, SkippedMessageKey, Ratchet, slot,
  unset_sender_chain, unset_receiver_chain, unset_skipped_message_key, protocol_version,
  max_message_gap, create_chain_key, advance_chain_key, create_message_keys, advance_while,
}

-- What the reader holds once the fields that must be there are there.
pub record Received : Type 0 where
  pub counter : ℕ
  pub input : Bytes
  pub ratchet_key : Bytes
  pub ciphertext : Bytes

pub data Checked : Type 0 where
  rejected : OlmErrorCode → Checked
  accepted : Received → Checked

-- The tests of `_olm_ratchet_decrypt` between the missing fields and the loop over the chains.
unfoldable pub check_fields : Cipher → MessageReader → ℕ → Option Bytes → Option Bytes → Checked
check_fields cipher reader max_plaintext_length none ciphertext = rejected bad_message_format
check_fields cipher reader max_plaintext_length (some key) none = rejected bad_message_format
check_fields cipher reader max_plaintext_length (some key) (some text) =
    if not reader.has_counter
    then rejected bad_message_format
    else if ltb max_plaintext_length (cipher.decrypt_max_plaintext_length (length text))
    then rejected output_buffer_too_small
    else if not (length key == 32)
    then rejected bad_message_format
    else accepted (record {
      counter = reader.counter;
      input = reader.input;
      ratchet_key = key;
      ciphertext = text;
    })

unfoldable pub check_reader : Cipher → MessageReader → ℕ → Checked
check_reader cipher reader max_plaintext_length =
    if not (reader.version == protocol_version)
    then rejected bad_message_version
    else check_fields cipher reader max_plaintext_length reader.ratchet_key reader.ciphertext

unfoldable pub decrypt_max_plaintext_length_of : Ratchet → Option Bytes → Option ℕ × Ratchet
decrypt_max_plaintext_length_of ratchet none =
    (none, record ratchet { last_error = bad_message_format })
decrypt_max_plaintext_length_of ratchet (some ciphertext) =
    (some (ratchet.ratchet_cipher.decrypt_max_plaintext_length (length ciphertext)), ratchet)

-- A reader is always produced (Message.Loop); the clause for none is not reached.
unfoldable pub max_plaintext_length_read : Ratchet → Option MessageReader → Option ℕ × Ratchet
max_plaintext_length_read ratchet none = (none, ratchet)
max_plaintext_length_read ratchet (some reader) =
    decrypt_max_plaintext_length_of ratchet reader.ciphertext

-- `_olm_ratchet_decrypt_max_plaintext_length`
unfoldable pub ratchet_decrypt_max_plaintext_length : Ratchet → Bytes → Option ℕ × Ratchet
ratchet_decrypt_max_plaintext_length ratchet input =
    max_plaintext_length_read ratchet (decode_message input ratchet.ratchet_cipher.mac_length)

-- `0 == memcmp(a, b, n)`
unfoldable pub same_bytes : ℕ → Bytes → Bytes → Bool
same_bytes zero a b = true
same_bytes (suc n) (x ∷ a) (y ∷ b) = x == y && same_bytes n a b
same_bytes (suc n) a b = false

-- The index of the first chain with this ratchet key.
unfoldable pub find_chain : List ReceiverChain → Bytes → Option ℕ
unfolding same_bytes
find_chain [] key = none
find_chain (chain ∷ chains) key =
    let rest = find_chain chains key in
    if same_bytes 32 chain.ratchet_key.public_key key then some 0 else next rest
  where
    next : Option ℕ → Option ℕ
    next none = none
    next (some i) = some (suc i)

unfoldable pub verify_mac_and_decrypt : Cipher → MessageKey → Received → ℕ → Option Bytes
verify_mac_and_decrypt cipher message_key message max_plaintext_length =
    cipher.decrypt message_key.key message.input message.ciphertext max_plaintext_length

-- The index and the plaintext of the first skipped key that decrypts the message.
unfoldable pub try_skipped : Cipher → List SkippedMessageKey → Received → ℕ → Option (ℕ × Bytes)
try_skipped cipher [] message max_plaintext_length = none
try_skipped cipher (skipped ∷ keys) message max_plaintext_length =
    let rest = later (try_skipped cipher keys message max_plaintext_length) in
    let matches =
      message.counter == skipped.message_key.index
      && same_bytes 32 skipped.ratchet_key.public_key message.ratchet_key in
    if matches
    then first rest (verify_mac_and_decrypt cipher skipped.message_key message max_plaintext_length)
    else rest
  where
    later : Option (ℕ × Bytes) → Option (ℕ × Bytes)
    later none = none
    later (some (i, plaintext)) = some (suc i, plaintext)

    first : Option (ℕ × Bytes) → Option Bytes → Option (ℕ × Bytes)
    first rest none = rest
    first rest (some plaintext) = some (0, plaintext)

-- `while (chain->chain_key.index < reader.counter)` on fuel: the keys of the messages that are
-- skipped go to the front of the list.
module _ (p : Primitives) where
  unfoldable pub skip_while :
      ℕ
      → ℕ
      → Curve25519PublicKey
      → OlmList SkippedMessageKey
      → ChainKey
      → OlmList SkippedMessageKey × ChainKey
  skip_while zero counter ratchet_key keys chain = (keys, chain)
  skip_while (suc fuel) counter ratchet_key keys chain =
      let key : SkippedMessageKey = record {
        ratchet_key = ratchet_key;
        message_key = create_message_keys p chain;
      } in
      let rest =
        skip_while fuel counter ratchet_key (insert_front keys key) (advance_chain_key p chain) in
      if ltb chain.index counter then rest else (keys, chain)

  unfoldable pub verify_mac_and_decrypt_for_existing_chain :
      Ratchet → ChainKey → Received → ℕ → Option Bytes
  verify_mac_and_decrypt_for_existing_chain ratchet chain message max_plaintext_length =
      let new_chain = advance_while p (message.counter - chain.index) message.counter chain in
      let message_key = create_message_keys p new_chain in
      if ltb message.counter chain.index
      then none
      else if ltb max_message_gap (message.counter - chain.index)
      then none
      else verify_mac_and_decrypt ratchet.ratchet_cipher message_key message max_plaintext_length

  -- The root key and the chain for a ratchet key that is not known yet.
  unfoldable pub derive_chain : Ratchet → Bytes → Bytes × ReceiverChain
  derive_chain ratchet ratchet_key =
      let their_key : Curve25519PublicKey = record { public_key = take 32 ratchet_key } in
      let (root_key, chain_key) =
        create_chain_key p ratchet.root_key
          (slot ratchet.sender_chain 0 unset_sender_chain).ratchet_key their_key ratchet.kdf_info in
      (root_key, record { ratchet_key = their_key; chain_key = chain_key })

  unfoldable pub verify_mac_and_decrypt_for_new_chain : Ratchet → Received → ℕ → Option Bytes
  verify_mac_and_decrypt_for_new_chain ratchet message max_plaintext_length =
      let (new_root_key, new_chain) = derive_chain ratchet message.ratchet_key in
      if empty ratchet.sender_chain
      then none
      else if ltb max_message_gap message.counter
      then none
      else verify_mac_and_decrypt_for_existing_chain ratchet new_chain.chain_key message
          max_plaintext_length

  -- The new chain in front, the new root key, and the sender chain wiped and erased.
  unfoldable pub add_chain : Ratchet → Bytes → Ratchet
  add_chain ratchet ratchet_key =
      let (root_key, chain) = derive_chain ratchet ratchet_key in
      let wiped : OlmList SenderChain = record {
        size = ratchet.sender_chain.size;
        data_array = set ratchet.sender_chain.data_array 0 unset_sender_chain;
      } in
      record ratchet {
        root_key = root_key;
        receiver_chains = insert_front ratchet.receiver_chains chain;
        sender_chain = erase wiped 0;
      }

  -- From the loop that stores the skipped keys to the end.
  unfoldable pub finish_chain : Ratchet → ℕ → ℕ → Ratchet
  finish_chain ratchet i counter =
      let chain = slot ratchet.receiver_chains i unset_receiver_chain in
      let (keys, chain_key) =
        skip_while (counter - chain.chain_key.index) counter chain.ratchet_key
          ratchet.skipped_message_keys chain.chain_key in
      let advanced = record chain { chain_key = advance_chain_key p chain_key } in
      record ratchet {
        skipped_message_keys = keys;
        receiver_chains = record {
          size = ratchet.receiver_chains.size;
          data_array = set ratchet.receiver_chains.data_array i advanced;
        };
      }

  -- `result` of a chain, with the ratchet that goes with a success.
  unfoldable pub conclude : Ratchet → Ratchet → Option Bytes → Option Bytes × Ratchet
  conclude ratchet next none = (none, record ratchet { last_error = bad_message_mac })
  conclude ratchet next (some plaintext) = (some plaintext, next)

  unfoldable pub use_skipped : Ratchet → Option (ℕ × Bytes) → Option Bytes × Ratchet
  use_skipped ratchet none = (none, record ratchet { last_error = bad_message_mac })
  use_skipped ratchet (some (i, plaintext)) =
      let keys = ratchet.skipped_message_keys in
      let wiped : OlmList SkippedMessageKey = record {
        size = keys.size;
        data_array = set keys.data_array i unset_skipped_message_key;
      } in
      (some plaintext, record ratchet { skipped_message_keys = erase wiped i })

  unfoldable pub decrypt_with : Ratchet → Received → ℕ → Option ℕ → Option Bytes × Ratchet
  decrypt_with ratchet message max_plaintext_length none =
      conclude ratchet (finish_chain (add_chain ratchet message.ratchet_key) 0 message.counter)
        (verify_mac_and_decrypt_for_new_chain ratchet message max_plaintext_length)
  decrypt_with ratchet message max_plaintext_length (some i) =
      let chain = slot ratchet.receiver_chains i unset_receiver_chain in
      if ltb message.counter chain.chain_key.index
      then use_skipped ratchet (
          try_skipped ratchet.ratchet_cipher (to_list ratchet.skipped_message_keys) message
            max_plaintext_length)
      else conclude ratchet (finish_chain ratchet i message.counter) (
          verify_mac_and_decrypt_for_existing_chain ratchet chain.chain_key message
            max_plaintext_length)

  unfoldable pub decrypt_checked : Ratchet → ℕ → Checked → Option Bytes × Ratchet
  decrypt_checked ratchet max_plaintext_length (rejected error) =
      (none, record ratchet { last_error = error })
  decrypt_checked ratchet max_plaintext_length (accepted message) =
      decrypt_with ratchet message max_plaintext_length
        (find_chain (to_list ratchet.receiver_chains) message.ratchet_key)

  unfoldable pub decrypt_read : Ratchet → ℕ → Option MessageReader → Option Bytes × Ratchet
  decrypt_read ratchet max_plaintext_length none = (none, ratchet)
  decrypt_read ratchet max_plaintext_length (some reader) =
      decrypt_checked ratchet max_plaintext_length
        (check_reader ratchet.ratchet_cipher reader max_plaintext_length)

  -- `_olm_ratchet_decrypt`
  unfoldable pub ratchet_decrypt : Ratchet → Bytes → ℕ → Option Bytes × Ratchet
  ratchet_decrypt ratchet input max_plaintext_length =
      decrypt_read ratchet max_plaintext_length
        (decode_message input ratchet.ratchet_cipher.mac_length)
