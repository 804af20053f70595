-- ===== src/Ratchet/Encrypt.antt =====
-- src/ratchet.c: the length of an encrypted message, and `_olm_ratchet_encrypt`.
-- `output` is the buffer before the call; a result is the message that the call leaves at its front.
use libce.Base.{ℕ, ◌+◌, ◌-◌, ◌%◌, ◌^◌, Option, none, some, ◌++◌, ltb, if◌then◌else◌}
use libce.Base.Lists.{length, take, drop, set}
use libce.Base.Bytes.{Bytes}
use libce.Crypto.{Primitives, curve25519_generate_key}
use libce.OlmList.{empty, insert_front}
use libce.Error.{not_enough_random, output_buffer_too_small}
use libce.Message.{encode_message_length, encode_message}
use libce.Cipher.{Cipher}
use libce.Ratchet.{
  MessageKey, Ratchet, slot, unset_sender_chain, unset_receiver_chain, protocol_version,
  create_chain_key, advance_chain_key, create_message_keys,
}

unfoldable pub encrypt_output_length : Ratchet → ℕ → ℕ
encrypt_output_length ratchet plaintext_length =
    let counter =
      if empty ratchet.sender_chain
      then 0
      else (slot ratchet.sender_chain 0 unset_sender_chain).chain_key.index in
    let padded = ratchet.ratchet_cipher.encrypt_ciphertext_length plaintext_length in
    encode_message_length (counter % 2 ^ 32) 32 padded ratchet.ratchet_cipher.mac_length

unfoldable pub encrypt_random_length : Ratchet → ℕ
encrypt_random_length ratchet = if empty ratchet.sender_chain then 32 else 0

-- The result of `ops->encrypt` is not looked at: on an error the buffer is as it was.
unfoldable pub output_after : Bytes → Option Bytes → Bytes
output_after output none = output
output_after output (some written) = written

-- From `_olm_encode_message` on: the message in the buffer, sealed with the message key.
unfoldable pub write_message : Cipher → Bytes → MessageKey → Bytes → ℕ → Bytes → Bytes
write_message cipher ratchet_key keys plaintext output_length output =
    let ciphertext_length = cipher.encrypt_ciphertext_length (length plaintext) in
    let ciphertext_at = output_length - cipher.mac_length - ciphertext_length in
    let region = take ciphertext_length (drop ciphertext_at output) in
    let tail = take cipher.mac_length (drop (ciphertext_at + ciphertext_length) output) in
    let (message, writer) = encode_message protocol_version keys.index ratchet_key region in
    output_after (message ++ tail)
      (cipher.encrypt keys.key plaintext ciphertext_length (message ++ tail) writer.ciphertext)

module _ (p : Primitives) where
  -- `if (_olm_list_empty(&ratchet->sender_chain))`: a new ratchet key and its chain.
  unfoldable pub start_sender_chain : Ratchet → Bytes → Ratchet
  start_sender_chain ratchet random =
      let ratchet_key = curve25519_generate_key p random in
      let (root_key, chain_key) =
        create_chain_key p ratchet.root_key ratchet_key
          (slot ratchet.receiver_chains 0 unset_receiver_chain).ratchet_key ratchet.kdf_info in
      if empty ratchet.sender_chain
      then record ratchet {
        root_key = root_key;
        sender_chain =
            insert_front ratchet.sender_chain
              (record { ratchet_key = ratchet_key; chain_key = chain_key });
      }
      else ratchet

  -- The first slot of the sender chains, with its chain key advanced.
  unfoldable pub advance_sender_chain : Ratchet → Ratchet
  advance_sender_chain ratchet =
      let chain = slot ratchet.sender_chain 0 unset_sender_chain in
      let advanced = record chain { chain_key = advance_chain_key p chain.chain_key } in
      record ratchet {
        sender_chain = record {
          size = ratchet.sender_chain.size;
          data_array = set ratchet.sender_chain.data_array 0 advanced;
        };
      }

  unfoldable pub ratchet_encrypt : Ratchet → Bytes → Bytes → Bytes → Option Bytes × Ratchet
  ratchet_encrypt ratchet plaintext random output =
      let output_length = encrypt_output_length ratchet (length plaintext) in
      let started = start_sender_chain ratchet random in
      let chain = slot started.sender_chain 0 unset_sender_chain in
      let keys = create_message_keys p chain.chain_key in
      let message =
        write_message ratchet.ratchet_cipher chain.ratchet_key.public_key keys plaintext
          output_length output in
      if ltb (length random) (encrypt_random_length ratchet)
      then (none, record ratchet { last_error = not_enough_random })
      else if ltb (length output) output_length
      then (none, record ratchet { last_error = output_buffer_too_small })
      else (some message, advance_sender_chain started)
