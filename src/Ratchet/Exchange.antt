-- ===== src/Ratchet/Exchange.antt =====
-- A message from one ratchet to another.
use libce.Base.{
  ℕ, ◌+◌, ◌^◌, ◌%◌, ◌<◌, ◌≤◌, ◌≡◌, refl, ap, ◌∙◌, sym, true, false, some, ◌++◌, arith, le→ltb_false,
}
use libce.Base.Lists.{length}
use libce.Base.Iterate.{iterate, iterate-zero}
use libce.Base.Bytes.{Bytes}
use libce.Crypto.{Primitives}
use libce.OlmList.{IsValid, capacity, empty, to_list}
use libce.Message.{MessageReader, encode_message, encode_message_length, decode_message}
use libce.Message.RoundTrip.{length-encode_message}
use libce.Cipher.{Cipher, IsCipher}
use libce.Ratchet.{
  ChainKey, ReceiverChain, Ratchet, slot, unset_sender_chain, unset_receiver_chain,
  advance_chain_key, create_message_keys,
}
use libce.Ratchet.Encrypt.{
  encrypt_output_length, encrypt_random_length, write_message, start_sender_chain,
  advance_sender_chain, ratchet_encrypt,
}
use libce.Ratchet.Decrypt.{
  Received, accepted, check_reader, find_chain, verify_mac_and_decrypt, finish_chain, decrypt_with,
  decrypt_checked, decrypt_read, ratchet_decrypt,
}
use libce.Ratchet.Sending.{next_key}
use libce.Ratchet.Following.{Followed, get_or-set, finish_chain-Followed, find_chain-finish_chain}
use libce.Ratchet.Sealing.{Sealed, write_message-Sealed, Sealed-decode}
use libce.Ratchet.Existing.{advance_while-iterate, check_reader-accepts, chain-decrypts}

-- Alice's first sender chain is Bob's receiver chain i, `gap` messages further on.
pub record InStep (p : Primitives) (alice bob : Ratchet) (i gap : ℕ) : Type 0 where
  pub same_cipher : bob.ratchet_cipher ≡ alice.ratchet_cipher
  pub sender_present : empty alice.sender_chain ≡ false
  pub key_sized : length (slot alice.sender_chain 0 unset_sender_chain).ratchet_key.public_key ≡ 32
  pub found :
      find_chain
        (to_list bob.receiver_chains)
        (slot alice.sender_chain 0 unset_sender_chain).ratchet_key.public_key
      ≡ some i
  pub ahead :
      (slot alice.sender_chain 0 unset_sender_chain).chain_key
      ≡ iterate gap
          (advance_chain_key p)
          (slot bob.receiver_chains i unset_receiver_chain).chain_key
  pub near : gap ≤ 2000
  pub index_fits : (slot bob.receiver_chains i unset_receiver_chain).chain_key.index + gap < 2 ^ 32

module _ (p : Primitives) (alice bob : Ratchet) (i gap : ℕ) (step : InStep p alice bob i gap)
    (sealing : IsCipher alice.ratchet_cipher) where
  abbrev sender_key : ChainKey
  sender_key = (slot alice.sender_chain 0 unset_sender_chain).chain_key

  abbrev sender_public : Bytes
  sender_public = (slot alice.sender_chain 0 unset_sender_chain).ratchet_key.public_key

  -- The message that Alice leaves in the output.
  sent : Bytes → Bytes → Bytes
  sent plaintext output =
      write_message alice.ratchet_cipher sender_public (create_message_keys p sender_key) plaintext
        (encode_message_length (create_message_keys p sender_key).index 32
          (alice.ratchet_cipher.encrypt_ciphertext_length (length plaintext))
          alice.ratchet_cipher.mac_length)
        output

  index-sender_key :
      sender_key.index ≡ (slot bob.receiver_chains i unset_receiver_chain).chain_key.index + gap
  index-sender_key =
      ap (λ (k : ChainKey). k.index) step.ahead
      ∙ (advance_while-iterate p gap (slot bob.receiver_chains i unset_receiver_chain).chain_key
          step.index_fits).1

  length-sent :
      (n : ℕ)
      → encrypt_output_length alice n
        ≡ encode_message_length
            (create_message_keys p sender_key).index
            32
            (alice.ratchet_cipher.encrypt_ciphertext_length n)
            alice.ratchet_cipher.mac_length
  unfolding encrypt_output_length create_message_keys
  length-sent n =
      let fits = step.index_fits in
      let e : sender_key.index % 2 ^ 32 ≡ sender_key.index = omega (arith, index-sender_key) in
      rw (step.sender_present, e) refl

  encrypts-sent :
      (plaintext random output : Bytes)
      → encrypt_output_length alice (length plaintext) ≤ length output
      → (ratchet_encrypt p alice plaintext random output).0 ≡ some (sent plaintext output)
  unfolding ratchet_encrypt start_sender_chain encrypt_random_length sent
  encrypts-sent plaintext random output room =
      rw
        (
          step.sender_present,
          le→ltb_false (length random) 0 (omega arith),
          le→ltb_false (length output) (encrypt_output_length alice (length plaintext)) room,
          length-sent (length plaintext),
        )
        refl

  decrypts-sent :
      (plaintext message ciphertext : Bytes) (max_length : ℕ)
      → Sealed alice.ratchet_cipher sealing sender_public
          (create_message_keys p sender_key)
          plaintext
          message
          ciphertext
      → alice.ratchet_cipher.encrypt_ciphertext_length (length plaintext) < 2 ^ 64
      → alice.ratchet_cipher.decrypt_max_plaintext_length
          (alice.ratchet_cipher.encrypt_ciphertext_length (length plaintext))
        ≤ max_length
      → ratchet_decrypt p bob message max_length
        ≡ (some plaintext, finish_chain p bob i sender_key.index)
  unfolding ratchet_decrypt decrypt_read decrypt_checked create_message_keys verify_mac_and_decrypt
  decrypts-sent plaintext message ciphertext max_length s fits max_fits =
      let c = alice.ratchet_cipher in
      let keys = create_message_keys p sender_key in
      let near = step.index_fits in
      let max_fits' : c.decrypt_max_plaintext_length (length ciphertext) ≤ max_length =
        rw s.sized max_fits in
      let received : Received = record {
        counter = sender_key.index;
        input = message;
        ratchet_key = sender_public;
        ciphertext = ciphertext;
      } in
      let reader : MessageReader = record {
        version = 3;
        has_counter = true;
        counter = sender_key.index;
        input = message;
        ratchet_key = some sender_public;
        ciphertext = some ciphertext;
      } in
      let cipher = step.same_cipher in
      let decoded : decode_message message bob.ratchet_cipher.mac_length ≡ some reader =
        ap (λ (c' : Cipher). decode_message message c'.mac_length) cipher
        ∙ Sealed-decode c sealing sender_public keys plaintext message ciphertext s
            (omega (arith, index-sender_key)) (omega (arith, step.key_sized))
            (omega (arith, s.sized)) in
      let checked : check_reader bob.ratchet_cipher reader max_length ≡ accepted received =
        ap (λ (c' : Cipher). check_reader c' reader max_length) cipher
        ∙ check_reader-accepts p bob c sender_key.index max_length message sender_public ciphertext
            step.key_sized max_fits' in
      let opened : verify_mac_and_decrypt bob.ratchet_cipher
            (create_message_keys p (
              iterate gap (advance_chain_key p)
                (slot bob.receiver_chains i unset_receiver_chain).chain_key))
            received max_length
          ≡ some plaintext =
        ap
          (λ (c' : Cipher).
            verify_mac_and_decrypt c'
              (create_message_keys p (
                iterate gap (advance_chain_key p)
                  (slot bob.receiver_chains i unset_receiver_chain).chain_key))
              received max_length)
          cipher
        ∙ ap
            (λ (k : ChainKey).
              verify_mac_and_decrypt c (create_message_keys p k) received max_length)
            (sym step.ahead)
        ∙ s.opens max_length max_fits' in
      ap (decrypt_read p bob max_length) decoded
      ∙ ap (decrypt_checked p bob max_length) checked
      ∙ ap (decrypt_with p bob received max_length) step.found
      ∙ chain-decrypts p bob received i gap max_length plaintext step.index_fits step.near
          index-sender_key opened

  -- The message: what it decodes to, its length, and what Bob makes of it.
  pub ratchet_message :
      (plaintext random output : Bytes) (max_length : ℕ)
      → alice.ratchet_cipher.encrypt_ciphertext_length (length plaintext) < 2 ^ 64
      → encrypt_output_length alice (length plaintext) ≤ length output
      → alice.ratchet_cipher.decrypt_max_plaintext_length
          (alice.ratchet_cipher.encrypt_ciphertext_length (length plaintext))
        ≤ max_length
      → (message ciphertext : Bytes) × ((ratchet_encrypt p alice plaintext random output).0
          ≡ some message)
        × (decode_message message alice.ratchet_cipher.mac_length
            ≡ some (record {
              version = 3;
              has_counter = true;
              counter = (create_message_keys p sender_key).index;
              input = message;
              ratchet_key = some sender_public;
              ciphertext = some ciphertext;
            }))
        × (length message ≡ encrypt_output_length alice (length plaintext))
        × (ratchet_decrypt p bob message max_length
            ≡ (some plaintext, finish_chain p bob i sender_key.index))
  unfolding create_message_keys
  ratchet_message plaintext random output max_length fits room max_fits =
      let keys = create_message_keys p sender_key in
      let near = step.index_fits in
      let (ciphertext, s) =
        write_message-Sealed alice.ratchet_cipher sealing sender_public keys plaintext output
          (rw (← length-sent (length plaintext)) room) in
      let written : sent plaintext output
          ≡ (encode_message 3 keys.index sender_public ciphertext).0 ++ s.mac =
        unfold sent in s.written in
      (
        sent plaintext output,
        ciphertext,
        encrypts-sent plaintext random output room,
        Sealed-decode alice.ratchet_cipher sealing sender_public keys plaintext
            (sent plaintext output) ciphertext (unfold sent in s) (omega (arith, index-sender_key))
            (omega (arith, step.key_sized)) (omega (arith, s.sized)),
        ap length written
            ∙ length-encode_message 3 keys.index sender_public ciphertext s.mac
                (omega (arith, index-sender_key)) (omega (arith, step.key_sized))
                (omega (arith, s.sized))
            ∙ rw (length-sent (length plaintext), step.key_sized, s.sized, s.mac_sized) refl,
        decrypts-sent plaintext (sent plaintext output) ciphertext max_length (unfold sent in s)
            fits max_fits,
      )

  encrypts-after :
      (plaintext random output : Bytes)
      → encrypt_output_length alice (length plaintext) ≤ length output
      → (ratchet_encrypt p alice plaintext random output).1 ≡ advance_sender_chain p alice
  unfolding ratchet_encrypt start_sender_chain encrypt_random_length
  encrypts-after plaintext random output room =
      rw
        (
          step.sender_present,
          le→ltb_false (length random) 0 (omega arith),
          le→ltb_false (length output) (encrypt_output_length alice (length plaintext)) room,
        )
        refl

  -- Alice's chain after the message.
  advanced-slot :
      0 < capacity alice.sender_chain
      → slot (advance_sender_chain p alice).sender_chain 0 unset_sender_chain
        ≡ record (slot alice.sender_chain 0 unset_sender_chain) {
          chain_key = advance_chain_key p sender_key;
        }
  unfolding advance_sender_chain slot
  advanced-slot room = get_or-set alice.sender_chain.data_array 0 _ unset_sender_chain room

  finish_chain-Followed_sent :
      IsValid bob.skipped_message_keys
      → 0 < capacity bob.skipped_message_keys
      → Followed p bob i gap (finish_chain p bob i sender_key.index)
  finish_chain-Followed_sent ok room =
      rw index-sender_key
        (finish_chain-Followed p bob i gap sender_public step.found step.index_fits ok room)

  -- Bob's chain after the message is Alice's.
  same_chain_key :
      (f : Followed p bob i gap (finish_chain p bob i sender_key.index))
      → f.moved.chain_key ≡ advance_chain_key p sender_key
  unfolding advance_chain_key
  same_chain_key f =
      ap (λ (c : ReceiverChain). c.chain_key) f.further
      ∙ ap (λ (c : ReceiverChain). next_key p (iterate gap (advance_chain_key p) c.chain_key))
          f.found
      ∙ ap (next_key p) (sym step.ahead)

  stays-InStep :
      0 < capacity alice.sender_chain
      → Followed p bob i gap (finish_chain p bob i sender_key.index)
      → InStep p (advance_sender_chain p alice) (finish_chain p bob i sender_key.index) i 0
  stays-InStep room f =
      let slots = advanced-slot room in
      let same = same_chain_key f in
      let bobs : (slot (finish_chain p bob i sender_key.index).receiver_chains i
            unset_receiver_chain).chain_key
          ≡ advance_chain_key p sender_key =
        ap (λ (c : ReceiverChain). c.chain_key) f.written ∙ same in
      record {
        same_cipher =
            ap (λ (r : Ratchet). r.ratchet_cipher) f.kept
            ∙ step.same_cipher
            ∙ unfold advance_sender_chain in refl;
        sender_present = unfold advance_sender_chain empty in step.sender_present;
        key_sized = rw slots step.key_sized;
        found = rw slots (
            find_chain-finish_chain p bob i gap sender_public step.found step.index_fits
              sender_key.index);
        ahead = rw (slots, bobs) (sym (iterate-zero (advance_chain_key p) _));
        near = omega arith;
        index_fits = rw bobs (unfold advance_chain_key in omega arith);
      }

  -- With a cipher that keeps its promises, what Alice encrypts on a chain that Bob has, Bob decrypts,
  -- even when up to 2000 messages before it have not arrived. Then his chain stands at the number after
  -- the message's (of 32 bits), where Alice's next message is; the keys of the missing messages are
  -- stored in front of the others, as far as there is room, and nothing else of his ratchet changes. The
  -- output and the plaintext buffer are large enough, the ciphertext has a length of 64 bits, Alice's
  -- array has a place for her chain, and Bob's skipped keys are inside an array that is not empty.
  pub ratchet_decrypt-ratchet_encrypt :
      (plaintext random output : Bytes) (max_length : ℕ)
      → alice.ratchet_cipher.encrypt_ciphertext_length (length plaintext) < 2 ^ 64
      → encrypt_output_length alice (length plaintext) ≤ length output
      → alice.ratchet_cipher.decrypt_max_plaintext_length
          (alice.ratchet_cipher.encrypt_ciphertext_length (length plaintext))
        ≤ max_length
      → 0 < capacity alice.sender_chain
      → IsValid bob.skipped_message_keys
      → 0 < capacity bob.skipped_message_keys
      → (message : Bytes) × (alice_after : Ratchet) × (bob_after : Ratchet) × (ratchet_encrypt p
            alice plaintext random output
          ≡ (some message, alice_after))
        × (ratchet_decrypt p bob message max_length ≡ (some plaintext, bob_after))
        × Followed p bob i gap bob_after
        × InStep p alice_after bob_after i 0
  ratchet_decrypt-ratchet_encrypt plaintext random output max_length fits room max_fits sender_room
        ok skipped_room =
      let (message, ciphertext, encrypted, decodes, sized, decrypted) =
        ratchet_message plaintext random output max_length fits room max_fits in
      let f = finish_chain-Followed_sent ok skipped_room in
      (
        message,
        advance_sender_chain p alice,
        finish_chain p bob i sender_key.index,
        rw (← encrypted, ← encrypts-after plaintext random output room) refl,
        decrypted,
        f,
        stays-InStep sender_room f,
      )
