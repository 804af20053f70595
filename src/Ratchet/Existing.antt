-- ===== src/Ratchet/Existing.antt =====
-- A message on a chain that the ratchet has: the loop that advances the chain, and the tests.
use libce.Base.{
  ℕ, zero, suc, ◌+◌, ◌-◌, ◌^◌, ◌<◌, ◌≤◌, ◌≡◌, refl, sym, true, some, arith, le→ltb_false, lt→ltb,
}
use libce.Base.Lists.{length}
use libce.Base.Iterate.{iterate, iterate-zero, iterate_shift}
use libce.Base.Bytes.{Bytes}
use libce.Crypto.{Primitives}
use libce.Cipher.{Cipher}
use libce.Ratchet.{
  ChainKey, Ratchet, slot, unset_receiver_chain, advance_chain_key, create_message_keys,
  advance_while,
}
use libce.Ratchet.Decrypt.{
  Received, accepted, check_fields, check_reader, verify_mac_and_decrypt,
  verify_mac_and_decrypt_for_existing_chain, finish_chain, conclude, decrypt_with,
}

module _ (p : Primitives) where
  -- The loop stops at the counter, after as many steps as it lies ahead.
  pub advance_while-iterate :
      (n : ℕ) (chain : ChainKey)
      → chain.index + n < 2 ^ 32
      → (advance_while p n (chain.index + n) chain ≡ iterate n (advance_chain_key p) chain)
        × ((iterate n (advance_chain_key p) chain).index ≡ chain.index + n)
  unfolding advance_while
  advance_while-iterate zero chain h = (
    sym (iterate-zero (advance_chain_key p) chain),
    rw (iterate-zero (advance_chain_key p) chain) (omega arith),
  )
  advance_while-iterate (suc n) chain h =
      let next = advance_chain_key p chain in
      let step : next.index ≡ chain.index + 1 = unfold advance_chain_key in omega arith in
      let e : chain.index + suc n ≡ next.index + n = omega arith in
      let (same, index) = advance_while-iterate n next (omega arith) in
      let shift = iterate_shift n (advance_chain_key p) chain in
      (
        rw (lt→ltb chain.index (chain.index + suc n) (omega arith), e, same) (sym shift),
        rw (shift, e) index,
      )

-- A message that passes the tests, on a chain that is `gap` steps behind its counter.
module _ (p : Primitives) (bob : Ratchet) where
  pub existing_chain-opens :
      (chain : ChainKey) (message : Received) (gap max_length : ℕ)
      → chain.index + gap < 2 ^ 32
      → gap ≤ 2000
      → message.counter ≡ chain.index + gap
      → verify_mac_and_decrypt_for_existing_chain p bob chain message max_length
        ≡ verify_mac_and_decrypt bob.ratchet_cipher
            (create_message_keys p (iterate gap (advance_chain_key p) chain))
            message
            max_length
  unfolding verify_mac_and_decrypt_for_existing_chain
  existing_chain-opens chain message gap max_length fits near e =
      let d : message.counter - chain.index ≡ gap = omega arith in
      rw
        (
          d,
          e,
          le→ltb_false (chain.index + gap) chain.index (omega arith),
          le→ltb_false 2000 gap near,
          (advance_while-iterate p gap chain fits).0,
        )
        refl

  pub check_reader-accepts :
      (c : Cipher) (counter max_length : ℕ) (input ratchet_key ciphertext : Bytes)
      → length ratchet_key ≡ 32
      → c.decrypt_max_plaintext_length (length ciphertext) ≤ max_length
      → check_reader c
          (record {
            version = 3;
            has_counter = true;
            counter = counter;
            input = input;
            ratchet_key = some ratchet_key;
            ciphertext = some ciphertext;
          })
          max_length
        ≡ accepted (record {
          counter = counter;
          input = input;
          ratchet_key = ratchet_key;
          ciphertext = ciphertext;
        })
  unfolding check_reader check_fields
  check_reader-accepts c counter max_length input ratchet_key ciphertext hk room =
      rw (le→ltb_false max_length (c.decrypt_max_plaintext_length (length ciphertext)) room, hk)
        refl

  pub chain-decrypts :
      (message : Received) (i gap max_length : ℕ) (plaintext : Bytes)
      → (slot bob.receiver_chains i unset_receiver_chain).chain_key.index + gap < 2 ^ 32
      → gap ≤ 2000
      → message.counter ≡ (slot bob.receiver_chains i unset_receiver_chain).chain_key.index + gap
      → verify_mac_and_decrypt bob.ratchet_cipher
          (create_message_keys p (
            iterate gap
              (advance_chain_key p)
              (slot bob.receiver_chains i unset_receiver_chain).chain_key))
          message
          max_length
        ≡ some plaintext
      → decrypt_with p bob message max_length (some i)
        ≡ (some plaintext, finish_chain p bob i message.counter)
  unfolding decrypt_with conclude
  chain-decrypts message i gap max_length plaintext fits near e opens =
      let chain = (slot bob.receiver_chains i unset_receiver_chain).chain_key in
      rw
        (
          le→ltb_false message.counter chain.index (omega arith),
          existing_chain-opens chain message gap max_length fits near e,
          opens,
        )
        refl
