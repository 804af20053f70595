-- ===== src/Ratchet/Errors.antt =====
-- What a call that fails leaves of the ratchet.
use libce.Base.{ℕ, ltb→lt, ◌<◌, ◌≡◌, refl, Option, none, some, ltb, Bool-cases, inl, inr, ◌⊎◌}
use libce.Base.Lists.{length}
use libce.Base.Bytes.{Bytes}
use libce.Crypto.{Primitives}
use libce.OlmList.{to_list}
use libce.Error.{OlmErrorCode, bad_message_mac, not_enough_random, output_buffer_too_small}
use libce.Message.{MessageReader, decode_message}
use libce.Ratchet.{Ratchet, slot, unset_receiver_chain}
use libce.Ratchet.Encrypt.{ratchet_encrypt, encrypt_random_length, encrypt_output_length}
use libce.Ratchet.Decrypt.{
  Received, Checked, rejected, accepted, check_reader, find_chain, try_skipped, conclude,
  use_skipped, decrypt_with, decrypt_checked, decrypt_read, ratchet_decrypt, finish_chain,
  add_chain, verify_mac_and_decrypt_for_new_chain, verify_mac_and_decrypt_for_existing_chain,
}

-- The result of a call on `r`: if there is none, only the last error of `r` has changed.
pub FailsCleanly : {A : Type 0} → Ratchet → Option A × Ratchet → Type 0
FailsCleanly r result =
    result.0 ≡ none → (e : OlmErrorCode) × (result.1 ≡ record r { last_error = e })

pub some_not_none : {A : Type 0} {x : A} {B : Type 0} → some x ≡ none → B
some_not_none h = absurd (cc)

module _ (p : Primitives) (r : Ratchet) where
  conclude-FailsCleanly :
      (next : Ratchet) (result : Option Bytes) → FailsCleanly r (conclude p r next result)
  unfolding conclude FailsCleanly
  conclude-FailsCleanly next none h = (bad_message_mac, refl)
  conclude-FailsCleanly next (some plaintext) h = some_not_none h

  use_skipped-FailsCleanly : (found : Option (ℕ × Bytes)) → FailsCleanly r (use_skipped p r found)
  unfolding use_skipped FailsCleanly
  use_skipped-FailsCleanly none h = (bad_message_mac, refl)
  use_skipped-FailsCleanly (some (i, plaintext)) h = some_not_none h

  decrypt_with-FailsCleanly :
      (message : Received) (max_length : ℕ) (found : Option ℕ)
      → FailsCleanly r (decrypt_with p r message max_length found)
  unfolding decrypt_with
  decrypt_with-FailsCleanly message max_length none =
      conclude-FailsCleanly (finish_chain p (add_chain p r message.ratchet_key) 0 message.counter)
        (verify_mac_and_decrypt_for_new_chain p r message max_length)
  decrypt_with-FailsCleanly message max_length (some i) =
      let chain = slot r.receiver_chains i unset_receiver_chain in
      elim (Bool-cases (ltb message.counter chain.chain_key.index)) [
        | inl e ↦ rw e (
            use_skipped-FailsCleanly
              (try_skipped r.ratchet_cipher (to_list r.skipped_message_keys) message max_length))
        | inr e ↦ rw e (
            conclude-FailsCleanly (finish_chain p r i message.counter)
              (verify_mac_and_decrypt_for_existing_chain p r chain.chain_key message max_length))
      ]

  decrypt_checked-FailsCleanly :
      (max_length : ℕ) (checked : Checked) → FailsCleanly r (decrypt_checked p r max_length checked)
  unfolding decrypt_checked FailsCleanly
  decrypt_checked-FailsCleanly max_length (rejected error) h = (error, refl)
  decrypt_checked-FailsCleanly max_length (accepted message) h =
      decrypt_with-FailsCleanly message max_length
        (find_chain (to_list r.receiver_chains) message.ratchet_key) h

  decrypt_read-FailsCleanly :
      (max_length : ℕ) (reader : Option MessageReader)
      → FailsCleanly r (decrypt_read p r max_length reader)
  unfolding decrypt_read FailsCleanly
  decrypt_read-FailsCleanly max_length none h = (r.last_error, refl)
  decrypt_read-FailsCleanly max_length (some reader) h =
      decrypt_checked-FailsCleanly max_length (check_reader r.ratchet_cipher reader max_length) h

  -- A message that is not decrypted, for whatever reason, changes nothing of the ratchet but its
  -- last error.
  pub ratchet_decrypt-FailsCleanly :
      (input : Bytes) (max_length : ℕ)
      → (ratchet_decrypt p r input max_length).0 ≡ none
      → (e : OlmErrorCode) × ((ratchet_decrypt p r input max_length).1
          ≡ record r { last_error = e })
  unfolding ratchet_decrypt FailsCleanly
  ratchet_decrypt-FailsCleanly input max_length =
      decrypt_read-FailsCleanly max_length (decode_message input r.ratchet_cipher.mac_length)

  -- An encryption that fails changes nothing of the ratchet but its last error, which says that
  -- the random bytes or the output buffer are too few; and one of them is.
  pub ratchet_encrypt-FailsCleanly :
      (plaintext random output : Bytes)
      → (ratchet_encrypt p r plaintext random output).0 ≡ none
      → ((length random < encrypt_random_length r)
          × ((ratchet_encrypt p r plaintext random output).1
              ≡ record r { last_error = not_enough_random }))
        ⊎ ((length output < encrypt_output_length r (length plaintext))
            × ((ratchet_encrypt p r plaintext random output).1
                ≡ record r { last_error = output_buffer_too_small }))
  unfolding ratchet_encrypt
  ratchet_encrypt-FailsCleanly plaintext random output =
      elim (Bool-cases (ltb (length random) (encrypt_random_length r))) [
        | inl e ↦ rw e (λ h. inl (ltb→lt _ _ e, refl))
        | inr e ↦
            rw e
              (elim (Bool-cases
                (ltb (length output) (encrypt_output_length r (length plaintext)))) [
                  | inl f ↦ rw f (λ h. inr (ltb→lt _ _ f, refl))
                  | inr f ↦ rw f (λ h. some_not_none h)
                ])
      ]
