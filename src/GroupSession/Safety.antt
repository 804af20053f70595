-- ===== src/GroupSession/Safety.antt =====
-- What any message can do to an inbound session.
use libce.Base.{
  ℕ, ◌+◌, ◌-◌, ◌%◌, ◌^◌, ◌≡◌, refl, ap, true, Option, none, some, ◌⊎◌, inl, inr, ltb, ◌==◌,
  Bool-cases, Option-cases,
}
use libce.Base.Lists.{length, take, drop}
use libce.Base.Bytes.{Bytes}
use libce.Base64.{decode_base64}
use libce.Crypto.{Primitives, ed25519_verify}
use libce.Message.{DecodeGroupMessageResults, decode_group_message}
use libce.Megolm.{Megolm}
use libce.GroupSession.{megolm_cipher, olm_protocol_version}
use libce.GroupSession.Inbound.{
  InboundGroupSession, get_megolm, decrypted, decrypt_with_megolm, decrypt_verified,
  decrypt_results, group_decrypt_decoded, group_decrypt,
}

-- The last 64 bytes of the decoded message are a signature of the rest.
unfoldable pub IsSigned : Primitives → InboundGroupSession → Bytes → Type 0
IsSigned p session raw =
    ed25519_verify p session.signing_key (take (length raw - 64) raw)
      (take 64 (drop (length raw - 64) raw))
    ≡ true

-- The ratchet and the key the session was given are still there; without a plaintext the flag is as
-- it was, and with one `Good` holds.
pub record Outcome (Good : Type 0) (before : InboundGroupSession) (plaintext : Option Bytes)
    (after : InboundGroupSession) : Type 0 where
  pub initial_kept : after.initial_ratchet ≡ before.initial_ratchet
  pub key_kept : after.signing_key ≡ before.signing_key
  pub verdict :
      ((plaintext ≡ none) × (after.signing_key_verified ≡ before.signing_key_verified))
      ⊎ (Good × (after.signing_key_verified ≡ true))

module _ (p : Primitives) (Good : Type 0) where
  get_megolm-Outcome :
      (session : InboundGroupSession) (message_index : ℕ)
      → Outcome Good session none (get_megolm p session message_index).1
  unfolding get_megolm
  get_megolm-Outcome session message_index =
      elim (Bool-cases
        (ltb ((message_index + 2 ^ 32 - session.latest_ratchet.counter) % 2 ^ 32) (2 ^ 31))) [
          | inl e ↦
              rw e (record { initial_kept = refl; key_kept = refl; verdict = inl (refl, refl) })
          | inr e ↦
              rw e
                (elim (Bool-cases (
                  ltb ((message_index + 2 ^ 32 - session.initial_ratchet.counter) % 2 ^ 32)
                    (2 ^ 31))) [
                      | inl e' ↦ rw e' (record {
                        initial_kept = refl;
                        key_kept = refl;
                        verdict = inl (refl, refl);
                      })
                      | inr e' ↦ rw e' (record {
                        initial_kept = refl;
                        key_kept = refl;
                        verdict = inl (refl, refl);
                      })
                    ])
        ]

  -- Once the message is known to be good.
  decrypted-Outcome :
      (before session : InboundGroupSession) (result : Option Bytes)
      → Good
      → Outcome Good before none session
      → Outcome Good before (decrypted p session result).0 (decrypted p session result).1
  unfolding decrypted
  decrypted-Outcome before session none good o = record {
    initial_kept = o.initial_kept;
    key_kept = o.key_kept;
    verdict = o.verdict;
  }
  decrypted-Outcome before session (some plaintext) good o = record {
    initial_kept = o.initial_kept;
    key_kept = o.key_kept;
    verdict = inr (good, refl);
  }

  decrypt_with_megolm-Outcome :
      (before : InboundGroupSession) (signed ciphertext : Bytes) (max_length : ℕ)
      (found : Option Megolm × InboundGroupSession)
      → Good
      → Outcome Good before none found.1
      → Outcome Good before
          (decrypt_with_megolm p signed ciphertext max_length found).0
          (decrypt_with_megolm p signed ciphertext max_length found).1
  unfolding decrypt_with_megolm
  decrypt_with_megolm-Outcome before signed ciphertext max_length (none, session) good o = o
  decrypt_with_megolm-Outcome before signed ciphertext max_length (some m, session) good o =
      decrypted-Outcome before session _ good o

  -- Nothing but the error changes.
  refused-Outcome :
      (session after : InboundGroupSession)
      → after ≡ record session { last_error = after.last_error }
      → Outcome Good session none after
  refused-Outcome session after e = record {
    initial_kept = ap (λ (s : InboundGroupSession). s.initial_ratchet) e;
    key_kept = ap (λ (s : InboundGroupSession). s.signing_key) e;
    verdict = inl (refl, ap (λ (s : InboundGroupSession). s.signing_key_verified) e);
  }

module _ (p : Primitives) (session : InboundGroupSession) (raw : Bytes) (max_length : ℕ) where
  decrypt_verified-Outcome :
      (message_index : ℕ) (ciphertext : Bytes)
      → Outcome
          (IsSigned p session raw)
          session
          (decrypt_verified p session raw message_index ciphertext max_length).0
          (decrypt_verified p session raw message_index ciphertext max_length).1
  unfolding decrypt_verified
  decrypt_verified-Outcome message_index ciphertext =
      let signed = take (length raw - 64) raw in
      let signature = take 64 (drop (length raw - 64) raw) in
      let Good = IsSigned p session raw in
      elim (Bool-cases (ed25519_verify p session.signing_key signed signature)) [
        | inl good ↦
            rw good
              (elim (Bool-cases (
                ltb max_length
                  ((megolm_cipher p).decrypt_max_plaintext_length (length ciphertext)))) [
                    | inl e ↦ rw e (refused-Outcome p Good session _ refl)
                    | inr e ↦ rw e (
                        decrypt_with_megolm-Outcome p Good session signed ciphertext max_length
                          (get_megolm p session message_index) (unfold IsSigned in good)
                          (get_megolm-Outcome p Good session message_index))
                  ])
        | inr bad ↦ rw bad (refused-Outcome p Good session _ refl)
      ]

  decrypt_results-Outcome :
      (results : Option DecodeGroupMessageResults)
      → Outcome
          (IsSigned p session raw)
          session
          (decrypt_results p session raw max_length results).0
          (decrypt_results p session raw max_length results).2
  unfolding decrypt_results
  decrypt_results-Outcome none = refused-Outcome p (IsSigned p session raw) session _ refl
  decrypt_results-Outcome (some r) =
      let Good = IsSigned p session raw in
      elim (Bool-cases (r.version == olm_protocol_version)) [
        | inl e ↦ elim (Bool-cases r.has_message_index) [
          | inl e' ↦ elim (Option-cases r.ciphertext) [
            | inl e'' ↦ rw (e, e', e'') (refused-Outcome p Good session _ refl)
            | inr (text, e'') ↦ rw (e, e', e'') (decrypt_verified-Outcome r.message_index text)
          ]
          | inr e' ↦ rw (e, e') (refused-Outcome p Good session _ refl)
        ]
        | inr e ↦ rw e (refused-Outcome p Good session _ refl)
      ]

-- Whatever the message: the session keeps the ratchet and the signing key that it was given. If no
-- plaintext comes out, the session is not marked as verified by it; if one does, the message is base64
-- of bytes whose last 64 are a signature of the others that the session's key accepts, and the session
-- counts as verified.
pub group_decrypt-Outcome :
    (p : Primitives) (session : InboundGroupSession) (message : Bytes) (max_length : ℕ)
    → Outcome
        ((n : ℕ) × (raw : Bytes) × (decode_base64 message ≡ some (n, raw)) × IsSigned p session raw)
        session
        (group_decrypt p session message max_length).0
        (group_decrypt p session message max_length).2
unfolding group_decrypt group_decrypt_decoded
group_decrypt-Outcome p session message max_length = elim (Option-cases (decode_base64 message)) [
  | inl e ↦ rw e (refused-Outcome p _ session _ refl)
  | inr ((n, raw), e) ↦
      let o =
        decrypt_results-Outcome p session raw max_length
          (decode_group_message raw (megolm_cipher p).mac_length 64) in
      rw e (record {
        initial_kept = o.initial_kept;
        key_kept = o.key_kept;
        verdict = elim o.verdict [
          | inl same ↦ inl same
          | inr (signed, verified) ↦ inr ((n, raw, refl, signed), verified)
        ];
      })
]
