-- ===== src/Session/Errors.antt =====
-- A decryption that fails leaves the session usable.
use libce.Base.{◌≡◌, refl, ap, ◌∙◌, sym, none, some, Option, ℕ, Option-cases, inl, inr}
use libce.Base.Bytes.{Bytes}
use libce.Error.{OlmErrorCode, success, bad_message_format}
use libce.Crypto.{Primitives}
use libce.Ratchet.{Ratchet}
use libce.Ratchet.Decrypt.{ratchet_decrypt}
use libce.Ratchet.Errors.{some_not_none, ratchet_decrypt-FailsCleanly}
use libce.Session.{
  Session, MessageType, take_error, conclude_decrypt, message_body, session_decrypt,
}

module _ (p : Primitives) (session : Session)
    (no_error : session.ratchet.last_error ≡ success) where
  conclude-FailsCleanly :
      (body : Bytes) (max_length : ℕ) (result : Option Bytes × Ratchet)
      → ratchet_decrypt p session.ratchet body max_length ≡ result
      → (conclude_decrypt p session result).0 ≡ none
      → (e : OlmErrorCode) × ((conclude_decrypt p session result).1
          ≡ record session { last_error = e })
  unfolding conclude_decrypt take_error
  conclude-FailsCleanly body max_length (none, ratchet) h fails =
      let (e, same) =
        ratchet_decrypt-FailsCleanly p session.ratchet body max_length
          (ap (λ (r : Option Bytes × Ratchet). r.0) h) in
      let left : ratchet ≡ record session.ratchet { last_error = e } =
        sym (ap (λ (r : Option Bytes × Ratchet). r.1) h) ∙ same in
      (
        e,
        ap (take_error session) left
            ∙ ap
                (λ error. record session {
                  last_error = e;
                  ratchet = record session.ratchet { last_error = error };
                })
                (sym no_error),
      )
  conclude-FailsCleanly body max_length (some plaintext, ratchet) h fails = some_not_none fails

  -- A decryption without a result, of a session whose ratchet has no error pending, changes only the
  -- last error of the session; that of the ratchet is none again.
  pub session_decrypt-FailsCleanly :
      (type : MessageType) (bytes : Bytes) (max_length : ℕ)
      → (session_decrypt p session type bytes max_length).0 ≡ none
      → (e : OlmErrorCode) × ((session_decrypt p session type bytes max_length).1
          ≡ record session { last_error = e })
  unfolding session_decrypt
  session_decrypt-FailsCleanly type bytes max_length =
      elim (Option-cases (message_body type bytes)) [
        | inl missing ↦ rw missing (λ h. (bad_message_format, refl))
        | inr (body, found) ↦ rw found (
            conclude-FailsCleanly body max_length
              (ratchet_decrypt p session.ratchet body max_length) refl)
      ]
