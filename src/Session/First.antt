-- ===== src/Session/First.antt =====
-- A session is set up by its first message.
use libce.Base.{ℕ, ◌^◌, ◌≤◌, ◌<◌, ◌≡◌, refl, some, none, Option}
use libce.Base.Lists.{length}
use libce.Base.Bytes.{Bytes}
use libce.Crypto.{Primitives, aes_encrypt_cbc_length}
use libce.Crypto.Aes.{IsCbc}
use libce.Crypto.Outputs.{IsX25519, IsHmac}
use libce.Ratchet.Encrypt.{encrypt_output_length}
use libce.Account.{Account, OneTimeKey}
use libce.Session.{
  Session, pre_key, message, session_encrypt_message_type, session_encrypt_message_length,
  session_id, session_encrypt, session_decrypt,
}
use libce.Session.Start.{new_outbound_session, new_inbound_session}
use libce.Session.Exchange.{Meets, starts, joined, first_message}

-- Alice's session with Bob's identity key and one-time key.
abbrev pub outbound :
    Primitives → Session → Account → Account → OneTimeKey → Bytes → Option ℕ × Session
outbound p alice account_a account_b one_time random =
    new_outbound_session p alice account_a
      (record { public_key = account_b.identity_keys.curve25519_key.public_key })
      (record { public_key = one_time.key.public_key }) random

-- Over the equations of CBC and X25519 and an HMAC of 32 bytes, for sessions that are initialised with
-- the same cipher and not started, key pairs that match, and an account of Bob that has the one-time
-- key: Alice starts a session and encrypts; from the message alone Bob's account starts a session that
-- decrypts it. Both sessions then have the same id, and Bob's answers are no longer pre-key messages. The
-- random bytes and buffers are long enough, and the lengths have 64 bits.
pub session_decrypt-first_message :
    (p : Primitives) (cbc : IsCbc p) (hmac : IsHmac p) (x25519 : IsX25519 p) (alice bob : Session)
    (account_a account_b : Account) (one_time : OneTimeKey) (random plaintext more output : Bytes)
    (max_length : ℕ)
    → Meets p alice bob account_a account_b one_time
    → 64 ≤ length random
    → aes_encrypt_cbc_length (length plaintext) < 2 ^ 64
    → encrypt_output_length
        (outbound p alice account_a account_b one_time random).1.ratchet
        (length plaintext)
      < 2 ^ 64
    → session_encrypt_message_length
        (outbound p alice account_a account_b one_time random).1
        (length plaintext)
      ≤ length output
    → aes_encrypt_cbc_length (length plaintext) ≤ max_length
    → ((outbound p alice account_a account_b one_time random).0 ≡ some 0)
      × ((sent : Bytes) × (inbound : Session) × ((session_encrypt p
              (outbound p alice account_a account_b one_time random).1
              plaintext
              more
              output).0
            ≡ some sent)
          × (new_inbound_session p bob account_b none sent ≡ some (some 0, inbound))
          × ((session_decrypt p inbound pre_key sent max_length).0 ≡ some plaintext)
          × (session_encrypt_message_type (session_decrypt p inbound pre_key sent max_length).1
              ≡ message)
          × ((session_id p inbound 32).0
              ≡ (session_id p (outbound p alice account_a account_b one_time random).1 32).0))
unfolding session_encrypt_message_type session_id
session_decrypt-first_message p cbc hmac x25519 alice bob account_a account_b one_time random
      plaintext more output max_length meets enough text_fits fits room max_fits =
    let e = starts p cbc hmac x25519 alice bob account_a account_b one_time meets random enough in
    let (sent, encrypted, joins, decrypted, received) =
      first_message p cbc hmac x25519 alice bob account_a account_b one_time meets random plaintext
        more output max_length text_fits (rw e at fits) (rw e at room) max_fits in
    (
      rw e refl,
      (
        sent,
        joined p cbc hmac x25519 alice bob account_a account_b one_time meets random,
        rw e encrypted,
        joins,
        decrypted,
        rw received refl,
        rw e refl,
      ),
    )
