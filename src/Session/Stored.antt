-- ===== src/Session/Stored.antt =====
-- src/session.c: the pickle of a session.
use libce.Base.{
  ℕ, ◌+◌, ◌^◌, Bool, true, false, Option, none, some, ◌⊎◌, inl, inr, ◌==◌, if◌then◌else◌,
}
use libce.Base.Maybe.{◌>>=◌}
use libce.Base.Bytes.{Bytes}
use libce.Error.{OlmErrorCode, unknown_pickle_version}
use libce.Pickle.{
  pickle_uint32, unpickle_uint32, pickle_bool, unpickle_bool, pickle_curve25519_public_key_length,
  pickle_curve25519_public_key, unpickle_curve25519_public_key,
}
use libce.Crypto.{Primitives}
use libce.Ratchet.Pickled.{ratchet_pickle_length, ratchet_pickle, ratchet_unpickle}
use libce.Session.{Session, session_init}

abbrev pub session_pickle_version : ℕ
session_pickle_version = 1

unfoldable pub pickle_session_length : Session → ℕ
pickle_session_length value =
    4
    + 1
    + pickle_curve25519_public_key_length value.alice_identity_key
    + pickle_curve25519_public_key_length value.alice_base_key
    + pickle_curve25519_public_key_length value.bob_one_time_key
    + ratchet_pickle_length value.ratchet

unfoldable pub pickle_session : Bytes → Session → Bytes
pickle_session pos value =
    let pos1 = pickle_uint32 pos session_pickle_version in
    let pos2 = pickle_bool pos1 value.received_message in
    let pos3 = pickle_curve25519_public_key pos2 value.alice_identity_key in
    let pos4 = pickle_curve25519_public_key pos3 value.alice_base_key in
    let pos5 = pickle_curve25519_public_key pos4 value.bob_one_time_key in
    ratchet_pickle pos5 value.ratchet

-- The fields after the version, of a session that has been initialised.
unfoldable pub unpickle_session_fields : Session → Bool → Option Bytes → Option (Session × Bytes)
unpickle_session_fields value includes_chain_index pos = do
  (received_message, pos1) ← unpickle_bool pos
  (alice_identity_key, pos2) ← unpickle_curve25519_public_key (some pos1)
  (alice_base_key, pos3) ← unpickle_curve25519_public_key (some pos2)
  (bob_one_time_key, pos4) ← unpickle_curve25519_public_key (some pos3)
  (ratchet, pos5) ← ratchet_unpickle (some pos4) value.ratchet includes_chain_index
  some (
    record value {
      received_message = received_message;
      alice_identity_key = alice_identity_key;
      alice_base_key = alice_base_key;
      bob_one_time_key = bob_one_time_key;
      ratchet = ratchet;
    },
    pos5,
  )

-- NULL is `inl`, with the error that is set, if one is. What a failure leaves of the other fields is not
-- modelled.
unfoldable pub unpickled_session :
    Option (Session × Bytes) → Option OlmErrorCode ⊎ (Session × Bytes)
unpickled_session none = inl none
unpickled_session (some result) = inr result

unfoldable pub unpickle_session_version :
    Session → Option (ℕ × Bytes) → Option OlmErrorCode ⊎ (Session × Bytes)
unpickle_session_version value none = inl none
unpickle_session_version value (some (version, pos)) =
    if version == 1
    then unpickled_session (unpickle_session_fields value false (some pos))
    else if version == 2 ^ 31 + 1
    then unpickled_session (unpickle_session_fields value true (some pos))
    else inl (some unknown_pickle_version)

unfoldable pub unpickle_session :
    Primitives → Session → Option Bytes → Option OlmErrorCode ⊎ (Session × Bytes)
unpickle_session p value pos = unpickle_session_version (session_init p value) (unpickle_uint32 pos)
