-- ===== src/GroupSession/Stored.antt =====
-- src/inbound_group_session.c: the pickle of an inbound session.
use libce.Base.{
  ℕ, ◌+◌, Bool, true, Option, none, some, [], ◌∷◌, ◌⊎◌, inl, inr, ltb, ◌==◌, ◌||◌, if◌then◌else◌,
}
use libce.Base.Lists.{length}
use libce.Base.Bytes.{Bytes}
use libce.Error.{
  OlmErrorCode, output_buffer_too_small, unknown_pickle_version, corrupted_pickle,
  pickle_extra_data,
}
use libce.Pickle.{
  Ed25519PublicKey, pickle_uint32, unpickle_uint32, pickle_bool, unpickle_bool,
  pickle_ed25519_public_key_length, pickle_ed25519_public_key, unpickle_ed25519_public_key,
}
use libce.Crypto.{Primitives}
use libce.Megolm.{Megolm, megolm_pickle_length, megolm_pickle, megolm_unpickle}
use libce.PickleEncoding.{enc_output_length, enc_pickle, enc_input}
use libce.GroupSession.Inbound.{InboundGroupSession}

abbrev pub inbound_pickle_version : ℕ
inbound_pickle_version = 2

unfoldable pub inbound_raw_pickle_length : InboundGroupSession → ℕ
inbound_raw_pickle_length session =
    4
    + megolm_pickle_length session.initial_ratchet
    + megolm_pickle_length session.latest_ratchet
    + pickle_ed25519_public_key_length session.signing_key
    + 1

unfoldable pub inbound_raw_pickle : InboundGroupSession → Bytes
inbound_raw_pickle session =
    let pos1 = pickle_uint32 [] inbound_pickle_version in
    let pos2 = megolm_pickle pos1 session.initial_ratchet in
    let pos3 = megolm_pickle pos2 session.latest_ratchet in
    let pos4 = pickle_ed25519_public_key pos3 session.signing_key in
    pickle_bool pos4 session.signing_key_verified

-- The end of the pickle: the flag, which a pickle of version 1 does not have, and nothing after it.
unfoldable pub unpickle_inbound_end :
    InboundGroupSession → Option (Bool × Bytes) → OlmErrorCode ⊎ InboundGroupSession
unpickle_inbound_end session none = inl corrupted_pickle
unpickle_inbound_end session (some (verified, [])) =
    inr (record session { signing_key_verified = verified })
unpickle_inbound_end session (some (verified, b ∷ rest)) = inl pickle_extra_data

unfoldable pub unpickle_inbound_key :
    ℕ → InboundGroupSession → Option (Ed25519PublicKey × Bytes) → OlmErrorCode ⊎ InboundGroupSession
unpickle_inbound_key version session none = inl corrupted_pickle
unpickle_inbound_key version session (some (key, pos)) =
    unpickle_inbound_end (record session { signing_key = key })
      (if version == 1 then some (true, pos) else unpickle_bool (some pos))

unfoldable pub unpickle_inbound_latest :
    ℕ → InboundGroupSession → Option (Megolm × Bytes) → OlmErrorCode ⊎ InboundGroupSession
unpickle_inbound_latest version session none = inl corrupted_pickle
unpickle_inbound_latest version session (some (ratchet, pos)) =
    unpickle_inbound_key version (record session { latest_ratchet = ratchet })
      (unpickle_ed25519_public_key (some pos))

unfoldable pub unpickle_inbound_initial :
    ℕ → InboundGroupSession → Option (Megolm × Bytes) → OlmErrorCode ⊎ InboundGroupSession
unpickle_inbound_initial version session none = inl corrupted_pickle
unpickle_inbound_initial version session (some (ratchet, pos)) =
    unpickle_inbound_latest version (record session { initial_ratchet = ratchet })
      (megolm_unpickle (some pos))

-- The fields from the raw pickle, in order; `inl` is the error code of a failure. What a failure
-- leaves of the other fields is not modelled.
unfoldable pub unpickle_inbound_version :
    InboundGroupSession → Option (ℕ × Bytes) → OlmErrorCode ⊎ InboundGroupSession
unpickle_inbound_version session none = inl corrupted_pickle
unpickle_inbound_version session (some (version, pos)) =
    if ltb version 1 || ltb inbound_pickle_version version
    then inl unknown_pickle_version
    else unpickle_inbound_initial version session (megolm_unpickle (some pos))

unfoldable pub unpickle_inbound_raw :
    InboundGroupSession → Option Bytes × OlmErrorCode → OlmErrorCode ⊎ InboundGroupSession
unpickle_inbound_raw session (none, error) = inl error
unpickle_inbound_raw session (some raw, error) =
    unpickle_inbound_version session (unpickle_uint32 (some raw))

module _ (p : Primitives) where
  unfoldable pub pickle_inbound_group_session :
      InboundGroupSession → Bytes → Bytes → Option Bytes × InboundGroupSession
  pickle_inbound_group_session session key output =
      if ltb (length output) (enc_output_length p (inbound_raw_pickle_length session))
      then (none, record session { last_error = output_buffer_too_small })
      else (some (enc_pickle p key output (inbound_raw_pickle session)), session)

  unfoldable pub unpickle_inbound_group_session :
      InboundGroupSession → Bytes → Bytes → OlmErrorCode ⊎ InboundGroupSession
  unpickle_inbound_group_session session key pickled =
      unpickle_inbound_raw session (enc_input p key pickled session.last_error)
