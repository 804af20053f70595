-- ===== src/Session/Undefined.antt =====
-- Where `_olm_session_new_inbound_session` reads from NULL.
use libce.Base.{◌≡◌, refl, true, some, none}
use libce.Base.Bytes.{Bytes}
use libce.Pickle.{Curve25519PublicKey}
use libce.Crypto.{Primitives}
use libce.Message.{PreKeyMessageReader, decode_one_time_key_message}
use libce.Account.{Account}
use libce.Session.{Session}
use libce.Session.Start.{
  is_present, is_key, check_message_fields, inbound_load, inbound_read, new_inbound_session,
}

-- A pre-key message without an identity key, whose other fields are in order, passes the tests of a caller
-- that knows the identity key, and the identity key is then copied from NULL.
pub new_inbound_session-undefined :
    (p : Primitives) (session : Session) (account : Account)
    (their_identity_key : Curve25519PublicKey) (pre_key_message : Bytes)
    (reader : PreKeyMessageReader)
    → decode_one_time_key_message pre_key_message ≡ some reader
    → reader.identity_key ≡ none
    → is_present reader.message ≡ true
    → is_key reader.base_key ≡ true
    → is_key reader.one_time_key ≡ true
    → (check_message_fields reader true ≡ true)
      × (new_inbound_session p session account (some their_identity_key) pre_key_message ≡ none)
unfolding new_inbound_session inbound_read inbound_load check_message_fields is_present
new_inbound_session-undefined p session account their_identity_key pre_key_message reader decodes
      missing body base one_time =
    rw (decodes, missing, body, base, one_time) (refl, refl)
