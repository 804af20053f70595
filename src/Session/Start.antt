-- ===== src/Session/Start.antt =====
-- src/session.c: how a session is set up from the keys of an account.
use libce.Base.{
  ℕ, ◌+◌, Bool, true, false, Option, none, some, ◌++◌, ltb, ◌==◌, ◌&&◌, ◌||◌, not, if◌then◌else◌,
}
use libce.Base.Lists.{length, take, drop}
use libce.Base.Bytes.{Bytes}
use libce.Error.{not_enough_random, bad_message_format, bad_message_key_id}
use libce.Pickle.{Curve25519PublicKey}
use libce.Crypto.{Primitives, curve25519_generate_key, curve25519_shared_secret}
use libce.Message.{MessageReader, PreKeyMessageReader, decode_message, decode_one_time_key_message}
use libce.Ratchet.{ratchet_initialise_as_alice, ratchet_initialise_as_bob}
use libce.Ratchet.Decrypt.{same_bytes}
use libce.Account.{Account, OneTimeKey, lookup_key}
use libce.Session.{Session}

-- A pointer of a reader that is not NULL, and one to 32 bytes.
unfoldable pub is_present : Option Bytes → Bool
is_present none = false
is_present (some bytes) = true

unfoldable pub is_key : Option Bytes → Bool
is_key none = false
is_key (some bytes) = length bytes == 32

unfoldable pub check_message_fields : PreKeyMessageReader → Bool → Bool
check_message_fields reader have_their_identity_key =
    (have_their_identity_key || is_present reader.identity_key)
    && (not (is_present reader.identity_key) || is_key reader.identity_key)
    && is_present reader.message
    && is_key reader.base_key
    && is_key reader.one_time_key

-- `_OLM_LOAD_ARRAY` of a key that is there.
unfoldable pub load_key : Bytes → Curve25519PublicKey
load_key src = record { public_key = take 32 src }

unfoldable pub new_outbound_session_random_length : ℕ
new_outbound_session_random_length = 32 + 32

unfoldable pub matches_reader : Session → Option Curve25519PublicKey → PreKeyMessageReader → Bool
matches_reader session their_identity_key reader =
    if not (check_message_fields reader (has their_identity_key))
    then false
    else read_matches session.alice_identity_key reader.identity_key
      && their_matches their_identity_key
      && read_matches session.alice_base_key reader.base_key
      && read_matches session.bob_one_time_key reader.one_time_key
  where
    has : Option Curve25519PublicKey → Bool
    has none = false
    has (some k) = true

    read_matches : Curve25519PublicKey → Option Bytes → Bool
    read_matches key none = true
    read_matches key (some bytes) = same_bytes 32 bytes key.public_key

    their_matches : Option Curve25519PublicKey → Bool
    their_matches none = true
    their_matches (some k) = same_bytes 32 k.public_key session.alice_identity_key.public_key

unfoldable pub session_matches_inbound_session : Session → Option Curve25519PublicKey → Bytes → Bool
session_matches_inbound_session session their_identity_key pre_key_message =
    decoded (decode_one_time_key_message pre_key_message)
  where
    decoded : Option PreKeyMessageReader → Bool
    decoded none = false
    decoded (some reader) = matches_reader session their_identity_key reader

module _ (p : Primitives) where
  unfoldable pub new_outbound_session :
      Session → Account → Curve25519PublicKey → Curve25519PublicKey → Bytes → Option ℕ × Session
  new_outbound_session session local_account identity_key one_time_key random =
      let base_key = curve25519_generate_key p random in
      let ratchet_key = curve25519_generate_key p (drop 32 random) in
      let alice = local_account.identity_keys.curve25519_key in
      let secret =
        curve25519_shared_secret p alice one_time_key
        ++ (curve25519_shared_secret p base_key identity_key
            ++ curve25519_shared_secret p base_key one_time_key) in
      if ltb (length random) new_outbound_session_random_length
      then (none, record session { last_error = not_enough_random })
      else (
        some 0,
        record session {
          received_message = false;
          alice_identity_key = record { public_key = alice.public_key };
          alice_base_key = record { public_key = base_key.public_key };
          bob_one_time_key = one_time_key;
          ratchet = ratchet_initialise_as_alice p session.ratchet secret ratchet_key;
        },
      )

  -- From `_olm_account_lookup_key` on, with the session's three keys set.
  unfoldable pub inbound_with_key :
      Session → Account → Curve25519PublicKey → Option OneTimeKey → Option ℕ × Session
  inbound_with_key session local_account ratchet_key none =
      (none, record session { last_error = bad_message_key_id })
  inbound_with_key session local_account ratchet_key (some our_one_time_key) =
      let bob = local_account.identity_keys.curve25519_key in
      let one_time_key = our_one_time_key.key in
      let secret =
        curve25519_shared_secret p one_time_key session.alice_identity_key
        ++ (curve25519_shared_secret p bob session.alice_base_key
            ++ curve25519_shared_secret p one_time_key session.alice_base_key) in
      (
        some 0,
        record session { ratchet = ratchet_initialise_as_bob p session.ratchet secret ratchet_key },
      )

  -- The ratchet key of the message inside.
  unfoldable pub inbound_with_message :
      Session → Account → Option MessageReader → Option ℕ × Session
  inbound_with_message session local_account none =
      (none, record session { last_error = bad_message_format })
  inbound_with_message session local_account (some reader) = with_key reader.ratchet_key
    where
      with_key : Option Bytes → Option ℕ × Session
      with_key none = (none, record session { last_error = bad_message_format })
      with_key (some key) =
          let found =
            inbound_with_key session local_account (load_key key)
              (lookup_key local_account session.bob_one_time_key) in
          if not (length key == 32)
          then (none, record session { last_error = bad_message_format })
          else found

  -- From the first `_OLM_LOAD_ARRAY` on. Where a pointer is NULL the C reads from it: no outcome.
  unfoldable pub inbound_load :
      Session
      → Account
      → Option Bytes
      → Option Bytes
      → Option Bytes
      → Option Bytes
      → Option (Option ℕ × Session)
  inbound_load session local_account (some identity_key) (some base_key) (some one_time_key)
        (some body) =
      some (
        inbound_with_message
          (record session {
            alice_identity_key = load_key identity_key;
            alice_base_key = load_key base_key;
            bob_one_time_key = load_key one_time_key;
          })
          local_account (decode_message body session.ratchet.ratchet_cipher.mac_length))
  inbound_load session local_account identity_key base_key one_time_key body = none

  unfoldable pub inbound_read :
      Session
      → Account
      → Option Curve25519PublicKey
      → Option PreKeyMessageReader
      → Option (Option ℕ × Session)
  inbound_read session local_account their_identity_key none =
      some (none, record session { last_error = bad_message_format })
  inbound_read session local_account their_identity_key (some reader) =
      let load =
        inbound_load session local_account reader.identity_key reader.base_key reader.one_time_key
          reader.message in
      if not (check_message_fields reader (has their_identity_key))
      then some (none, record session { last_error = bad_message_format })
      else if differs their_identity_key reader.identity_key
      then some (none, record session { last_error = bad_message_key_id })
      else load
    where
      has : Option Curve25519PublicKey → Bool
      has none = false
      has (some k) = true

      differs : Option Curve25519PublicKey → Option Bytes → Bool
      differs none identity_key = false
      differs (some k) none = false
      differs (some k) (some identity_key) = not (same_bytes 32 k.public_key identity_key)

  unfoldable pub new_inbound_session :
      Session → Account → Option Curve25519PublicKey → Bytes → Option (Option ℕ × Session)
  new_inbound_session session local_account their_identity_key pre_key_message =
      inbound_read session local_account their_identity_key
        (decode_one_time_key_message pre_key_message)
