-- ===== src/Account/Stored.antt =====
-- src/account.c: the pickle of an account. The list of keys is pickled like the lists of src/ratchet.c.
use libce.Base.{ℕ, ◌+◌, Option, none, some, ◌⊎◌, inl, inr, leb, ◌==◌, ◌||◌, if◌then◌else◌}
use libce.Base.Maybe.{◌>>=◌}
use libce.Base.Bytes.{Bytes}
use libce.Error.{OlmErrorCode, bad_legacy_account_pickle, unknown_pickle_version, corrupted_pickle}
use libce.OlmList.{OlmList}
use libce.Pickle.{
  pickle_uint8, unpickle_uint8, pickle_uint32, unpickle_uint32, pickle_bool, unpickle_bool,
  pickle_curve25519_key_pair_length, pickle_curve25519_key_pair, unpickle_curve25519_key_pair,
  pickle_ed25519_key_pair_length, pickle_ed25519_key_pair, unpickle_ed25519_key_pair,
}
use libce.Ratchet.Pickled.{list_pickle_length, list_pickle, list_unpickle}
use libce.Account.{Account, IdentityKeys, OneTimeKey}

abbrev pub account_pickle_version : ℕ
account_pickle_version = 4

unfoldable pub pickle_identity_keys_length : IdentityKeys → ℕ
pickle_identity_keys_length value =
    pickle_ed25519_key_pair_length value.ed25519_key
    + pickle_curve25519_key_pair_length value.curve25519_key

unfoldable pub pickle_identity_keys : Bytes → IdentityKeys → Bytes
pickle_identity_keys pos value =
    pickle_curve25519_key_pair (pickle_ed25519_key_pair pos value.ed25519_key) value.curve25519_key

unfoldable pub unpickle_identity_keys : Option Bytes → Option (IdentityKeys × Bytes)
unpickle_identity_keys pos = do
  (ed25519, pos1) ← unpickle_ed25519_key_pair pos
  (curve25519, pos2) ← unpickle_curve25519_key_pair (some pos1)
  some (record { ed25519_key = ed25519; curve25519_key = curve25519 }, pos2)

unfoldable pub pickle_one_time_key_length : OneTimeKey → ℕ
pickle_one_time_key_length value = 4 + 1 + pickle_curve25519_key_pair_length value.key

unfoldable pub pickle_one_time_key : Bytes → OneTimeKey → Bytes
pickle_one_time_key pos value =
    let pos1 = pickle_uint32 pos value.id in
    let pos2 = pickle_bool pos1 value.published in pickle_curve25519_key_pair pos2 value.key

unfoldable pub unpickle_one_time_key : Option Bytes → Option (OneTimeKey × Bytes)
unpickle_one_time_key pos = do
  (id, pos1) ← unpickle_uint32 pos
  (published, pos2) ← unpickle_bool (some pos1)
  (key, pos3) ← unpickle_curve25519_key_pair (some pos2)
  some (record { id = id; published = published; key = key }, pos3)

unfoldable pub pickle_one_time_key_list_length : OlmList OneTimeKey → ℕ
pickle_one_time_key_list_length value = list_pickle_length pickle_one_time_key_length value

unfoldable pub pickle_one_time_key_list : Bytes → OlmList OneTimeKey → Bytes
pickle_one_time_key_list pos value = list_pickle pickle_one_time_key pos value

unfoldable pub unpickle_one_time_key_list :
    Option Bytes → OlmList OneTimeKey → Option (OlmList OneTimeKey × Bytes)
unpickle_one_time_key_list pos value = list_unpickle unpickle_one_time_key pos value

unfoldable pub pickle_fallback_keys_length : Account → ℕ
pickle_fallback_keys_length value =
    if leb 1 value.num_fallback_keys
    then pickle_one_time_key_length value.current_fallback_key
      + (if leb 2 value.num_fallback_keys
          then pickle_one_time_key_length value.prev_fallback_key
          else 0)
    else 0

unfoldable pub pickle_account_length : Account → ℕ
pickle_account_length value =
    4
    + pickle_identity_keys_length value.identity_keys
    + pickle_one_time_key_list_length value.one_time_keys
    + 1
    + pickle_fallback_keys_length value
    + 4

unfoldable pub pickle_fallback_keys : Bytes → Account → Bytes
pickle_fallback_keys pos value =
    let current = pickle_one_time_key pos value.current_fallback_key in
    if leb 1 value.num_fallback_keys
    then (if leb 2 value.num_fallback_keys
        then pickle_one_time_key current value.prev_fallback_key
        else current)
    else pos

unfoldable pub pickle_account : Bytes → Account → Bytes
pickle_account pos value =
    let pos1 = pickle_uint32 pos account_pickle_version in
    let pos2 = pickle_identity_keys pos1 value.identity_keys in
    let pos3 = pickle_one_time_key_list pos2 value.one_time_keys in
    let pos4 = pickle_uint8 pos3 value.num_fallback_keys in
    let pos5 = pickle_fallback_keys pos4 value in pickle_uint32 pos5 value.next_one_time_key_id

-- `inl` is NULL, with the error that is set, if one is. What a failure leaves of the other fields is
-- not modelled.
abbrev pub Unpickled : Type 0
Unpickled = Option OlmErrorCode ⊎ (Account × Bytes)

unfoldable pub unpickle_next_id : Account → Option (ℕ × Bytes) → Unpickled
unpickle_next_id value none = inl none
unpickle_next_id value (some (id, pos)) = inr (record value { next_one_time_key_id = id }, pos)

-- The previous fallback key of version 4, and the test for more than two.
unfoldable pub unpickle_prev_fallback_key : Account → Option (OneTimeKey × Bytes) → Unpickled
unpickle_prev_fallback_key value none = inl none
unpickle_prev_fallback_key value (some (prev, pos)) =
    if leb 3 value.num_fallback_keys
    then inl (some corrupted_pickle)
    else unpickle_next_id (record value { prev_fallback_key = prev }) (unpickle_uint32 (some pos))

unfoldable pub unpickle_current_fallback_key : Account → Option (OneTimeKey × Bytes) → Unpickled
unpickle_current_fallback_key value none = inl none
unpickle_current_fallback_key value (some (current, pos)) =
    let value' = record value { current_fallback_key = current } in
    if leb 2 value.num_fallback_keys
    then unpickle_prev_fallback_key value' (unpickle_one_time_key (some pos))
    else unpickle_next_id value' (unpickle_uint32 (some pos))

unfoldable pub unpickle_number_of_fallback_keys : Account → Option (ℕ × Bytes) → Unpickled
unpickle_number_of_fallback_keys value none = inl none
unpickle_number_of_fallback_keys value (some (number, pos)) =
    let value' = record value { num_fallback_keys = number } in
    if leb 1 number
    then unpickle_current_fallback_key value' (unpickle_one_time_key (some pos))
    else unpickle_next_id value' (unpickle_uint32 (some pos))

-- Version 3 has both keys, whose flags tell how many there are.
unfoldable pub unpickle_fallback_keys_v3 :
    Account → Option ((OneTimeKey × OneTimeKey) × Bytes) → Unpickled
unpickle_fallback_keys_v3 value none = inl none
unpickle_fallback_keys_v3 value (some ((current, prev), pos)) =
    let number = if current.published then (if prev.published then 2 else 1) else 0 in
    unpickle_next_id
      (record value {
        current_fallback_key = current;
        prev_fallback_key = prev;
        num_fallback_keys = number;
      })
      (unpickle_uint32 (some pos))

unfoldable pub unpickle_two_keys : Bytes → Option ((OneTimeKey × OneTimeKey) × Bytes)
unpickle_two_keys pos = do
  (current, pos1) ← unpickle_one_time_key (some pos)
  (prev, pos2) ← unpickle_one_time_key (some pos1)
  some ((current, prev), pos2)

unfoldable pub unpickle_fallback_keys : ℕ → Account → Bytes → Unpickled
unpickle_fallback_keys version value pos =
    if leb version 2
    then unpickle_next_id (record value { num_fallback_keys = 0 }) (unpickle_uint32 (some pos))
    else if version == 3
    then unpickle_fallback_keys_v3 value (unpickle_two_keys pos)
    else unpickle_number_of_fallback_keys value (unpickle_uint8 (some pos))

unfoldable pub unpickle_account_list : ℕ → Account → Option (OlmList OneTimeKey × Bytes) → Unpickled
unpickle_account_list version value none = inl none
unpickle_account_list version value (some (keys, pos)) =
    unpickle_fallback_keys version (record value { one_time_keys = keys }) pos

unfoldable pub unpickle_account_keys : ℕ → Account → Option (IdentityKeys × Bytes) → Unpickled
unpickle_account_keys version value none = inl none
unpickle_account_keys version value (some (keys, pos)) =
    unpickle_account_list version (record value { identity_keys = keys })
      (unpickle_one_time_key_list (some pos) value.one_time_keys)

unfoldable pub unpickle_account_version : Account → Option (ℕ × Bytes) → Unpickled
unpickle_account_version value none = inl none
unpickle_account_version value (some (version, pos)) =
    if version == account_pickle_version || (version == 3 || version == 2)
    then unpickle_account_keys version value (unpickle_identity_keys (some pos))
    else if version == 1
    then inl (some bad_legacy_account_pickle)
    else inl (some unknown_pickle_version)

unfoldable pub unpickle_account : Account → Option Bytes → Unpickled
unpickle_account value pos = unpickle_account_version value (unpickle_uint32 pos)
