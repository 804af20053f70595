-- ===== src/Account.antt =====
-- src/account.c and include/libce/account.h: identity keys, one-time keys and fallback keys.
-- `none` is SIZE_MAX; a JSON writer gives what it leaves at the front of its buffer. A call that fails
-- keeps the account but for its last error.
pub mod Json
pub mod Stored
pub mod Codecs
pub mod Restored
pub mod Removal
pub mod Generation
pub mod Announced
mod Runs
use libce.Base.{
  ℕ, zero, suc, ◌+◌, ◌*◌, ◌%◌, ◌^◌, ◌≤◌, ◌<◌, ◌≡◌, Bool, true, false, Option, none, some, List, [],
  ◌∷◌, ◌++◌, ltb, leb, ◌==◌, ◌&&◌, if◌then◌else◌,
}
use libce.Base.Lists.{length, take, drop, replicate}
use libce.Base.Bytes.{Bytes}
use libce.Memory.{is_equal}
use libce.Error.{OlmErrorCode, success, not_enough_random, output_buffer_too_small}
use libce.OlmList.{OlmList, init, to_list, insert_front, erase, capacity, IsValid}
use libce.Pickle.{Curve25519PublicKey, Curve25519KeyPair, Ed25519KeyPair}
use libce.Crypto.{Primitives, curve25519_generate_key, ed25519_generate_key, ed25519_sign}

pub record IdentityKeys : Type 0 where
  pub ed25519_key : Ed25519KeyPair
  pub curve25519_key : Curve25519KeyPair

pub record OneTimeKey : Type 0 where
  pub id : ℕ
  pub published : Bool
  pub key : Curve25519KeyPair

abbrev pub max_one_time_keys : ℕ
max_one_time_keys = 100

pub record Account : Type 0 where
  pub last_error : OlmErrorCode
  pub identity_keys : IdentityKeys
  pub one_time_keys : OlmList OneTimeKey
  pub current_fallback_key : OneTimeKey
  pub prev_fallback_key : OneTimeKey
  pub num_fallback_keys : ℕ
  pub next_one_time_key_id : ℕ
  pub ed25519_seed : Bytes
  pub ed25519_seed_known : Bool

-- A key after `_olm_unset`.
abbrev pub unset_one_time_key : OneTimeKey
unset_one_time_key = record {
  id = 0;
  published = false;
  key = record { public_key = replicate 32 0; private_key = replicate 32 0 };
}

-- `_olm_account_init`
unfoldable pub account_init : Account → Account
account_init account = record account {
  last_error = success;
  num_fallback_keys = 0;
  next_one_time_key_id = 0;
  ed25519_seed_known = false;
  one_time_keys = init account.one_time_keys;
}

unfoldable pub new_account_random_length : ℕ
new_account_random_length = 32 + 32

-- The loop of `_olm_account_mark_keys_as_published`: `n` items from the start of the array are visited.
unfoldable pub mark_published : ℕ → List OneTimeKey → ℕ × List OneTimeKey
mark_published zero keys = (0, keys)
mark_published (suc n) [] = (0, [])
mark_published (suc n) (k ∷ keys) =
    let (count, rest) = mark_published n keys in
    if k.published then (count, k ∷ rest) else (suc count, record k { published = true } ∷ rest)

unfoldable pub mark_keys_as_published : Account → ℕ × Account
mark_keys_as_published account =
    let list = account.one_time_keys in
    let (count, keys) = mark_published list.size list.data_array in
    (
      count,
      record account {
        one_time_keys = record list { data_array = keys };
        current_fallback_key = record account.current_fallback_key { published = true };
      },
    )

unfoldable pub max_number_of_one_time_keys : ℕ
max_number_of_one_time_keys = max_one_time_keys

-- `CURVE25519_RANDOM_LENGTH * number_of_keys`, a `size_t`.
unfoldable pub generate_one_time_keys_random_length : ℕ → ℕ
generate_one_time_keys_random_length number_of_keys = 32 * number_of_keys % 2 ^ 64

unfoldable pub forget_old_fallback_key : Account → Account
forget_old_fallback_key account =
    if leb 2 account.num_fallback_keys
    then record account { num_fallback_keys = 1; prev_fallback_key = unset_one_time_key }
    else account

-- `_OLM_ARRAY_EQUAL` of the public key of a one-time key.
unfoldable pub matches : OneTimeKey → Curve25519PublicKey → Bool
matches k public_key = is_equal k.key.public_key public_key.public_key 32

-- The loop of `_olm_account_lookup_key`, and that of `_olm_account_remove_key`, which needs the index.
unfoldable pub find_key : Curve25519PublicKey → List OneTimeKey → Option OneTimeKey
find_key public_key [] = none
find_key public_key (k ∷ keys) =
    let rest = find_key public_key keys in if matches k public_key then some k else rest

unfoldable pub find_index : Curve25519PublicKey → ℕ → List OneTimeKey → Option (ℕ × ℕ)
find_index public_key i [] = none
find_index public_key i (k ∷ keys) =
    let rest = find_index public_key (suc i) keys in
    if matches k public_key then some (i, k.id) else rest

unfoldable pub find_fallback_key : Account → Curve25519PublicKey → Option OneTimeKey
find_fallback_key account public_key =
    if leb 1 account.num_fallback_keys && matches account.current_fallback_key public_key
    then some account.current_fallback_key
    else if leb 2 account.num_fallback_keys && matches account.prev_fallback_key public_key
    then some account.prev_fallback_key
    else none

-- The key that the pointer points to; `none` is NULL.
unfoldable pub lookup_key : Account → Curve25519PublicKey → Option OneTimeKey
lookup_key account public_key = from_list (find_key public_key (to_list account.one_time_keys))
  where
    from_list : Option OneTimeKey → Option OneTimeKey
    from_list (some k) = some k
    from_list none = find_fallback_key account public_key

-- A fallback key is not removed.
unfoldable pub remove_fallback_key : Account → Curve25519PublicKey → Option ℕ
remove_fallback_key account public_key =
    if leb 1 account.num_fallback_keys && matches account.current_fallback_key public_key
    then some account.current_fallback_key.id
    else if leb 2 account.num_fallback_keys && matches account.prev_fallback_key public_key
    then some account.prev_fallback_key.id
    else none

unfoldable pub remove_key : Account → Curve25519PublicKey → Option ℕ × Account
remove_key account public_key = at (find_index public_key 0 (to_list account.one_time_keys))
  where
    at : Option (ℕ × ℕ) → Option ℕ × Account
    at (some (i, id)) = (some id, record account { one_time_keys = erase account.one_time_keys i })
    at none = (remove_fallback_key account public_key, account)

module _ (p : Primitives) where
  unfoldable pub new_account : Account → Bytes → Option ℕ × Account
  new_account account random =
      if ltb (length random) new_account_random_length
      then (none, record account { last_error = not_enough_random })
      else (
        some 0,
        record account {
          identity_keys = record {
            ed25519_key = ed25519_generate_key p random;
            curve25519_key = curve25519_generate_key p (drop 32 random);
          };
          ed25519_seed = take 32 random;
          ed25519_seed_known = true;
        },
      )

  unfoldable pub account_sign : Account → Bytes → ℕ → Option Bytes × Account
  account_sign account message signature_length =
      if ltb signature_length 64
      then (none, record account { last_error = output_buffer_too_small })
      else (some (ed25519_sign p account.identity_keys.ed25519_key message), account)

  -- The loop of `_olm_account_generate_one_time_keys` on fuel, from the index `i` on. The index is an
  -- `unsigned`, and wraps at 2^32; `none` where the loop has not ended.
  unfoldable pub generate_keys : ℕ → ℕ → ℕ → Account → Bytes → Option Account
  generate_keys zero i number_of_keys account random =
      if ltb i number_of_keys then none else some account
  generate_keys (suc fuel) i number_of_keys account random =
      let id = (account.next_one_time_key_id + 1) % 2 ^ 32 in
      let key : OneTimeKey = record {
        id = id;
        published = false;
        key = curve25519_generate_key p random;
      } in
      let rest =
        generate_keys fuel ((i + 1) % 2 ^ 32) number_of_keys
          (record account {
            one_time_keys = insert_front account.one_time_keys key;
            next_one_time_key_id = id;
          })
          (drop 32 random) in
      if ltb i number_of_keys then rest else some account

  unfoldable pub conclude_generate : ℕ → Option Account → Option (Option ℕ × Account)
  conclude_generate number_of_keys none = none
  conclude_generate number_of_keys (some account) = some (some number_of_keys, account)

  -- `none` is a call that does not return: with as much fuel as keys, the loop is not at its end.
  unfoldable pub generate_one_time_keys : Account → ℕ → Bytes → Option (Option ℕ × Account)
  generate_one_time_keys account number_of_keys random =
      if ltb (length random) (generate_one_time_keys_random_length number_of_keys)
      then some (none, record account { last_error = not_enough_random })
      else conclude_generate number_of_keys
          (generate_keys number_of_keys 0 number_of_keys account random)

  unfoldable pub generate_fallback_key : Account → Bytes → Option ℕ × Account
  generate_fallback_key account random =
      let id = (account.next_one_time_key_id + 1) % 2 ^ 32 in
      let number = account.num_fallback_keys in
      if ltb (length random) 32
      then (none, record account { last_error = not_enough_random })
      else (
        some 1,
        record account {
          num_fallback_keys = if ltb number 2 then suc number else number;
          prev_fallback_key = account.current_fallback_key;
          current_fallback_key = record {
            id = id;
            published = false;
            key = curve25519_generate_key p random;
          };
          next_one_time_key_id = id;
        },
      )
