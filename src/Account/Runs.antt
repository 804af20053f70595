-- ===== src/Account/Runs.antt =====
-- An account with two one-time keys and one fallback key.
use libce.Base.{
  ℕ, ◌*◌, ◌%◌, ◌^◌, ◌<◌, ◌≤◌, ◌≡◌, refl, Bool, true, false, some, none, [], ◌∷◌, ◌++◌, ◌⊎◌, inr,
  arith,
}
use libce.Base.Lists.{length, replicate, All}
use libce.Base.Bytes.{Bytes, IsU32}
use libce.Error.{success, not_enough_random}
use libce.OlmList.{IsValid, capacity, to_list}
use libce.Pickle.{Curve25519PublicKey}
use libce.Crypto.Example.{example_primitives}
use libce.Base64.{encode_base64_length}
use libce.Account.{
  Account, OneTimeKey, unset_one_time_key, lookup_key, remove_key, generate_keys,
  generate_one_time_keys, mark_keys_as_published,
}
use libce.Account.Json.{
  keys_json_length, one_time_keys_json_length, get_one_time_keys_json,
  get_unpublished_fallback_key_json,
}
use libce.Account.Stored.{pickle_account_length, pickle_account, unpickle_account}
use libce.Account.Codecs.{IsOneTimeKey}
use libce.Account.Restored.{IsAccount, SameAccount, unpickle_account-pickle_account}
use libce.Account.Removal.{without, id_of, remove_key-lookup_key}
use libce.Account.Generation.{Generated, generate_one_time_keys-made}
use libce.Account.Announced.{
  IsSized, unpublished, empty_json, get_one_time_keys_json-announced, mark_keys_as_published-json,
}

abbrev one_time_key : ℕ → Bool → OneTimeKey
one_time_key id published = record {
  id = id;
  published = published;
  key = record { public_key = replicate 32 id; private_key = replicate 32 0 };
}

abbrev example_account : Account
example_account = record {
  last_error = success;
  identity_keys = record {
    ed25519_key = record { public_key = replicate 32 1; private_key = replicate 64 2 };
    curve25519_key = record { public_key = replicate 32 3; private_key = replicate 32 4 };
  };
  one_time_keys = record {
    size = 2;
    data_array = one_time_key 2 false ∷ one_time_key 1 true ∷ replicate 98 unset_one_time_key;
  };
  current_fallback_key = one_time_key 3 false;
  prev_fallback_key = unset_one_time_key;
  num_fallback_keys = 1;
  next_one_time_key_id = 3;
  ed25519_seed = replicate 32 9;
  ed25519_seed_known = true;
}

example-IsValid : IsValid example_account.one_time_keys
example-IsValid = record { fits = omega arith }

one_time_key-IsOneTimeKey :
    (id : ℕ) (published : Bool) → IsU32 id → IsOneTimeKey (one_time_key id published)
one_time_key-IsOneTimeKey id published h = record {
  id_fits = h;
  key_sized = record { public_sized = refl; private_sized = refl };
}

example-IsAccount : IsAccount example_account
unfolding to_list
example-IsAccount = record {
  identity = record {
    ed25519_sized = record { public_sized = refl; private_sized = refl };
    curve25519_sized = record { public_sized = refl; private_sized = refl };
  };
  list_valid = example-IsValid;
  list_capacity = refl;
  one_time = (
    one_time_key-IsOneTimeKey 2 false (omega arith),
    (one_time_key-IsOneTimeKey 1 true (omega arith), tt),
  );
  fallbacks = omega arith;
  current = one_time_key-IsOneTimeKey 3 false (omega arith);
  prev = record {
    id_fits = omega arith;
    key_sized = record { public_sized = refl; private_sized = refl };
  };
  next_fits = omega arith;
}

unpickle_account-pickle_account_example :
    (length (pickle_account [] example_account) ≡ pickle_account_length example_account)
    × ((new : Account) × (unpickle_account example_account
            (some (pickle_account [] example_account ++ (1 ∷ [])))
          ≡ inr (new, 1 ∷ []))
        × SameAccount new example_account)
unpickle_account-pickle_account_example =
    unpickle_account-pickle_account example_account example_account (1 ∷ []) example-IsAccount refl

abbrev key_two : Curve25519PublicKey
key_two = record { public_key = replicate 32 2 }

remove_key-lookup_key_example :
    ((remove_key example_account key_two).0 ≡ id_of (lookup_key example_account key_two))
    × (to_list (remove_key example_account key_two).1.one_time_keys
        ≡ without key_two (to_list example_account.one_time_keys))
    × ((remove_key example_account key_two).1 ≡ record example_account {
      one_time_keys = (remove_key example_account key_two).1.one_time_keys;
    })
    × IsValid (remove_key example_account key_two).1.one_time_keys
    × (capacity (remove_key example_account key_two).1.one_time_keys
        ≡ capacity example_account.one_time_keys)
remove_key-lookup_key_example = remove_key-lookup_key example_account key_two example-IsValid

abbrev random_bytes : Bytes
random_bytes = replicate 64 5

generate_one_time_keys_example :
    ((length random_bytes < 32 * 2 % 2 ^ 64)
      × (generate_one_time_keys example_primitives example_account 2 random_bytes
          ≡ some (none, record example_account { last_error = not_enough_random })))
    ⊎ (((2 < 2 ^ 32)
          × (32 * 2 ≤ length random_bytes)
          × ((after : Account) × (generate_one_time_keys example_primitives example_account 2
                  random_bytes
                ≡ some (some 2, after))
              × Generated example_primitives example_account 2 random_bytes after))
        ⊎ ((2 ^ 32 ≤ 2)
            × (32 * 2 % 2 ^ 64 ≤ length random_bytes)
            × (generate_keys example_primitives 5 0 2 example_account random_bytes ≡ none)
            × (generate_one_time_keys example_primitives example_account 2 random_bytes ≡ none)))
generate_one_time_keys_example =
    generate_one_time_keys-made example_primitives example_account 2 5 random_bytes example-IsValid
      refl (omega arith)

example-IsSized : All IsSized (to_list example_account.one_time_keys)
unfolding to_list
example-IsSized = (record { sized = refl }, (record { sized = refl }, tt))

room_for_json : one_time_keys_json_length example_account ≤ 100
unfolding one_time_keys_json_length keys_json_length encode_base64_length to_list
room_for_json = omega arith

get_one_time_keys_json_example :
    (json : Bytes) × (get_one_time_keys_json example_account 100 ≡ (some json, example_account))
    × (length json ≡ one_time_keys_json_length example_account)
get_one_time_keys_json_example =
    get_one_time_keys_json-announced example_account 100 example-IsSized room_for_json

mark_keys_as_published_example :
    ((mark_keys_as_published example_account).0
      ≡ unpublished (to_list example_account.one_time_keys))
    × (get_one_time_keys_json (mark_keys_as_published example_account).1 17
        ≡ (some empty_json, (mark_keys_as_published example_account).1))
    × (get_unpublished_fallback_key_json (mark_keys_as_published example_account).1 17
        ≡ (some empty_json, (mark_keys_as_published example_account).1))
mark_keys_as_published_example = mark_keys_as_published-json example_account 17 (omega arith)
