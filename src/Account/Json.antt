-- ===== src/Account/Json.antt =====
-- src/account.c: the JSON objects of the public keys.
use libce.Base.{
  ℕ, ◌+◌, Bool, true, false, Option, none, some, List, [], ◌∷◌, ◌++◌, ltb, leb, ◌==◌, ◌&&◌, not,
  if◌then◌else◌,
}
use libce.Base.Lists.{length, take}
use libce.Base.Bytes.{Bytes}
use libce.Error.{output_buffer_too_small}
use libce.Base64.{encode_base64, encode_base64_length}
use libce.OlmList.{to_list}
use libce.Pickle.{pickle_uint32}
use libce.Account.{Account, OneTimeKey}

-- "\"ed25519\":"
abbrev pub key_json_ed25519 : Bytes
key_json_ed25519 = 0x22 ∷ 0x65 ∷ 0x64 ∷ 0x32 ∷ 0x35 ∷ 0x35 ∷ 0x31 ∷ 0x39 ∷ 0x22 ∷ 0x3a ∷ []

-- "\"curve25519\":"
abbrev pub key_json_curve25519 : Bytes
key_json_curve25519 =
    0x22 ∷ 0x63 ∷ 0x75 ∷ 0x72 ∷ 0x76 ∷ 0x65 ∷ 0x32 ∷ 0x35 ∷ 0x35 ∷ 0x31 ∷ 0x39 ∷ 0x22 ∷ 0x3a ∷ []

unfoldable pub identity_json_length : ℕ
identity_json_length =
    1
    + length key_json_curve25519
    + 1
    + encode_base64_length 32
    + 2
    + length key_json_ed25519
    + 1
    + encode_base64_length 32
    + 2

unfoldable pub get_identity_json : Account → ℕ → Option Bytes × Account
get_identity_json account json_length =
    let keys = account.identity_keys in
    if ltb json_length identity_json_length
    then (none, record account { last_error = output_buffer_too_small })
    else (
      some (
          0x7b
          ∷ (key_json_curve25519
              ++ (0x22
                  ∷ (encode_base64 (take 32 keys.curve25519_key.public_key)
                      ++ (0x22
                          ∷ 0x2c
                          ∷ (key_json_ed25519
                              ++ (0x22
                                  ∷ (encode_base64 (take 32 keys.ed25519_key.public_key)
                                      ++ (0x22 ∷ 0x7d ∷ []))))))))),
      account,
    )

-- The key's id and public key between their quotes, as all three objects write them.
unfoldable pub key_json : Bytes → OneTimeKey → Bytes
key_json pos k =
    pos
    ++ (0x22
        ∷ (encode_base64 (pickle_uint32 [] k.id)
            ++ (0x22 ∷ 0x3a ∷ 0x22 ∷ (encode_base64 (take 32 k.key.public_key) ++ (0x22 ∷ [])))))

-- The loop of the length: the length so far and `is_empty`.
unfoldable pub keys_json_length : ℕ → Bool → List OneTimeKey → ℕ × Bool
keys_json_length so_far is_empty [] = (so_far, is_empty)
keys_json_length so_far is_empty (k ∷ keys) =
    let skipped = keys_json_length so_far is_empty keys in
    let written =
      keys_json_length (so_far + 2 + encode_base64_length 4 + 3 + encode_base64_length 32 + 1) false
        keys in
    if k.published then skipped else written

unfoldable pub one_time_keys_json_length : Account → ℕ
one_time_keys_json_length account =
    let (so_far, is_empty) = keys_json_length 0 true (to_list account.one_time_keys) in
    (if is_empty then so_far + 1 else so_far) + 3 + length key_json_curve25519

-- The loop of the writer: `pos` and `sep`.
unfoldable pub keys_json : Bytes → ℕ → List OneTimeKey → Bytes × ℕ
keys_json pos sep [] = (pos, sep)
keys_json pos sep (k ∷ keys) =
    let skipped = keys_json pos sep keys in
    let written = keys_json (key_json (pos ++ (sep ∷ [])) k) 0x2c keys in
    if k.published then skipped else written

unfoldable pub get_one_time_keys_json : Account → ℕ → Option Bytes × Account
get_one_time_keys_json account json_length =
    let (pos, sep) = keys_json (0x7b ∷ key_json_curve25519) 0x7b (to_list account.one_time_keys) in
    let pos' = if not (sep == 0x2c) then pos ++ (sep ∷ []) else pos in
    if ltb json_length (one_time_keys_json_length account)
    then (none, record account { last_error = output_buffer_too_small })
    else (some (pos' ++ (0x7d ∷ 0x7d ∷ [])), account)

unfoldable pub fallback_key_json_length : Account → ℕ
fallback_key_json_length account =
    let base = 4 + length key_json_curve25519 in
    if leb 1 account.num_fallback_keys
    then base + 1 + encode_base64_length 4 + 3 + encode_base64_length 32 + 1
    else base

unfoldable pub get_fallback_key_json : Account → ℕ → Option Bytes × Account
get_fallback_key_json account json_length =
    let pos = 0x7b ∷ (key_json_curve25519 ++ (0x7b ∷ [])) in
    let pos' =
      if leb 1 account.num_fallback_keys then key_json pos account.current_fallback_key else pos in
    if ltb json_length (fallback_key_json_length account)
    then (none, record account { last_error = output_buffer_too_small })
    else (some (pos' ++ (0x7d ∷ 0x7d ∷ [])), account)

unfoldable pub unpublished_fallback_key_json_length : Account → ℕ
unpublished_fallback_key_json_length account =
    let base = 4 + length key_json_curve25519 in
    if leb 1 account.num_fallback_keys && not account.current_fallback_key.published
    then base + 1 + encode_base64_length 4 + 3 + encode_base64_length 32 + 1
    else base

unfoldable pub get_unpublished_fallback_key_json : Account → ℕ → Option Bytes × Account
get_unpublished_fallback_key_json account json_length =
    let pos = 0x7b ∷ (key_json_curve25519 ++ (0x7b ∷ [])) in
    let pos' =
      if leb 1 account.num_fallback_keys && not account.current_fallback_key.published
      then key_json pos account.current_fallback_key
      else pos in
    if ltb json_length (unpublished_fallback_key_json_length account)
    then (none, record account { last_error = output_buffer_too_small })
    else (some (pos' ++ (0x7d ∷ 0x7d ∷ [])), account)
