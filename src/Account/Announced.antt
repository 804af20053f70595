-- ===== src/Account/Announced.antt =====
-- The JSON of the keys has the announced length, and leaves out what is published.
use libce.Base.{
  ℕ, zero, suc, ◌+◌, ◌≤◌, ◌≡◌, refl, ◌∙◌, Bool, true, false, some, List, [], ◌∷◌, ◌++◌, leb, ◌==◌,
  not, if◌then◌else◌, Bool-cases, inl, inr, arith, le→ltb_false,
}
use libce.Base.Lists.{length, take, All, length-append, length-take}
use libce.Base.Bytes.{Bytes}
use libce.Base64.{encode_base64, encode_base64_length}
use libce.Base64.RoundTrip.{length-encode_base64}
use libce.OlmList.{to_list}
use libce.Pickle.{pickle_uint32}
use libce.Account.{Account, OneTimeKey, mark_published, mark_keys_as_published}
use libce.Account.Json.{
  key_json_curve25519, key_json, keys_json_length, one_time_keys_json_length, keys_json,
  get_one_time_keys_json, unpublished_fallback_key_json_length, get_unpublished_fallback_key_json,
}

-- The public key has its 32 bytes.
pub record IsSized (k : OneTimeKey) : Type 0 where
  pub sized : length k.key.public_key ≡ 32

length-key_json :
    (pos : Bytes) (k : OneTimeKey) → IsSized k → length (key_json pos k) ≡ length pos + 54
unfolding key_json pickle_uint32
length-key_json pos k h =
    let id = encode_base64 (pickle_uint32 [] k.id) in
    let key = encode_base64 (take 32 k.key.public_key) in
    let n : length id ≡ 6 =
      length-encode_base64 (pickle_uint32 [] k.id)
      ∙ unfold pickle_uint32 encode_base64_length in refl in
    let m : length key ≡ 43 =
      length-encode_base64 (take 32 k.key.public_key)
      ∙ rw (length-take 32 k.key.public_key, h.sized) (unfold encode_base64_length in refl) in
    omega (
      arith,
      n,
      m,
      length-append pos (0x22 ∷ (id ++ (0x22 ∷ 0x3a ∷ 0x22 ∷ (key ++ (0x22 ∷ []))))),
      length-append id (0x22 ∷ 0x3a ∷ 0x22 ∷ (key ++ (0x22 ∷ []))),
      length-append key (0x22 ∷ []),
    )

-- The two loops run alike, `is_empty` while `sep` is not a comma.
keys_json-announced :
    (keys : List OneTimeKey) (pos : Bytes) (sep so_far : ℕ) (is_empty : Bool)
    → All IsSized keys
    → is_empty ≡ not (sep == 0x2c)
    → ((keys_json_length so_far is_empty keys).0 + length pos
        ≡ so_far + length (keys_json pos sep keys).0)
      × ((keys_json_length so_far is_empty keys).1 ≡ not ((keys_json pos sep keys).1 == 0x2c))
unfolding keys_json keys_json_length encode_base64_length key_json
keys_json-announced [] pos sep so_far is_empty h e = (refl, e)
keys_json-announced (k ∷ keys) pos sep so_far is_empty h e = elim (Bool-cases k.published) [
  | inl skip ↦ rw skip (keys_json-announced keys pos sep so_far is_empty h.1 e)
  | inr write ↦
      let n = length-key_json (pos ++ (sep ∷ [])) k h.0 in
      let (count, flag) =
        keys_json-announced keys (key_json (pos ++ (sep ∷ [])) k) 0x2c (so_far + 2 + 6 + 3 + 43 + 1)
          false h.1 refl in
      rw write (omega (arith, count, n, length-append pos (sep ∷ [])), flag)
]

-- The one-time keys' JSON has exactly the length that is announced for it, whichever keys are published,
-- if the public keys have 32 bytes; it is written if the buffer is as long, and the account is left.
pub get_one_time_keys_json-announced :
    (a : Account) (json_length : ℕ)
    → All IsSized (to_list a.one_time_keys)
    → one_time_keys_json_length a ≤ json_length
    → (json : Bytes) × (get_one_time_keys_json a json_length ≡ (some json, a))
      × (length json ≡ one_time_keys_json_length a)
unfolding get_one_time_keys_json one_time_keys_json_length
get_one_time_keys_json-announced a json_length h room =
    let start = 0x7b ∷ key_json_curve25519 in
    let keys = to_list a.one_time_keys in
    let (pos, sep) = keys_json start 0x7b keys in
    let (count, flag) = keys_json-announced keys start 0x7b 0 true h refl in
    let closed = (if not (sep == 0x2c) then pos ++ (sep ∷ []) else pos) ++ (0x7d ∷ 0x7d ∷ []) in
    (
      closed,
      rw (le→ltb_false json_length _ room) refl,
      elim (Bool-cases (sep == 0x2c)) [
        | inl e ↦ rw (flag, e) (omega (arith, count, length-append pos (0x7d ∷ 0x7d ∷ [])))
        | inr e ↦
            rw (flag, e)
              (omega (
                arith,
                count,
                length-append (pos ++ (sep ∷ [])) (0x7d ∷ 0x7d ∷ []),
                length-append pos (sep ∷ []),
              ))
      ],
    )

-- How many keys are not published.
unfoldable pub unpublished : List OneTimeKey → ℕ
unpublished [] = 0
unpublished (k ∷ keys) = let rest = unpublished keys in if k.published then rest else suc rest

-- `{"curve25519":{}}`
abbrev pub empty_json : Bytes
empty_json = 0x7b ∷ (key_json_curve25519 ++ (0x7b ∷ 0x7d ∷ 0x7d ∷ []))

mark_published-skipped :
    (n : ℕ) (keys : List OneTimeKey) (pos : Bytes) (sep so_far : ℕ) (is_empty : Bool)
    → (keys_json pos sep (take n (mark_published n keys).1) ≡ (pos, sep))
      × (keys_json_length so_far is_empty (take n (mark_published n keys).1) ≡ (so_far, is_empty))
      × ((mark_published n keys).0 ≡ unpublished (take n keys))
unfolding mark_published keys_json keys_json_length unpublished
mark_published-skipped zero keys pos sep so_far is_empty = (refl, refl, refl)
mark_published-skipped (suc n) [] pos sep so_far is_empty = (refl, refl, refl)
mark_published-skipped (suc n) (k ∷ keys) pos sep so_far is_empty =
    let (json, announced, count) = mark_published-skipped n keys pos sep so_far is_empty in
    elim (Bool-cases k.published) [
      | inl e ↦ simp (e, json, announced, count) (refl, refl, refl)
      | inr e ↦ simp (e, json, announced, count) (refl, refl, refl)
    ]

-- Marking the keys as published counts those that were not. After it the object of one-time keys and
-- that of the unpublished fallback key are empty, in any buffer of 17 bytes.
pub mark_keys_as_published-json :
    (a : Account) (json_length : ℕ)
    → 17 ≤ json_length
    → ((mark_keys_as_published a).0 ≡ unpublished (to_list a.one_time_keys))
      × (get_one_time_keys_json (mark_keys_as_published a).1 json_length
          ≡ (some empty_json, (mark_keys_as_published a).1))
      × (get_unpublished_fallback_key_json (mark_keys_as_published a).1 json_length
          ≡ (some empty_json, (mark_keys_as_published a).1))
unfolding mark_keys_as_published to_list get_one_time_keys_json one_time_keys_json_length
    get_unpublished_fallback_key_json unpublished_fallback_key_json_length
mark_keys_as_published-json a json_length room =
    let list = a.one_time_keys in
    let (json, announced, count) =
      mark_published-skipped list.size list.data_array (0x7b ∷ key_json_curve25519) 0x7b 0 true in
    let fits = le→ltb_false json_length 17 room in
    (
      count,
      rw (json, announced, fits) refl,
      elim (Bool-cases (leb 1 a.num_fallback_keys)) [
        | inl e ↦ rw (e, fits) refl
        | inr e ↦ rw (e, fits) refl
      ],
    )
