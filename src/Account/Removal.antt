-- ===== src/Account/Removal.antt =====
-- Removing a key and looking it up agree.
use libce.Base.{
  ℕ, suc, ◌+◌, ◌<◌, ◌≡◌, refl, ap, ◌∙◌, sym, Option, none, some, List, [], ◌∷◌, ◌++◌, ◌⊎◌, inl, inr,
  leb, ◌&&◌, if◌then◌else◌, Bool-cases, arith,
}
use libce.Base.Lists.{length, take, drop}
use libce.OlmList.{IsValid, capacity, to_list}
use libce.OlmList.Insert.{length-to_list}
use libce.OlmList.Erase.{to_list-erase, erase-IsValid}
use libce.Pickle.{Curve25519PublicKey}
use libce.Account.{
  Account, OneTimeKey, matches, find_key, find_index, find_fallback_key, lookup_key,
  remove_fallback_key, remove_key,
}

-- The list without its first key of that public key.
unfoldable pub without : Curve25519PublicKey → List OneTimeKey → List OneTimeKey
without public_key [] = []
without public_key (k ∷ keys) =
    let rest = without public_key keys in if matches k public_key then keys else k ∷ rest

unfoldable pub id_of : Option OneTimeKey → Option ℕ
id_of none = none
id_of (some k) = some k.id

-- The two loops, and the list without the key.
record Found (public_key : Curve25519PublicKey) (i : ℕ) (keys : List OneTimeKey) (j : ℕ)
    (k : OneTimeKey) : Type 0 where
  key_found : find_key public_key keys ≡ some k
  index_found : find_index public_key i keys ≡ some (i + j, k.id)
  inside : j < length keys
  removed : take j keys ++ drop (suc j) keys ≡ without public_key keys

record Missing (public_key : Curve25519PublicKey) (i : ℕ) (keys : List OneTimeKey) : Type 0 where
  no_key : find_key public_key keys ≡ none
  no_index : find_index public_key i keys ≡ none
  nothing_removed : without public_key keys ≡ keys

search_keys :
    (public_key : Curve25519PublicKey) (i : ℕ) (keys : List OneTimeKey)
    → Missing public_key i keys ⊎ ((j : ℕ) × (k : OneTimeKey) × Found public_key i keys j k)
unfolding find_key find_index without
search_keys public_key i [] =
    inl (record { no_key = refl; no_index = refl; nothing_removed = refl })
search_keys public_key i (k ∷ keys) = elim (Bool-cases (matches k public_key)) [
  | inl e ↦
      let here : i + 0 ≡ i = omega arith in
      inr (
        0,
        k,
        record {
          key_found = rw e refl;
          index_found = rw (e, here) refl;
          inside = omega arith;
          removed = rw e refl;
        },
      )
  | inr e ↦ elim (search_keys public_key (suc i) keys) [
    | inl m ↦ inl (record {
      no_key = rw e m.no_key;
      no_index = rw e m.no_index;
      nothing_removed = rw (e, m.nothing_removed) refl;
    })
    | inr (j, k', f) ↦
        let at : i + suc j ≡ suc i + j = omega arith in
        inr (
          suc j,
          k',
          record {
            key_found = rw e f.key_found;
            index_found = rw (e, at) f.index_found;
            inside = omega (arith, f.inside);
            removed = rw e (ap (k ∷◌) f.removed);
          },
        )
  ]
]

fallback_id :
    (a : Account) (public_key : Curve25519PublicKey)
    → remove_fallback_key a public_key ≡ id_of (find_fallback_key a public_key)
unfolding remove_fallback_key find_fallback_key id_of
fallback_id a public_key =
    elim (Bool-cases (leb 1 a.num_fallback_keys && matches a.current_fallback_key public_key)) [
      | inl e ↦ rw e refl
      | inr e ↦
          rw e
            (elim (Bool-cases
              (leb 2 a.num_fallback_keys && matches a.prev_fallback_key public_key)) [
                | inl e' ↦ rw e' refl
                | inr e' ↦ rw e' refl
              ])
    ]

-- On an account with a valid list: removing a key returns the id of the key that looking it up finds, or
-- fails if it finds none. The list of one-time keys loses its first key of that public key and stays
-- valid; fallback keys are found but stay, and nothing else of the account changes.
pub remove_key-lookup_key :
    (a : Account) (public_key : Curve25519PublicKey)
    → IsValid a.one_time_keys
    → ((remove_key a public_key).0 ≡ id_of (lookup_key a public_key))
      × (to_list (remove_key a public_key).1.one_time_keys
          ≡ without public_key (to_list a.one_time_keys))
      × ((remove_key a public_key).1
          ≡ record a { one_time_keys = (remove_key a public_key).1.one_time_keys })
      × IsValid (remove_key a public_key).1.one_time_keys
      × (capacity (remove_key a public_key).1.one_time_keys ≡ capacity a.one_time_keys)
unfolding remove_key lookup_key
remove_key-lookup_key a public_key ok = elim (search_keys public_key 0 (to_list a.one_time_keys)) [
  | inl m ↦
      rw (m.no_key, m.no_index) (fallback_id a public_key, sym m.nothing_removed, refl, ok, refl)
  | inr (j, k, f) ↦
      let n = length-to_list a.one_time_keys ok in
      let (valid, kept) = erase-IsValid a.one_time_keys j ok in
      let from_zero : 0 + j ≡ j = omega arith in
      rw (f.key_found, f.index_found, from_zero)
        (
          unfold id_of in refl,
          to_list-erase a.one_time_keys j ok (omega (arith, f.inside)) ∙ f.removed,
          refl,
          valid,
          kept,
        )
]
