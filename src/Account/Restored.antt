-- ===== src/Account/Restored.antt =====
-- An account that is pickled is restored.
use libce.Base.{
  ℕ, zero, suc, ◌≤◌, ◌<◌, ◌≡◌, refl, inl, ap, ◌∙◌, sym, some, List, [], ◌∷◌, ◌++◌, ◌⊎◌, inr,
  append_assoc, append-nil, arith,
}
use libce.Base.Lists.{length, take, All, length-append}
use libce.Base.Bytes.{Bytes, IsU32}
use libce.Pickle.{pickle_uint8, pickle_uint32}
use libce.Pickle.RoundTrip.{uint8-IsCodec, uint32-IsCodec}
use libce.OlmList.{IsValid, capacity, to_list}
use libce.Ratchet.Pickled.{list_pickle}
use libce.Ratchet.Pickled.ListRoundTrip.{
  list_pickle-append, length-list_pickle, list_unpickle-list_pickle,
}
use libce.Account.{Account, OneTimeKey}
use libce.Account.Stored.{
  pickle_identity_keys, pickle_one_time_key_length, pickle_one_time_key,
  pickle_one_time_key_list_length, pickle_one_time_key_list, unpickle_one_time_key_list,
  pickle_fallback_keys_length, pickle_account_length, pickle_fallback_keys, pickle_account,
  unpickle_next_id, unpickle_prev_fallback_key, unpickle_current_fallback_key,
  unpickle_number_of_fallback_keys, unpickle_fallback_keys, unpickle_account_list,
  unpickle_account_keys, unpickle_account_version, unpickle_account,
}
use libce.Account.Codecs.{
  IsOneTimeKey, IsIdentityKeys, IsOneTimeKey-IsCodec, IsIdentityKeys-IsCodec,
}

-- The account fits its arrays, and there are at most two fallback keys.
pub record IsAccount (a : Account) : Type 0 where
  pub identity : IsIdentityKeys a.identity_keys
  pub list_valid : IsValid a.one_time_keys
  pub list_capacity : capacity a.one_time_keys ≡ 100
  pub one_time : All IsOneTimeKey (to_list a.one_time_keys)
  pub fallbacks : a.num_fallback_keys ≤ 2
  pub current : IsOneTimeKey a.current_fallback_key
  pub prev : IsOneTimeKey a.prev_fallback_key
  pub next_fits : IsU32 a.next_one_time_key_id

-- The fallback keys that are there, the current one first.
unfoldable pub fallback_keys : Account → List OneTimeKey
fallback_keys a = take a.num_fallback_keys (a.current_fallback_key ∷ a.prev_fallback_key ∷ [])

-- Both accounts have the same keys and the same next id.
pub record SameAccount (new old : Account) : Type 0 where
  pub same_identity : new.identity_keys ≡ old.identity_keys
  pub same_items : to_list new.one_time_keys ≡ to_list old.one_time_keys
  pub same_number : new.num_fallback_keys ≡ old.num_fallback_keys
  pub same_fallback : fallback_keys new ≡ fallback_keys old
  pub same_next : new.next_one_time_key_id ≡ old.next_one_time_key_id

not_empty : (k : OneTimeKey) → 0 < pickle_one_time_key_length k
unfolding pickle_one_time_key_length
not_empty k = omega arith

number-cases : (n : ℕ) → n ≤ 2 → (n ≡ 0) ⊎ ((n ≡ 1) ⊎ (n ≡ 2))
number-cases zero h = inl refl
number-cases (suc zero) h = inr (inl refl)
number-cases (suc (suc zero)) h = inr (inr refl)
number-cases (suc (suc (suc n))) h = absurd (omega arith)

module _ (a : Account) (fit : IsAccount a) where
  fallback-append : (out : Bytes) → pickle_fallback_keys out a ≡ out ++ pickle_fallback_keys [] a
  unfolding pickle_fallback_keys
  fallback-append out =
      let current = IsOneTimeKey-IsCodec.appends out a.current_fallback_key in
      let at = pickle_one_time_key [] a.current_fallback_key in
      elim (number-cases a.num_fallback_keys fit.fallbacks) [
        | inl e ↦ rw e (sym (append-nil out))
        | inr (inl e) ↦ rw e current
        | inr (inr e) ↦
            rw
              (
                e,
                IsOneTimeKey-IsCodec.appends (pickle_one_time_key out a.current_fallback_key)
                    a.prev_fallback_key,
                IsOneTimeKey-IsCodec.appends at a.prev_fallback_key,
                current,
              )
              (append_assoc out at _)
      ]

  account-parts :
      (out : Bytes)
      → pickle_account out a
        ≡ out
          ++ (pickle_uint32 [] 4
              ++ (pickle_identity_keys [] a.identity_keys
                  ++ (pickle_one_time_key_list [] a.one_time_keys
                      ++ (pickle_uint8 [] a.num_fallback_keys
                          ++ (pickle_fallback_keys [] a
                              ++ pickle_uint32 [] a.next_one_time_key_id)))))
  unfolding pickle_account pickle_one_time_key_list
  account-parts out =
      let at1 = pickle_uint32 out 4 in
      let at2 = pickle_identity_keys at1 a.identity_keys in
      let at3 = pickle_one_time_key_list at2 a.one_time_keys in
      let at4 = pickle_uint8 at3 a.num_fallback_keys in
      rw
        (
          uint32-IsCodec.appends (pickle_fallback_keys at4 a) a.next_one_time_key_id,
          fallback-append at4,
          uint8-IsCodec.appends at3 a.num_fallback_keys,
          list_pickle-append IsOneTimeKey-IsCodec not_empty at2 a.one_time_keys,
          IsIdentityKeys-IsCodec.appends at1 a.identity_keys,
          uint32-IsCodec.appends out 4,
        )
        (simp append_assoc)

  -- The fallback keys and the next id are read back into an account that has the number's place free.
  unpickle_number-pickle :
      (value : Account) (rest : Bytes)
      → (new : Account) × (unpickle_number_of_fallback_keys value (
            some (
              a.num_fallback_keys,
              pickle_fallback_keys [] a ++ (pickle_uint32 [] a.next_one_time_key_id ++ rest),
            ))
          ≡ inr (new, rest))
        × (new.identity_keys ≡ value.identity_keys)
        × (new.one_time_keys ≡ value.one_time_keys)
        × (new.num_fallback_keys ≡ a.num_fallback_keys)
        × (fallback_keys new ≡ fallback_keys a)
        × (new.next_one_time_key_id ≡ a.next_one_time_key_id)
  unfolding unpickle_number_of_fallback_keys unpickle_current_fallback_key
      unpickle_prev_fallback_key unpickle_next_id pickle_fallback_keys fallback_keys
  unpickle_number-pickle value rest =
      let next = pickle_uint32 [] a.next_one_time_key_id in
      let reads = uint32-IsCodec.restores a.next_one_time_key_id rest fit.next_fits in
      let current = pickle_one_time_key [] a.current_fallback_key in
      let prev = pickle_one_time_key [] a.prev_fallback_key in
      elim (number-cases a.num_fallback_keys fit.fallbacks) [
        | inl e ↦ (
          record value { num_fallback_keys = 0; next_one_time_key_id = a.next_one_time_key_id },
          rw (e, reads) refl,
          refl,
          refl,
          sym e,
          rw e refl,
          refl,
        )
        | inr (inl e) ↦ (
          record value {
            num_fallback_keys = 1;
            current_fallback_key = a.current_fallback_key;
            next_one_time_key_id = a.next_one_time_key_id;
          },
          rw
              (
                e,
                IsOneTimeKey-IsCodec.restores a.current_fallback_key (next ++ rest) fit.current,
                reads,
              )
              refl,
          refl,
          refl,
          sym e,
          rw e refl,
          refl,
        )
        | inr (inr e) ↦ (
          record value {
            num_fallback_keys = 2;
            current_fallback_key = a.current_fallback_key;
            prev_fallback_key = a.prev_fallback_key;
            next_one_time_key_id = a.next_one_time_key_id;
          },
          rw
              (
                e,
                IsOneTimeKey-IsCodec.appends current a.prev_fallback_key,
                append_assoc current prev (next ++ rest),
                IsOneTimeKey-IsCodec.restores a.current_fallback_key (prev ++ (next ++ rest))
                    fit.current,
                IsOneTimeKey-IsCodec.restores a.prev_fallback_key (next ++ rest) fit.prev,
                reads,
              )
              refl,
          refl,
          refl,
          sym e,
          rw e refl,
          refl,
        )
      ]

  length-pickle_fallback_keys : length (pickle_fallback_keys [] a) ≡ pickle_fallback_keys_length a
  unfolding pickle_fallback_keys pickle_fallback_keys_length
  length-pickle_fallback_keys =
      let current = pickle_one_time_key [] a.current_fallback_key in
      let n = IsOneTimeKey-IsCodec.measured a.current_fallback_key fit.current in
      let m = IsOneTimeKey-IsCodec.measured a.prev_fallback_key fit.prev in
      elim (number-cases a.num_fallback_keys fit.fallbacks) [
        | inl e ↦ rw e refl
        | inr (inl e) ↦ rw e (omega (arith, n))
        | inr (inr e) ↦
            rw (e, IsOneTimeKey-IsCodec.appends current a.prev_fallback_key)
              (omega
                (arith, n, m, length-append current (pickle_one_time_key [] a.prev_fallback_key)))
      ]

-- An account that fits its arrays, with at most two fallback keys, is pickled in the announced length,
-- and unpickled with the same identity keys, one-time keys, fallback keys and next id, into any account
-- with a whole list of one-time keys; the bytes behind the pickle are left.
pub unpickle_account-pickle_account :
    (a other : Account) (rest : Bytes)
    → IsAccount a
    → capacity other.one_time_keys ≡ 100
    → (length (pickle_account [] a) ≡ pickle_account_length a)
      × ((new : Account) × (unpickle_account other (some (pickle_account [] a ++ rest))
            ≡ inr (new, rest))
          × SameAccount new a)
unfolding unpickle_account unpickle_account_version unpickle_account_keys unpickle_account_list
    unpickle_fallback_keys unpickle_one_time_key_list pickle_one_time_key_list pickle_account_length
    pickle_one_time_key_list_length
unpickle_account-pickle_account a other rest fit whole =
    let identity = pickle_identity_keys [] a.identity_keys in
    let list = list_pickle pickle_one_time_key [] a.one_time_keys in
    let number = pickle_uint8 [] a.num_fallback_keys in
    let fallback = pickle_fallback_keys [] a in
    let next = pickle_uint32 [] a.next_one_time_key_id in
    let few = fit.list_valid.fits in
    let full = fit.list_capacity in
    let (keys, reads, items, kept) =
      list_unpickle-list_pickle IsOneTimeKey-IsCodec not_empty a.one_time_keys other.one_time_keys
        (number ++ (fallback ++ (next ++ rest))) fit.list_valid fit.one_time (omega arith)
        (omega arith) in
    let value = record other { identity_keys = a.identity_keys; one_time_keys = keys } in
    let (new, found, same1, same2, same3, same4, same5) = unpickle_number-pickle a fit value rest in
    (
      rw (account-parts a fit []) (
          omega (
            arith,
            length-append (pickle_uint32 [] 4)
                (identity ++ (list ++ (number ++ (fallback ++ next)))),
            length-append identity (list ++ (number ++ (fallback ++ next))),
            length-append list (number ++ (fallback ++ next)),
            length-append number (fallback ++ next),
            length-append fallback next,
            uint32-IsCodec.measured 4 (omega arith),
            IsIdentityKeys-IsCodec.measured a.identity_keys fit.identity,
            length-list_pickle IsOneTimeKey-IsCodec not_empty a.one_time_keys fit.one_time,
            uint8-IsCodec.measured a.num_fallback_keys (omega (arith, fit.fallbacks)),
            length-pickle_fallback_keys a fit,
            uint32-IsCodec.measured a.next_one_time_key_id fit.next_fits,
          )),
      (
        new,
        rw
            (
              account-parts a fit [],
              append_assoc (pickle_uint32 [] 4)
                  (identity ++ (list ++ (number ++ (fallback ++ next)))) rest,
              append_assoc identity (list ++ (number ++ (fallback ++ next))) rest,
              append_assoc list (number ++ (fallback ++ next)) rest,
              append_assoc number (fallback ++ next) rest,
              append_assoc fallback next rest,
              uint32-IsCodec.restores 4
                  (identity ++ (list ++ (number ++ (fallback ++ (next ++ rest))))) (omega arith),
              IsIdentityKeys-IsCodec.restores a.identity_keys
                  (list ++ (number ++ (fallback ++ (next ++ rest)))) fit.identity,
              reads,
              uint8-IsCodec.restores a.num_fallback_keys (fallback ++ (next ++ rest))
                  (omega (arith, fit.fallbacks)),
            )
            found,
        record {
          same_identity = same1;
          same_items = ap to_list same2 ∙ items;
          same_number = same3;
          same_fallback = same4;
          same_next = same5;
        },
      ),
    )
