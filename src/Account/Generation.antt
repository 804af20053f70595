-- ===== src/Account/Generation.antt =====
-- Generating one-time keys.
use libce.Base.{
  ℕ, zero, suc, ◌+◌, ◌%◌, ◌^◌, ◌<◌, ◌≡◌, refl, ap, ◌∙◌, sym, false, none, some, List, [], ◌∷◌, ◌⊎◌,
  inl, inr, ◌*◌, ◌≤◌, ltb, lt→ltb, le→ltb_false, ltb_false→le, Bool-cases, ltb→lt, arith,
}
use libce.Base.Lists.{length, take_long, take, drop}
use libce.Base.Bytes.{Bytes, IsU32}
use libce.Error.{not_enough_random}
use libce.OlmList.{IsValid, capacity, to_list, insert_front}
use libce.OlmList.Insert.{length-to_list, take-take, to_list-insert_front, insert-IsValid}
use libce.Crypto.{Primitives, curve25519_generate_key}
use libce.Account.{
  Account, OneTimeKey, generate_keys, conclude_generate, generate_one_time_keys,
  generate_one_time_keys_random_length,
}

module _ (p : Primitives) where
  -- n keys in the order they are made, with consecutive ids after `id`, each of the next 32 random bytes.
  unfoldable pub made : ℕ → ℕ → Bytes → List OneTimeKey
  made zero id random = []
  made (suc n) id random =
      record { id = (id + 1) % 2 ^ 32; published = false; key = curve25519_generate_key p random }
      ∷ made n ((id + 1) % 2 ^ 32) (drop 32 random)

-- The first list, backwards, before the second.
unfoldable pub rev_append : List OneTimeKey → List OneTimeKey → List OneTimeKey
rev_append [] ys = ys
rev_append (x ∷ xs) ys = rev_append xs (x ∷ ys)

take-cons_take :
    (n : ℕ) (x : OneTimeKey) (ys : List OneTimeKey) → take n (x ∷ take n ys) ≡ take n (x ∷ ys)
take-cons_take zero x ys = refl
take-cons_take (suc n) x [] = refl
take-cons_take (suc n) x (y ∷ ys) = ap (x ∷◌) (take-cons_take n y ys)

take-rev_append :
    (n : ℕ) (xs ys : List OneTimeKey)
    → take n (rev_append xs (take n ys)) ≡ take n (rev_append xs ys)
unfolding rev_append
take-rev_append n [] ys = take-take n n ys (omega arith)
take-rev_append n (x ∷ xs) ys =
    sym (take-rev_append n xs (x ∷ take n ys))
    ∙ ap (λ zs. take n (rev_append xs zs)) (take-cons_take n x ys)
    ∙ take-rev_append n xs (x ∷ ys)

-- What a loop that ended has made of the account: n more keys, and nothing else.
pub record Generated (p : Primitives) (a : Account) (n : ℕ) (random : Bytes) (after : Account)
    : Type 0 where
  pub items :
      to_list after.one_time_keys
      ≡ take 100 (rev_append (made p n a.next_one_time_key_id random) (to_list a.one_time_keys))
  pub valid : IsValid after.one_time_keys
  pub whole : capacity after.one_time_keys ≡ 100
  pub last_id : after.next_one_time_key_id ≡ (a.next_one_time_key_id + n) % 2 ^ 32
  pub kept : after ≡ record a {
    one_time_keys = after.one_time_keys;
    next_one_time_key_id = after.next_one_time_key_id;
  }

module _ (p : Primitives) where
  -- The loop from index i, with n more keys to make, ends with n rounds of fuel.
  generated :
      (n i number : ℕ) (a : Account) (random : Bytes)
      → i + n ≡ number
      → number < 2 ^ 32
      → IsValid a.one_time_keys
      → capacity a.one_time_keys ≡ 100
      → IsU32 a.next_one_time_key_id
      → (after : Account) × (generate_keys p n i number a random ≡ some after)
        × Generated p a n random after
  unfolding generate_keys made rev_append
  generated zero i number a random sum fits ok full small = (
    a,
    rw (le→ltb_false i number (omega arith)) refl,
    record {
      items = sym (
          take_long 100 (to_list a.one_time_keys)
            (omega (arith, length-to_list a.one_time_keys ok)));
      valid = ok;
      whole = full;
      last_id = omega arith;
      kept = refl;
    },
  )
  generated (suc n) i number a random sum fits ok full small =
      let id = (a.next_one_time_key_id + 1) % 2 ^ 32 in
      let key : OneTimeKey = record {
        id = id;
        published = false;
        key = curve25519_generate_key p random;
      } in
      let list = insert_front a.one_time_keys key in
      let (ok', kept) = insert-IsValid a.one_time_keys 0 key ok (omega arith) (omega arith) in
      let valid : IsValid list = unfold insert_front in ok' in
      let whole : capacity list ≡ 100 = unfold insert_front in kept ∙ full in
      let next = record a { one_time_keys = list; next_one_time_key_id = id } in
      let (after, ends, g) =
        generated n (i + 1) number next (drop 32 random) (omega arith) fits valid whole
          (omega arith) in
      let step : (i + 1) % 2 ^ 32 ≡ i + 1 = omega arith in
      let front = to_list-insert_front a.one_time_keys key ok (omega arith) in
      (
        after,
        rw (lt→ltb i number (omega arith), step) ends,
        record {
          items =
              g.items
              ∙ ap (λ ys. take 100 (rev_append (made p n id (drop 32 random)) ys))
                  (front ∙ ap (λ c. take c (key ∷ to_list a.one_time_keys)) full)
              ∙ take-rev_append 100 (made p n id (drop 32 random)) (key ∷ to_list a.one_time_keys);
          valid = g.valid;
          whole = g.whole;
          last_id = g.last_id ∙ (omega arith);
          kept = g.kept;
        },
      )

  -- The index stays below 2^32, and the loop has not ended on any fuel.
  generate_keys_loops :
      (fuel i number : ℕ) (a : Account) (random : Bytes)
      → i < 2 ^ 32
      → 2 ^ 32 ≤ number
      → generate_keys p fuel i number a random ≡ none
  unfolding generate_keys
  generate_keys_loops zero i number a random h k = rw (lt→ltb i number (omega arith)) refl
  generate_keys_loops (suc fuel) i number a random h k =
      rw (lt→ltb i number (omega arith))
        (generate_keys_loops fuel ((i + 1) % 2 ^ 32) number _ (drop 32 random) (omega arith) k)

  -- On an account whose list has its 100 places, for any number n of keys there are three cases. With
  -- fewer random bytes than 32 * n, reduced modulo 2^64, only the last error changes. With enough and n
  -- below 2^32 the loop ends: n new keys, with the next ids (of 32 bits) and not published, stand in
  -- front of the keys the account had, the newest first, what is beyond 100 falls off, and nothing else
  -- changes. From 2^32 on the loop never ends, on any fuel: for n = 2^59 that is so without random bytes.
  pub generate_one_time_keys-made :
      (a : Account) (n fuel : ℕ) (random : Bytes)
      → IsValid a.one_time_keys
      → capacity a.one_time_keys ≡ 100
      → IsU32 a.next_one_time_key_id
      → ((length random < 32 * n % 2 ^ 64)
          × (generate_one_time_keys p a n random
              ≡ some (none, record a { last_error = not_enough_random })))
        ⊎ (((n < 2 ^ 32)
              × (32 * n ≤ length random)
              × ((after : Account) × (generate_one_time_keys p a n random ≡ some (some n, after))
                  × Generated p a n random after))
            ⊎ ((2 ^ 32 ≤ n)
                × (32 * n % 2 ^ 64 ≤ length random)
                × (generate_keys p fuel 0 n a random ≡ none)
                × (generate_one_time_keys p a n random ≡ none)))
  unfolding generate_one_time_keys generate_one_time_keys_random_length conclude_generate
  generate_one_time_keys-made a n fuel random ok full small =
      elim (Bool-cases (ltb (length random) (32 * n % 2 ^ 64))) [
        | inl e ↦ rw e (inl (ltb→lt _ _ e, refl))
        | inr e ↦
            let enough = ltb_false→le (length random) (32 * n % 2 ^ 64) e in
            rw e (elim (Bool-cases (ltb n (2 ^ 32))) [
              | inl f ↦
                  let fits = ltb→lt n (2 ^ 32) f in
                  let (after, ends, g) =
                    generated n 0 n a random (omega arith) fits ok full small in
                  inr (inl (fits, (omega arith), (after, rw ends refl, g)))
              | inr f ↦
                  let over = ltb_false→le n (2 ^ 32) f in
                  inr (
                    inr (
                      over,
                      enough,
                      generate_keys_loops fuel 0 n a random (omega arith) over,
                      rw (generate_keys_loops n 0 n a random (omega arith) over) refl,
                    ))
            ])
      ]
