-- ===== src/Ratchet/Following.antt =====
-- What a decryption makes of the chain it used: the loop that stores the keys of the messages that are
-- missing, and the chain after it.
use libce.Base.{
  ℕ, zero, suc, ◌+◌, ◌-◌, ◌%◌, ◌^◌, ◌<◌, ◌≤◌, ◌≡◌, refl, ap, ◌∙◌, sym, some, List, [], ◌∷◌, ◌++◌,
  append_assoc, lt→ltb, Bool-cases, Option-cases, inl, inr, arith,
}
use libce.Base.Lists.{length, set, get_or, take, length-take, take_long}
use libce.Base.Iterate.{iterate, iterate-zero, iterate_shift}
use libce.Base.Bytes.{Bytes}
use libce.Pickle.{Curve25519PublicKey}
use libce.Crypto.{Primitives}
use libce.OlmList.{OlmList, IsValid, capacity, to_list, insert_front}
use libce.OlmList.Insert.{insert-IsValid, to_list-insert_front, take-take, length-to_list}
use libce.Ratchet.{
  ChainKey, ReceiverChain, SkippedMessageKey, Ratchet, slot, unset_receiver_chain,
  advance_chain_key, create_message_keys,
}
use libce.Ratchet.Sending.{next_key}
use libce.Ratchet.Existing.{advance_while-iterate}
use libce.Ratchet.Decrypt.{same_bytes, find_chain, skip_while, finish_chain}

module _ (p : Primitives) (ratchet_key : Curve25519PublicKey) where
  -- The keys of the next n messages of a chain, the last one first.
  unfoldable pub skipped_keys : ℕ → ChainKey → List SkippedMessageKey
  skipped_keys zero chain = []
  skipped_keys (suc n) chain =
      record {
        ratchet_key = ratchet_key;
        message_key = create_message_keys p (iterate n (advance_chain_key p) chain);
      }
      ∷ skipped_keys n chain

  skipped_keys_shift :
      (n : ℕ) (chain : ChainKey)
      → skipped_keys (suc n) chain
        ≡ skipped_keys n (advance_chain_key p chain)
          ++ (record { ratchet_key = ratchet_key; message_key = create_message_keys p chain } ∷ [])
  unfolding skipped_keys
  skipped_keys_shift zero chain = rw (iterate-zero (advance_chain_key p) chain) refl
  skipped_keys_shift (suc n) chain =
      rw (iterate_shift n (advance_chain_key p) chain, skipped_keys_shift n chain) refl

take-append_take :
    {A : Type 0} (n m : ℕ) (xs ys : List A) → n ≤ m → take n (xs ++ take m ys) ≡ take n (xs ++ ys)
take-append_take n m [] ys h = take-take n m ys h
take-append_take zero m (x ∷ xs) ys h = refl
take-append_take (suc n) m (x ∷ xs) ys h = ap (x ∷◌) (take-append_take n m xs ys (omega arith))

module _ (p : Primitives) (ratchet_key : Curve25519PublicKey) where
  -- The loop on a chain that is n steps behind the counter.
  skip_while-stored :
      (n : ℕ) (keys : OlmList SkippedMessageKey) (chain : ChainKey)
      → chain.index + n < 2 ^ 32
      → IsValid keys
      → 0 < capacity keys
      → ((skip_while p n (chain.index + n) ratchet_key keys chain).1
          ≡ iterate n (advance_chain_key p) chain)
        × (to_list (skip_while p n (chain.index + n) ratchet_key keys chain).0
            ≡ take (capacity keys) (skipped_keys p ratchet_key n chain ++ to_list keys))
  unfolding skip_while
  skip_while-stored zero keys chain h ok room = (
    sym (iterate-zero (advance_chain_key p) chain),
    unfold skipped_keys in
        sym (
          take_long (capacity keys) (to_list keys)
            (omega (arith, length-to_list keys ok, ok.fits))),
  )
  skip_while-stored (suc n) keys chain h ok room =
      let next = advance_chain_key p chain in
      let key : SkippedMessageKey = record {
        ratchet_key = ratchet_key;
        message_key = create_message_keys p chain;
      } in
      let index : next.index ≡ chain.index + 1 = unfold advance_chain_key in omega arith in
      let e : chain.index + suc n ≡ next.index + n = omega arith in
      let (valid, kept) = insert-IsValid keys 0 key ok room (omega arith) in
      let valid' : IsValid (insert_front keys key) = unfold insert_front in valid in
      let kept' : capacity (insert_front keys key) ≡ capacity keys = unfold insert_front in kept in
      let (chain', stored) =
        skip_while-stored n (insert_front keys key) next (omega arith) valid' (omega arith) in
      let front = to_list-insert_front keys key ok room in
      let limit = capacity keys in
      let before = skipped_keys p ratchet_key n next in
      (
        rw (lt→ltb chain.index (chain.index + suc n) (omega arith), e)
            (chain' ∙ sym (iterate_shift n (advance_chain_key p) chain)),
        rw (lt→ltb chain.index (chain.index + suc n) (omega arith), e)
            (stored
              ∙ ap (λ c. take c (before ++ to_list (insert_front keys key))) kept'
              ∙ ap (λ ks. take limit (before ++ ks)) front
              ∙ take-append_take limit limit before (key ∷ to_list keys) (omega arith)
              ∙ ap (take limit) (
                  sym (append_assoc before (key ∷ []) (to_list keys))
                  ∙ ap (λ ks. ks ++ to_list keys)
                      (sym (skipped_keys_shift p ratchet_key n chain)))),
      )

-- Writing one slot.
module _ {A : Type 0} where
  pub get_or-set :
      (xs : List A) (i : ℕ) (v outside : A) → i < length xs → get_or (set xs i v) i outside ≡ v
  get_or-set [] i v outside h = absurd (omega arith)
  get_or-set (x ∷ xs) zero v outside h = refl
  get_or-set (x ∷ xs) (suc i) v outside h = get_or-set xs i v outside (omega arith)

  take-set : (n i : ℕ) (xs : List A) (v : A) → take n (set xs i v) ≡ set (take n xs) i v
  take-set zero i xs v = refl
  take-set (suc n) i [] v = refl
  take-set (suc n) zero (x ∷ xs) v = refl
  take-set (suc n) (suc i) (x ∷ xs) v = ap (x ∷◌) (take-set n i xs v)

-- A chain that keeps its ratchet key is found where it was.
find_chain-set :
    (n i : ℕ) (xs : List ReceiverChain) (v outside : ReceiverChain) (key : Bytes)
    → v.ratchet_key ≡ (get_or xs i outside).ratchet_key
    → find_chain (take n (set xs i v)) key ≡ find_chain (take n xs) key
unfolding find_chain
find_chain-set zero i xs v outside key h = refl
find_chain-set (suc n) i [] v outside key h = refl
find_chain-set (suc n) zero (x ∷ xs) v outside key h = rw h refl
find_chain-set (suc n) (suc i) (x ∷ xs) v outside key h =
    rw (find_chain-set n i xs v outside key h) refl

find_chain-lt :
    (chains : List ReceiverChain) (key : Bytes) (i : ℕ)
    → find_chain chains key ≡ some i
    → i < length chains
unfolding find_chain
find_chain-lt [] key i = λ h. absurd (cc)
find_chain-lt (chain ∷ chains) key i =
    elim (Bool-cases (same_bytes 32 chain.ratchet_key.public_key key)) [
      | inl e ↦ rw e (λ h. grind arith)
      | inr e ↦ rw e (elim (Option-cases (find_chain chains key)) [
        | inl f ↦ rw f (λ h. absurd (cc))
        | inr (k, f) ↦ rw f (λ h. grind (arith, find_chain-lt chains key k f))
      ])
    ]

-- The ratchet after a message on its chain i, `gap` messages further on: the chain stands at the number
-- after the message's, the keys of the missing messages stand in front of the stored ones, the last one
-- first and as many as have room, and nothing else has changed.
pub record Followed (p : Primitives) (bob : Ratchet) (i gap : ℕ) (after : Ratchet) : Type 0 where
  pub chain : ReceiverChain
  pub found : chain ≡ slot bob.receiver_chains i unset_receiver_chain
  pub moved : ReceiverChain
  pub further :
      moved
      ≡ record chain { chain_key = next_key p (iterate gap (advance_chain_key p) chain.chain_key) }
  pub past : moved.chain_key.index ≡ (chain.chain_key.index + gap + 1) % 2 ^ 32
  pub written : slot after.receiver_chains i unset_receiver_chain ≡ moved
  pub chains : to_list after.receiver_chains ≡ set (to_list bob.receiver_chains) i moved
  pub stored :
      to_list after.skipped_message_keys
      ≡ take
          (capacity bob.skipped_message_keys)
          (skipped_keys p chain.ratchet_key gap chain.chain_key ++ to_list bob.skipped_message_keys)
  pub kept : after ≡ record bob {
    receiver_chains = after.receiver_chains;
    skipped_message_keys = after.skipped_message_keys;
  }

module _ (p : Primitives) (bob : Ratchet) (i gap : ℕ) (key : Bytes)
    (found : find_chain (to_list bob.receiver_chains) key ≡ some i)
    (fits : (slot bob.receiver_chains i unset_receiver_chain).chain_key.index + gap < 2 ^ 32) where
  abbrev used : ReceiverChain
  used = slot bob.receiver_chains i unset_receiver_chain

  -- The chain is inside the array.
  inside : i < length bob.receiver_chains.data_array
  inside =
      let h = find_chain-lt (to_list bob.receiver_chains) key i found in
      unfold to_list in
      omega (arith, length-take bob.receiver_chains.size bob.receiver_chains.data_array)

  pub finish_chain-Followed :
      IsValid bob.skipped_message_keys
      → 0 < capacity bob.skipped_message_keys
      → Followed p bob i gap (finish_chain p bob i (used.chain_key.index + gap))
  unfolding finish_chain to_list slot advance_chain_key
  finish_chain-Followed ok room =
      let d : used.chain_key.index + gap - used.chain_key.index ≡ gap = omega arith in
      let (ends, keys) =
        skip_while-stored p used.ratchet_key gap bob.skipped_message_keys used.chain_key fits ok
          room in
      let last = (advance_while-iterate p gap used.chain_key fits).1 in
      let moved : ReceiverChain = record used {
        chain_key = next_key p (iterate gap (advance_chain_key p) used.chain_key);
      } in
      record {
        chain = used;
        found = refl;
        moved = moved;
        further = refl;
        past = rw last refl;
        written =
            rw (d, ends)
              (get_or-set bob.receiver_chains.data_array i moved unset_receiver_chain inside);
        chains =
            rw (d, ends) (take-set bob.receiver_chains.size i bob.receiver_chains.data_array moved);
        stored = rw d keys;
        kept = refl;
      }

  -- A chain is found by its key as before.
  pub find_chain-finish_chain :
      (counter : ℕ)
      → find_chain (to_list (finish_chain p bob i counter).receiver_chains) key ≡ some i
  unfolding finish_chain to_list slot
  find_chain-finish_chain counter =
      find_chain-set bob.receiver_chains.size i bob.receiver_chains.data_array _
        unset_receiver_chain key refl
      ∙ found
