-- ===== src/Ratchet/Sending.antt =====
-- What `_olm_ratchet_encrypt` makes of the sender chain, which is a list in an array of one place.
use libce.Base.{
  ◌+◌, ◌%◌, ◌^◌, ◌≡◌, refl, true, false, Option, none, some, List, [], ◌∷◌, ◌⊎◌, inl, inr, ltb,
  ==→eq, Bool-cases, arith,
}
use libce.Base.Lists.{length}
use libce.Base.Bytes.{Bytes}
use libce.Crypto.{Primitives, hmac_sha256, curve25519_generate_key}
use libce.OlmList.{IsValid, capacity, empty, to_list}
use libce.OlmList.Insert.{insert_front-first}
use libce.Ratchet.{
  ChainKey, SenderChain, Ratchet, slot, unset_receiver_chain, chain_key_seed, create_chain_key,
  advance_chain_key,
}
use libce.Ratchet.Encrypt.{
  start_sender_chain, advance_sender_chain, ratchet_encrypt, encrypt_random_length,
  encrypt_output_length,
}

-- The chain key of the next message.
abbrev pub next_key : Primitives → ChainKey → ChainKey
next_key p k = record { index = (k.index + 1) % 2 ^ 32; key = hmac_sha256 p k.key chain_key_seed }

-- The one chain there is goes a step further.
pub record Continues (p : Primitives) (r after : Ratchet) : Type 0 where
  pub chain : SenderChain
  pub before : to_list r.sender_chain ≡ chain ∷ []
  pub advanced :
      to_list after.sender_chain ≡ record chain { chain_key = next_key p chain.chain_key } ∷ []
  pub same_root : after.root_key ≡ r.root_key

-- A chain for a key pair of the random bytes, which goes a step further at once, where there was none.
pub record Starts (p : Primitives) (r after : Ratchet) (random : Bytes) : Type 0 where
  pub root_key : Bytes
  pub chain_key : ChainKey
  pub none_before : to_list r.sender_chain ≡ []
  pub derived :
      create_chain_key p r.root_key
        (curve25519_generate_key p random)
        (slot r.receiver_chains 0 unset_receiver_chain).ratchet_key
        r.kdf_info
      ≡ (root_key, chain_key)
  pub started :
      to_list after.sender_chain
      ≡ record { ratchet_key = curve25519_generate_key p random; chain_key = next_key p chain_key }
        ∷ []
  pub new_root : after.root_key ≡ root_key

-- The two ends of an encryption.
pub record Refuses (r after : Ratchet) (result : Option Bytes) : Type 0 where
  pub no_result : result ≡ none
  pub kept : after ≡ record r { last_error = after.last_error }

pub record Sends (p : Primitives) (r after : Ratchet) (random : Bytes) (result : Option Bytes)
    : Type 0 where
  pub message : Bytes
  pub sent : result ≡ some message
  pub moved : Continues p r after ⊎ Starts p r after random
  pub kept : after ≡ record r { root_key = after.root_key; sender_chain = after.sender_chain }

one_item : {A : Type 0} (xs : List A) → length xs ≡ 1 → (x : A) × (xs ≡ x ∷ [])
one_item [] h = absurd (omega arith)
one_item (x ∷ []) h = (x, refl)
one_item (x ∷ y ∷ xs) h = absurd (omega arith)

module _ (p : Primitives) (r : Ratchet) (random : Bytes) (ok : IsValid r.sender_chain)
    (one : capacity r.sender_chain ≡ 1) where
  continues : empty r.sender_chain ≡ false → Continues p r (advance_sender_chain p r)
  unfolding empty to_list advance_sender_chain slot advance_chain_key
  continues e =
      let (chain, items) = one_item r.sender_chain.data_array one in
      let fits = ok.fits in
      let size : r.sender_chain.size ≡ 1 = ground arith in
      record {
        chain = chain;
        before = rw (size, items) refl;
        advanced = rw (size, items) refl;
        same_root = refl;
      }

  starts :
      empty r.sender_chain ≡ true
      → Starts p r (advance_sender_chain p (start_sender_chain p r random)) random
  unfolding empty to_list advance_sender_chain start_sender_chain slot advance_chain_key
  starts e =
      let (x, items) = one_item r.sender_chain.data_array one in
      let size : r.sender_chain.size ≡ 0 = ==→eq r.sender_chain.size 0 e in
      let ratchet_key = curve25519_generate_key p random in
      let derived =
        create_chain_key p r.root_key ratchet_key
          (slot r.receiver_chains 0 unset_receiver_chain).ratchet_key r.kdf_info in
      record {
        root_key = derived.0;
        chain_key = derived.1;
        none_before = rw size refl;
        derived = refl;
        started =
            rw
              (
                e,
                insert_front-first r.sender_chain
                    (record { ratchet_key = ratchet_key; chain_key = derived.1 }) size
                    (omega arith),
                items,
              )
              refl;
        new_root = rw e refl;
      }

  pub ratchet_encrypt-Sends :
      (plaintext output : Bytes)
      → Refuses r
          (ratchet_encrypt p r plaintext random output).1
          (ratchet_encrypt p r plaintext random output).0
        ⊎ Sends p r
            (ratchet_encrypt p r plaintext random output).1
            random
            (ratchet_encrypt p r plaintext random output).0
  unfolding ratchet_encrypt
  ratchet_encrypt-Sends plaintext output =
      elim (Bool-cases (ltb (length random) (encrypt_random_length r))) [
        | inl e ↦ rw e (inl (record { no_result = refl; kept = refl }))
        | inr e ↦
            rw e
              (elim (Bool-cases
                (ltb (length output) (encrypt_output_length r (length plaintext)))) [
                  | inl f ↦ rw f (inl (record { no_result = refl; kept = refl }))
                  | inr f ↦
                      rw f (inr (record { message = _; sent = refl; moved = moved; kept = kept }))
                ])
      ]
    where
      after : Ratchet
      after = advance_sender_chain p (start_sender_chain p r random)

      moved : Continues p r after ⊎ Starts p r after random
      moved = elim (Bool-cases (empty r.sender_chain)) [
        | inl e ↦ inr (starts e)
        | inr e ↦ inl (unfold start_sender_chain in rw e (continues e))
      ]

      kept : after ≡ record r { root_key = after.root_key; sender_chain = after.sender_chain }
      kept = elim (Bool-cases (empty r.sender_chain)) [
        | inl e ↦ unfold advance_sender_chain start_sender_chain in rw e refl
        | inr e ↦ unfold advance_sender_chain start_sender_chain in rw e refl
      ]
