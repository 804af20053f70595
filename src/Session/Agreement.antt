-- ===== src/Session/Agreement.antt =====
-- Both sides of a new session compute the same secret and start in step.
use libce.Base.{ℕ, zero, suc, ◌<◌, ◌≡◌, refl, ap, sym, true, false, List, [], ◌∷◌, arith, eq→==}
use libce.Base.Lists.{length, take, drop, get_or, set}
use libce.Base.Iterate.{iterate}
use libce.Base.Bytes.{Bytes}
use libce.Pickle.{Curve25519KeyPair}
use libce.Crypto.{Primitives, hkdf_sha256, curve25519_generate_key, curve25519_shared_secret}
use libce.Crypto.Outputs.{IsX25519}
use libce.OlmList.{OlmList, capacity, empty, to_list, insert_front}
use libce.OlmList.Insert.{insert_front-first}
use libce.Ratchet.{
  Ratchet, ChainKey, SenderChain, ReceiverChain, slot, unset_sender_chain, unset_receiver_chain,
  ratchet_initialise_as_alice, ratchet_initialise_as_bob,
}
use libce.Ratchet.Encrypt.{encrypt_output_length}
use libce.Message.{encode_message_length}
use libce.Ratchet.Decrypt.{find_chain, same_bytes}
use libce.Ratchet.Exchange.{InStep}

-- The public key is that of the private key.
pub record IsKeyPair (p : Primitives) (k : Curve25519KeyPair) : Type 0 where
  pub matches : k.public_key ≡ p.scalarmult_curve25519_base k.private_key

-- A ratchet without chains, whose arrays have room for one.
pub record IsFresh (r : Ratchet) : Type 0 where
  pub no_sender : r.sender_chain.size ≡ 0
  pub no_receiver : r.receiver_chains.size ≡ 0
  pub sender_room : 0 < capacity r.sender_chain
  pub receiver_room : 0 < capacity r.receiver_chains

set_first :
    {A : Type 0} (xs : List A) (v outside : A) → 0 < length xs → get_or (set xs 0 v) 0 outside ≡ v
set_first [] v outside h = absurd (omega arith)
set_first (x ∷ xs) v outside h = refl

take_first : {A : Type 0} (xs : List A) (v : A) → 0 < length xs → take 1 (set xs 0 v) ≡ v ∷ []
take_first [] v h = absurd (omega arith)
take_first (x ∷ xs) v h = refl

-- The list after its first insertion.
module _ {A : Type 0} (l : OlmList A) (v : A) (none_yet : l.size ≡ 0) (room : 0 < capacity l) where
  slot-first : (outside : A) → slot (insert_front l v) 0 outside ≡ v
  unfolding slot
  slot-first outside =
      rw (insert_front-first l v none_yet room) (set_first l.data_array v outside room)

  to_list-first : to_list (insert_front l v) ≡ v ∷ []
  unfolding to_list
  to_list-first = rw (insert_front-first l v none_yet room) (take_first l.data_array v room)

  empty-first : empty (insert_front l v) ≡ false
  unfolding empty
  empty-first = rw (insert_front-first l v none_yet room) refl

same_bytes_self : (xs : Bytes) (n : ℕ) → length xs ≡ n → same_bytes n xs xs ≡ true
unfolding same_bytes
same_bytes_self [] zero h = refl
same_bytes_self [] (suc n) h = absurd (omega arith)
same_bytes_self (x ∷ xs) zero h = absurd (omega arith)
same_bytes_self (x ∷ xs) (suc n) h = rw (eq→== x x refl) (same_bytes_self xs n (omega arith))

module _ (p : Primitives) (x25519 : IsX25519 p) where
  pub shared_secret-agrees :
      (ours theirs : Curve25519KeyPair)
      → IsKeyPair p ours
      → IsKeyPair p theirs
      → curve25519_shared_secret p ours (record { public_key = theirs.public_key })
        ≡ curve25519_shared_secret p theirs (record { public_key = ours.public_key })
  unfolding curve25519_shared_secret
  shared_secret-agrees ours theirs h k =
      rw (h.matches, k.matches) (x25519.agrees ours.private_key theirs.private_key)

  pub curve25519_generate_key-IsKeyPair :
      (random : Bytes) → IsKeyPair p (curve25519_generate_key p random)
  unfolding curve25519_generate_key
  curve25519_generate_key-IsKeyPair random = record { matches = refl }

  pub length-key : (k : Curve25519KeyPair) → IsKeyPair p k → length k.public_key ≡ 32
  length-key k h = rw h.matches (x25519.length-public k.private_key)

  -- The key that Alice's first message names.
  pub initialise-sender_key :
      (alice : Ratchet) (secret : Bytes) (ratchet_key : Curve25519KeyPair)
      → IsFresh alice
      → (slot
          (ratchet_initialise_as_alice p alice secret ratchet_key).sender_chain
          0
          unset_sender_chain).ratchet_key
        ≡ ratchet_key
  unfolding ratchet_initialise_as_alice
  initialise-sender_key alice secret ratchet_key fresh =
      ap (λ (c : SenderChain). c.ratchet_key)
        (slot-first alice.sender_chain _ fresh.no_sender fresh.sender_room unset_sender_chain)

  -- How long her first message is.
  pub initialise-encrypt_output_length :
      (alice : Ratchet) (secret : Bytes) (ratchet_key : Curve25519KeyPair) (n : ℕ)
      → IsFresh alice
      → encrypt_output_length (ratchet_initialise_as_alice p alice secret ratchet_key) n
        ≡ encode_message_length 0 32
            (alice.ratchet_cipher.encrypt_ciphertext_length n)
            alice.ratchet_cipher.mac_length
  unfolding ratchet_initialise_as_alice encrypt_output_length
  initialise-encrypt_output_length alice secret ratchet_key n fresh =
      let sender : SenderChain = record {
        ratchet_key = ratchet_key;
        chain_key = record {
          index = 0;
          key = take 32 (drop 32 (hkdf_sha256 p secret [] alice.kdf_info.root_info 64));
        };
      } in
      let first =
        slot-first alice.sender_chain sender fresh.no_sender fresh.sender_room unset_sender_chain in
      let there = empty-first alice.sender_chain sender fresh.no_sender fresh.sender_room in
      rw (there, first) refl

  -- With the same secret, Alice's ratchet and Bob's are in step from the first message on.
  pub initialise-InStep :
      (alice bob : Ratchet) (secret : Bytes) (ratchet_key : Curve25519KeyPair)
      → IsFresh alice
      → IsFresh bob
      → alice.kdf_info ≡ bob.kdf_info
      → alice.ratchet_cipher ≡ bob.ratchet_cipher
      → IsKeyPair p ratchet_key
      → InStep p
          (ratchet_initialise_as_alice p alice secret ratchet_key)
          (ratchet_initialise_as_bob p bob secret (record { public_key = ratchet_key.public_key }))
          0
          0
  unfolding ratchet_initialise_as_alice ratchet_initialise_as_bob find_chain iterate
  initialise-InStep alice bob secret ratchet_key fa fb info cipher pair =
      let root = bob.kdf_info.root_info in
      let chain_key : ChainKey = record {
        index = 0;
        key = take 32 (drop 32 (hkdf_sha256 p secret [] root 64));
      } in
      let sender : SenderChain = record { ratchet_key = ratchet_key; chain_key = chain_key } in
      let receiver : ReceiverChain = record {
        ratchet_key = record { public_key = ratchet_key.public_key };
        chain_key = chain_key;
      } in
      let a = slot-first alice.sender_chain sender fa.no_sender fa.sender_room unset_sender_chain in
      let b =
        slot-first bob.receiver_chains receiver fb.no_receiver fb.receiver_room
          unset_receiver_chain in
      let items = to_list-first bob.receiver_chains receiver fb.no_receiver fb.receiver_room in
      let sized = length-key ratchet_key pair in
      let here = same_bytes_self ratchet_key.public_key 32 sized in
      record {
        same_cipher = sym cipher;
        sender_present = empty-first alice.sender_chain _ fa.no_sender fa.sender_room;
        key_sized = rw (info, a) sized;
        found = rw (info, a, items, here) refl;
        ahead = rw (info, a, b) refl;
        near = omega arith;
        index_fits = rw b (omega arith);
      }
