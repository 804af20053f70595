-- ===== src/Ratchet/Invariant.antt =====
-- The lists of a ratchet stay inside their arrays, and the arrays keep the sizes of the C struct.
use libce.Base.{
  ℕ, zero, suc, ◌-◌, ◌<◌, ◌≡◌, ◌∙◌, Option, none, some, ltb, arith, Bool-cases, inl, inr, ◌⊎◌,
}
use libce.Base.Lists.{length, set, length-set}
use libce.Base.Bytes.{Bytes}
use libce.Pickle.{Curve25519PublicKey, Curve25519KeyPair}
use libce.Crypto.{Primitives}
use libce.OlmList.{OlmList, IsValid, capacity, init, empty, insert_front, erase, to_list}
use libce.OlmList.Insert.{insert-IsValid}
use libce.OlmList.Erase.{erase-IsValid}
use libce.Message.{MessageReader, decode_message}
use libce.Cipher.{Cipher}
use libce.Ratchet.{
  ChainKey, SkippedMessageKey, KdfInfo, Ratchet, slot, unset_receiver_chain, ratchet_init,
  ratchet_initialise_as_alice, ratchet_initialise_as_bob,
}
use libce.Ratchet.Encrypt.{
  start_sender_chain, advance_sender_chain, ratchet_encrypt, encrypt_random_length,
  encrypt_output_length,
}
use libce.Ratchet.Sending.{Refuses, Sends, ratchet_encrypt-Sends}
use libce.Ratchet.Decrypt.{
  Received, Checked, rejected, accepted, check_reader, find_chain, skip_while, add_chain,
  finish_chain, conclude, use_skipped, decrypt_with, decrypt_checked, decrypt_read, ratchet_decrypt,
}

-- A list inside an array of `n` items.
pub record IsIn {A : Type 0} (n : ℕ) (l : OlmList A) : Type 0 where
  pub valid : IsValid l
  pub sized : capacity l ≡ n

pub record IsWellFormed (r : Ratchet) : Type 0 where
  pub sender_in : IsIn 1 r.sender_chain
  pub receivers_in : IsIn 5 r.receiver_chains
  pub skipped_in : IsIn 40 r.skipped_message_keys

init-IsIn : {A : Type 0} {n : ℕ} (l : OlmList A) → capacity l ≡ n → IsIn n (init l)
unfolding init
init-IsIn l h = record { valid = record { fits = omega arith }; sized = h }

insert_front-IsIn :
    {A : Type 0} {n : ℕ} (l : OlmList A) (v : A) → 0 < n → IsIn n l → IsIn n (insert_front l v)
unfolding insert_front
insert_front-IsIn l v pos h =
    let size = h.sized in
    let (ok, same) = insert-IsValid l 0 v h.valid (omega arith) (omega arith) in
    record { valid = ok; sized = same ∙ h.sized }

erase-IsIn : {A : Type 0} {n : ℕ} (l : OlmList A) (i : ℕ) → IsIn n l → IsIn n (erase l i)
erase-IsIn l i h =
    let (ok, same) = erase-IsValid l i h.valid in record { valid = ok; sized = same ∙ h.sized }

set-IsIn :
    {A : Type 0} {n : ℕ} (l : OlmList A) (i : ℕ) (v : A)
    → IsIn n l
    → IsIn n (record { size = l.size; data_array = set l.data_array i v })
set-IsIn l i v h =
    let fits = h.valid.fits in
    let same = length-set l.data_array i v in
    let size = h.sized in record { valid = record { fits = omega arith }; sized = omega arith }

-- On arrays of the right sizes, a ratchet that is initialised, and then set up by either side, is
-- well formed.
pub ratchet_init-IsWellFormed :
    (p : Primitives) (r : Ratchet) (info : KdfInfo) (c : Cipher) (secret : Bytes)
    (their_key : Curve25519PublicKey) (our_key : Curve25519KeyPair)
    → capacity r.sender_chain ≡ 1
    → capacity r.receiver_chains ≡ 5
    → capacity r.skipped_message_keys ≡ 40
    → IsWellFormed (ratchet_init r info c)
      × IsWellFormed (ratchet_initialise_as_alice p (ratchet_init r info c) secret our_key)
      × IsWellFormed (ratchet_initialise_as_bob p (ratchet_init r info c) secret their_key)
unfolding ratchet_init ratchet_initialise_as_alice ratchet_initialise_as_bob
ratchet_init-IsWellFormed p r info c secret their_key our_key h1 h2 h3 =
    let senders = init-IsIn r.sender_chain h1 in
    let receivers = init-IsIn r.receiver_chains h2 in
    let skipped = init-IsIn r.skipped_message_keys h3 in
    (
      record { sender_in = senders; receivers_in = receivers; skipped_in = skipped },
      record {
        sender_in = insert_front-IsIn (init r.sender_chain) _ (omega arith) senders;
        receivers_in = receivers;
        skipped_in = skipped;
      },
      record {
        sender_in = senders;
        receivers_in = insert_front-IsIn (init r.receiver_chains) _ (omega arith) receivers;
        skipped_in = skipped;
      },
    )

module _ (p : Primitives) where
  start_sender_chain-IsWellFormed :
      (r : Ratchet) (random : Bytes) → IsWellFormed r → IsWellFormed (start_sender_chain p r random)
  unfolding start_sender_chain
  start_sender_chain-IsWellFormed r random h = elim (Bool-cases (empty r.sender_chain)) [
    | inl e ↦ rw e (record {
      sender_in = insert_front-IsIn r.sender_chain _ (omega arith) h.sender_in;
      receivers_in = h.receivers_in;
      skipped_in = h.skipped_in;
    })
    | inr e ↦ rw e h
  ]

  advance_sender_chain-IsWellFormed :
      (r : Ratchet) → IsWellFormed r → IsWellFormed (advance_sender_chain p r)
  unfolding advance_sender_chain
  advance_sender_chain-IsWellFormed r h = record {
    sender_in = set-IsIn r.sender_chain 0 _ h.sender_in;
    receivers_in = h.receivers_in;
    skipped_in = h.skipped_in;
  }

  encrypted-IsWellFormed :
      (r : Ratchet) (plaintext random output : Bytes)
      → IsWellFormed r
      → IsWellFormed (ratchet_encrypt p r plaintext random output).1
  unfolding ratchet_encrypt
  encrypted-IsWellFormed r plaintext random output h =
      elim (Bool-cases (ltb (length random) (encrypt_random_length r))) [
        | inl e ↦ rw e (record {
          sender_in = h.sender_in;
          receivers_in = h.receivers_in;
          skipped_in = h.skipped_in;
        })
        | inr e ↦
            rw e
              (elim (Bool-cases
                (ltb (length output) (encrypt_output_length r (length plaintext)))) [
                  | inl f ↦ rw f (record {
                    sender_in = h.sender_in;
                    receivers_in = h.receivers_in;
                    skipped_in = h.skipped_in;
                  })
                  | inr f ↦ rw f (
                      advance_sender_chain-IsWellFormed (start_sender_chain p r random)
                        (start_sender_chain-IsWellFormed r random h))
                ])
      ]

  -- An encryption, whether it fails or not, keeps a ratchet well formed. Without a result only the last
  -- error changes. With one, the array holds one sender chain: the one that was there, with its chain key
  -- moved to the next index, or, where there was none, a chain that is derived from the root key and a
  -- key pair of the random bytes, moved likewise, with the new root key. Nothing else changes.
  pub ratchet_encrypt-IsWellFormed :
      (r : Ratchet) (plaintext random output : Bytes)
      → IsWellFormed r
      → IsWellFormed (ratchet_encrypt p r plaintext random output).1
        × (Refuses r
              (ratchet_encrypt p r plaintext random output).1
              (ratchet_encrypt p r plaintext random output).0
            ⊎ Sends p r
                (ratchet_encrypt p r plaintext random output).1
                random
                (ratchet_encrypt p r plaintext random output).0)
  ratchet_encrypt-IsWellFormed r plaintext random output h = (
    encrypted-IsWellFormed r plaintext random output h,
    ratchet_encrypt-Sends p r random h.sender_in.valid h.sender_in.sized plaintext output,
  )

  skip_while-IsIn :
      (fuel counter : ℕ) (key : Curve25519PublicKey) (keys : OlmList SkippedMessageKey)
      (chain : ChainKey)
      → IsIn 40 keys
      → IsIn 40 (skip_while p fuel counter key keys chain).0
  unfolding skip_while
  skip_while-IsIn zero counter key keys chain h = h
  skip_while-IsIn (suc fuel) counter key keys chain h =
      elim (Bool-cases (ltb chain.index counter)) [
        | inl e ↦
            rw e (skip_while-IsIn fuel counter key _ _ (insert_front-IsIn keys _ (omega arith) h))
        | inr e ↦ rw e h
      ]

  add_chain-IsWellFormed :
      (r : Ratchet) (key : Bytes) → IsWellFormed r → IsWellFormed (add_chain p r key)
  unfolding add_chain
  add_chain-IsWellFormed r key h = record {
    sender_in = erase-IsIn _ 0 (set-IsIn r.sender_chain 0 _ h.sender_in);
    receivers_in = insert_front-IsIn r.receiver_chains _ (omega arith) h.receivers_in;
    skipped_in = h.skipped_in;
  }

  finish_chain-IsWellFormed :
      (r : Ratchet) (i counter : ℕ) → IsWellFormed r → IsWellFormed (finish_chain p r i counter)
  unfolding finish_chain
  finish_chain-IsWellFormed r i counter h =
      let chain = slot r.receiver_chains i unset_receiver_chain in
      record {
        sender_in = h.sender_in;
        receivers_in = set-IsIn r.receiver_chains i _ h.receivers_in;
        skipped_in =
            skip_while-IsIn (counter - chain.chain_key.index) counter chain.ratchet_key
              r.skipped_message_keys chain.chain_key h.skipped_in;
      }

  conclude-IsWellFormed :
      (r next : Ratchet) (result : Option Bytes)
      → IsWellFormed r
      → IsWellFormed next
      → IsWellFormed (conclude p r next result).1
  unfolding conclude
  conclude-IsWellFormed r next none h k = record {
    sender_in = h.sender_in;
    receivers_in = h.receivers_in;
    skipped_in = h.skipped_in;
  }
  conclude-IsWellFormed r next (some plaintext) h k = k

  use_skipped-IsWellFormed :
      (r : Ratchet) (found : Option (ℕ × Bytes))
      → IsWellFormed r
      → IsWellFormed (use_skipped p r found).1
  unfolding use_skipped
  use_skipped-IsWellFormed r none h = record {
    sender_in = h.sender_in;
    receivers_in = h.receivers_in;
    skipped_in = h.skipped_in;
  }
  use_skipped-IsWellFormed r (some (i, plaintext)) h = record {
    sender_in = h.sender_in;
    receivers_in = h.receivers_in;
    skipped_in = erase-IsIn _ i (set-IsIn r.skipped_message_keys i _ h.skipped_in);
  }

  decrypt_with-IsWellFormed :
      (r : Ratchet) (message : Received) (max_length : ℕ) (found : Option ℕ)
      → IsWellFormed r
      → IsWellFormed (decrypt_with p r message max_length found).1
  unfolding decrypt_with
  decrypt_with-IsWellFormed r message max_length none h = conclude-IsWellFormed r _ _ h (
      finish_chain-IsWellFormed _ 0 message.counter
        (add_chain-IsWellFormed r message.ratchet_key h))
  decrypt_with-IsWellFormed r message max_length (some i) h =
      let chain = slot r.receiver_chains i unset_receiver_chain in
      elim (Bool-cases (ltb message.counter chain.chain_key.index)) [
        | inl e ↦ rw e (use_skipped-IsWellFormed r _ h)
        | inr e ↦
            rw e (conclude-IsWellFormed r _ _ h (finish_chain-IsWellFormed r i message.counter h))
      ]

  decrypt_checked-IsWellFormed :
      (r : Ratchet) (max_length : ℕ) (checked : Checked)
      → IsWellFormed r
      → IsWellFormed (decrypt_checked p r max_length checked).1
  unfolding decrypt_checked
  decrypt_checked-IsWellFormed r max_length (rejected error) h = record {
    sender_in = h.sender_in;
    receivers_in = h.receivers_in;
    skipped_in = h.skipped_in;
  }
  decrypt_checked-IsWellFormed r max_length (accepted message) h =
      decrypt_with-IsWellFormed r message max_length
        (find_chain (to_list r.receiver_chains) message.ratchet_key) h

  decrypt_read-IsWellFormed :
      (r : Ratchet) (max_length : ℕ) (reader : Option MessageReader)
      → IsWellFormed r
      → IsWellFormed (decrypt_read p r max_length reader).1
  unfolding decrypt_read
  decrypt_read-IsWellFormed r max_length none h = h
  decrypt_read-IsWellFormed r max_length (some reader) h =
      decrypt_checked-IsWellFormed r max_length (check_reader r.ratchet_cipher reader max_length) h

  -- A decryption, whether it fails or not, keeps a ratchet well formed: however many messages are
  -- skipped, the skipped keys stay inside their array.
  pub ratchet_decrypt-IsWellFormed :
      (r : Ratchet) (input : Bytes) (max_length : ℕ)
      → IsWellFormed r
      → IsWellFormed (ratchet_decrypt p r input max_length).1
  unfolding ratchet_decrypt
  ratchet_decrypt-IsWellFormed r input max_length h =
      decrypt_read-IsWellFormed r max_length (decode_message input r.ratchet_cipher.mac_length) h
