-- ===== src/Ratchet/Pickled.antt =====
-- src/ratchet.c: the pickles of the chains, of their lists and of the ratchet. Writers and readers are
-- as in Pickle; the item that a list reader inserts is filled by the reader of the item.
pub mod ItemCodecs
pub mod ListRoundTrip
pub mod RoundTrip
use libce.Base.{ℕ, zero, suc, ◌+◌, ◌%◌, ◌^◌, Bool, Option, none, some, List, [], ◌∷◌, if◌then◌else◌}
use libce.Base.Maybe.{◌>>=◌}
use libce.Base.Bytes.{Bytes}
use libce.Pickle.{
  Curve25519PublicKey, Curve25519KeyPair, pickle_uint32, unpickle_uint32, pickle_bytes,
  unpickle_bytes, pickle_curve25519_public_key_length, pickle_curve25519_public_key,
  unpickle_curve25519_public_key, pickle_curve25519_key_pair_length, pickle_curve25519_key_pair,
  unpickle_curve25519_key_pair,
}
use libce.OlmList.{OlmList, init, to_list, insert}
use libce.Ratchet.{SenderChain, ReceiverChain, SkippedMessageKey, Ratchet, olm_shared_key_length}

abbrev pub shared_key_pickle_length : ℕ
shared_key_pickle_length = olm_shared_key_length

unfoldable pub shared_key_pickle : Bytes → Bytes → Bytes
shared_key_pickle pos value = pickle_bytes pos value olm_shared_key_length

unfoldable pub shared_key_unpickle : Option Bytes → Option (Bytes × Bytes)
shared_key_unpickle pos = unpickle_bytes pos olm_shared_key_length

abbrev pub pickle_uint32_length : ℕ
pickle_uint32_length = 4

unfoldable pub sender_chain_pickle_length : SenderChain → ℕ
sender_chain_pickle_length value =
    pickle_curve25519_key_pair_length value.ratchet_key
    + shared_key_pickle_length
    + pickle_uint32_length

unfoldable pub sender_chain_pickle : Bytes → SenderChain → Bytes
sender_chain_pickle pos value =
    let pos1 = pickle_curve25519_key_pair pos value.ratchet_key in
    let pos2 = shared_key_pickle pos1 value.chain_key.key in
    pickle_uint32 pos2 value.chain_key.index

unfoldable pub sender_chain_unpickle : Option Bytes → Option (SenderChain × Bytes)
sender_chain_unpickle pos = do
  (ratchet_key, pos1) ← unpickle_curve25519_key_pair pos
  (key, pos2) ← shared_key_unpickle (some pos1)
  (index, pos3) ← unpickle_uint32 (some pos2)
  some (record { ratchet_key = ratchet_key; chain_key = record { index = index; key = key } }, pos3)

unfoldable pub receiver_chain_pickle_length : ReceiverChain → ℕ
receiver_chain_pickle_length value =
    pickle_curve25519_public_key_length value.ratchet_key
    + shared_key_pickle_length
    + pickle_uint32_length

unfoldable pub receiver_chain_pickle : Bytes → ReceiverChain → Bytes
receiver_chain_pickle pos value =
    let pos1 = pickle_curve25519_public_key pos value.ratchet_key in
    let pos2 = shared_key_pickle pos1 value.chain_key.key in
    pickle_uint32 pos2 value.chain_key.index

unfoldable pub receiver_chain_unpickle : Option Bytes → Option (ReceiverChain × Bytes)
receiver_chain_unpickle pos = do
  (ratchet_key, pos1) ← unpickle_curve25519_public_key pos
  (key, pos2) ← shared_key_unpickle (some pos1)
  (index, pos3) ← unpickle_uint32 (some pos2)
  some (record { ratchet_key = ratchet_key; chain_key = record { index = index; key = key } }, pos3)

unfoldable pub skipped_message_key_pickle_length : SkippedMessageKey → ℕ
skipped_message_key_pickle_length value =
    pickle_curve25519_public_key_length value.ratchet_key
    + shared_key_pickle_length
    + pickle_uint32_length

unfoldable pub skipped_message_key_pickle : Bytes → SkippedMessageKey → Bytes
skipped_message_key_pickle pos value =
    let pos1 = pickle_curve25519_public_key pos value.ratchet_key in
    let pos2 = shared_key_pickle pos1 value.message_key.key in
    pickle_uint32 pos2 value.message_key.index

unfoldable pub skipped_message_key_unpickle : Option Bytes → Option (SkippedMessageKey × Bytes)
skipped_message_key_unpickle pos = do
  (ratchet_key, pos1) ← unpickle_curve25519_public_key pos
  (key, pos2) ← shared_key_unpickle (some pos1)
  (index, pos3) ← unpickle_uint32 (some pos2)
  some (
    record { ratchet_key = ratchet_key; message_key = record { index = index; key = key } },
    pos3,
  )

-- The loops over `_olm_list_begin` to `_olm_list_end`, the same in the three kinds of lists.
module _ {A : Type 0} where
  unfoldable pub items_pickle_length : (A → ℕ) → List A → ℕ
  items_pickle_length item_length [] = 0
  items_pickle_length item_length (x ∷ xs) = item_length x + items_pickle_length item_length xs

  unfoldable pub items_pickle : (Bytes → A → Bytes) → Bytes → List A → Bytes
  items_pickle item_pickle pos [] = pos
  items_pickle item_pickle pos (x ∷ xs) = items_pickle item_pickle (item_pickle pos x) xs

  -- `while (size-- && pos != end)`
  unfoldable pub items_unpickle :
      (Option Bytes → Option (A × Bytes)) → ℕ → Bytes → OlmList A → Option (OlmList A × Bytes)
  items_unpickle item_unpickle zero pos value = some (value, pos)
  items_unpickle item_unpickle (suc size) [] value = some (value, [])
  items_unpickle item_unpickle (suc size) (b ∷ pos) value = do
    (x, rest) ← item_unpickle (some (b ∷ pos))
    items_unpickle item_unpickle size rest (insert value value.size x)

  unfoldable pub list_pickle_length : (A → ℕ) → OlmList A → ℕ
  list_pickle_length item_length value =
      pickle_uint32_length + items_pickle_length item_length (to_list value)

  unfoldable pub list_pickle : (Bytes → A → Bytes) → Bytes → OlmList A → Bytes
  list_pickle item_pickle pos value =
      items_pickle item_pickle (pickle_uint32 pos (value.size % 2 ^ 32)) (to_list value)

  unfoldable pub list_unpickle :
      (Option Bytes → Option (A × Bytes)) → Option Bytes → OlmList A → Option (OlmList A × Bytes)
  list_unpickle item_unpickle pos value = do
    (size, pos1) ← unpickle_uint32 pos
    items_unpickle item_unpickle size pos1 (init value)

unfoldable pub sender_chain_list_pickle_length : OlmList SenderChain → ℕ
sender_chain_list_pickle_length value = list_pickle_length sender_chain_pickle_length value

unfoldable pub sender_chain_list_pickle : Bytes → OlmList SenderChain → Bytes
sender_chain_list_pickle pos value = list_pickle sender_chain_pickle pos value

unfoldable pub sender_chain_list_unpickle :
    Option Bytes → OlmList SenderChain → Option (OlmList SenderChain × Bytes)
sender_chain_list_unpickle pos value = list_unpickle sender_chain_unpickle pos value

unfoldable pub receiver_chain_list_pickle_length : OlmList ReceiverChain → ℕ
receiver_chain_list_pickle_length value = list_pickle_length receiver_chain_pickle_length value

unfoldable pub receiver_chain_list_pickle : Bytes → OlmList ReceiverChain → Bytes
receiver_chain_list_pickle pos value = list_pickle receiver_chain_pickle pos value

unfoldable pub receiver_chain_list_unpickle :
    Option Bytes → OlmList ReceiverChain → Option (OlmList ReceiverChain × Bytes)
receiver_chain_list_unpickle pos value = list_unpickle receiver_chain_unpickle pos value

unfoldable pub skipped_message_key_list_pickle_length : OlmList SkippedMessageKey → ℕ
skipped_message_key_list_pickle_length value =
    list_pickle_length skipped_message_key_pickle_length value

unfoldable pub skipped_message_key_list_pickle : Bytes → OlmList SkippedMessageKey → Bytes
skipped_message_key_list_pickle pos value = list_pickle skipped_message_key_pickle pos value

unfoldable pub skipped_message_key_list_unpickle :
    Option Bytes → OlmList SkippedMessageKey → Option (OlmList SkippedMessageKey × Bytes)
skipped_message_key_list_unpickle pos value = list_unpickle skipped_message_key_unpickle pos value

unfoldable pub ratchet_pickle_length : Ratchet → ℕ
ratchet_pickle_length ratchet =
    olm_shared_key_length
    + sender_chain_list_pickle_length ratchet.sender_chain
    + receiver_chain_list_pickle_length ratchet.receiver_chains
    + skipped_message_key_list_pickle_length ratchet.skipped_message_keys

unfoldable pub ratchet_pickle : Bytes → Ratchet → Bytes
ratchet_pickle pos ratchet =
    let pos1 = shared_key_pickle pos ratchet.root_key in
    let pos2 = sender_chain_list_pickle pos1 ratchet.sender_chain in
    let pos3 = receiver_chain_list_pickle pos2 ratchet.receiver_chains in
    skipped_message_key_list_pickle pos3 ratchet.skipped_message_keys

-- `if (includes_chain_index)`: a number that is read and dropped.
unfoldable pub chain_index_unpickle : Bool → Bytes → Option Bytes
chain_index_unpickle Bool.false pos = some pos
chain_index_unpickle Bool.true pos = do (dummy, rest) ← unpickle_uint32 (some pos); some rest

-- A ratchet that cannot be read is `none`; what is left of it then is not modelled.
unfoldable pub ratchet_unpickle : Option Bytes → Ratchet → Bool → Option (Ratchet × Bytes)
ratchet_unpickle pos ratchet includes_chain_index = do
  (root_key, pos1) ← shared_key_unpickle pos
  (sender_chain, pos2) ← sender_chain_list_unpickle (some pos1) ratchet.sender_chain
  (receiver_chains, pos3) ← receiver_chain_list_unpickle (some pos2) ratchet.receiver_chains
  (keys, pos4) ← skipped_message_key_list_unpickle (some pos3) ratchet.skipped_message_keys
  pos5 ← chain_index_unpickle includes_chain_index pos4
  some (
    record ratchet {
      root_key = root_key;
      sender_chain = sender_chain;
      receiver_chains = receiver_chains;
      skipped_message_keys = keys;
    },
    pos5,
  )
