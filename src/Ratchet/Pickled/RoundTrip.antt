-- ===== src/Ratchet/Pickled/RoundTrip.antt =====
-- The pickle of the ratchet is read back.
use libce.Base.{
  ◌∙◌, ap, sym, ℕ, ◌<◌, ◌≡◌, refl, Bool, true, false, some, [], ◌++◌, append_assoc, arith,
}
use libce.Base.Lists.{length, All, length-append}
use libce.Base.Bytes.{Bytes, IsU32}
use libce.Pickle.{
  pickle_uint32, pickle_curve25519_key_pair_length, pickle_curve25519_public_key_length,
  pickle_bytes,
}
use libce.Pickle.RoundTrip.{uint32-IsCodec, bytes-append, pickle_bytes-all, unpickle_bytes-append}
use libce.OlmList.{IsValid, capacity, to_list}
use libce.Ratchet.{
  Ratchet, SenderChain, ReceiverChain, SkippedMessageKey, olm_max_receiver_chains,
  olm_max_skipped_message_keys,
}
use libce.Ratchet.Pickled.{
  shared_key_pickle, shared_key_unpickle, sender_chain_pickle_length,
  sender_chain_list_pickle_length, sender_chain_list_pickle, sender_chain_list_unpickle,
  receiver_chain_pickle_length, receiver_chain_list_pickle_length, receiver_chain_list_pickle,
  receiver_chain_list_unpickle, skipped_message_key_pickle_length,
  skipped_message_key_list_pickle_length, skipped_message_key_list_pickle,
  skipped_message_key_list_unpickle, chain_index_unpickle, ratchet_pickle_length, ratchet_pickle,
  ratchet_unpickle,
}
use libce.Ratchet.Pickled.ItemCodecs.{
  IsSenderChain, IsReceiverChain, IsSkippedMessageKey, IsSenderChain-IsCodec,
  IsReceiverChain-IsCodec, IsSkippedMessageKey-IsCodec,
}
use libce.Ratchet.Pickled.ListRoundTrip.{
  list_pickle-append, length-list_pickle, list_unpickle-list_pickle,
}

-- The arrays of a ratchet have the sizes of the C struct, and its items fit.
pub record HasArrays (r : Ratchet) : Type 0 where
  pub sender_capacity : capacity r.sender_chain ≡ 1
  pub receiver_capacity : capacity r.receiver_chains ≡ olm_max_receiver_chains
  pub skipped_capacity : capacity r.skipped_message_keys ≡ olm_max_skipped_message_keys

pub record IsRatchet (r : Ratchet) : Type 0 where
  pub arrays : HasArrays r
  pub root_sized : length r.root_key ≡ 32
  pub sender_valid : IsValid r.sender_chain
  pub receiver_valid : IsValid r.receiver_chains
  pub skipped_valid : IsValid r.skipped_message_keys
  pub senders : All IsSenderChain (to_list r.sender_chain)
  pub receivers : All IsReceiverChain (to_list r.receiver_chains)
  pub skipped : All IsSkippedMessageKey (to_list r.skipped_message_keys)

-- The parts of a ratchet that a pickle holds.
pub record SameKeys (new r : Ratchet) : Type 0 where
  pub same_root : new.root_key ≡ r.root_key
  pub same_senders : to_list new.sender_chain ≡ to_list r.sender_chain
  pub same_receivers : to_list new.receiver_chains ≡ to_list r.receiver_chains
  pub same_skipped : to_list new.skipped_message_keys ≡ to_list r.skipped_message_keys

sender_not_empty : (x : SenderChain) → 0 < sender_chain_pickle_length x
unfolding sender_chain_pickle_length pickle_curve25519_key_pair_length
sender_not_empty x = omega arith

receiver_not_empty : (x : ReceiverChain) → 0 < receiver_chain_pickle_length x
unfolding receiver_chain_pickle_length pickle_curve25519_public_key_length
receiver_not_empty x = omega arith

skipped_not_empty : (x : SkippedMessageKey) → 0 < skipped_message_key_pickle_length x
unfolding skipped_message_key_pickle_length pickle_curve25519_public_key_length
skipped_not_empty x = omega arith

ratchet_pickle-parts :
    (out : Bytes) (r : Ratchet)
    → ratchet_pickle out r
      ≡ out
        ++ (pickle_bytes [] r.root_key 32
            ++ (sender_chain_list_pickle [] r.sender_chain
                ++ (receiver_chain_list_pickle [] r.receiver_chains
                    ++ skipped_message_key_list_pickle [] r.skipped_message_keys)))
unfolding ratchet_pickle shared_key_pickle sender_chain_list_pickle receiver_chain_list_pickle
    skipped_message_key_list_pickle
ratchet_pickle-parts out r =
    let root = pickle_bytes out r.root_key 32 in
    let senders = sender_chain_list_pickle [] r.sender_chain in
    let receivers = receiver_chain_list_pickle [] r.receiver_chains in
    let skipped = skipped_message_key_list_pickle [] r.skipped_message_keys in
    rw
      (
        list_pickle-append IsSkippedMessageKey-IsCodec skipped_not_empty
            (receiver_chain_list_pickle (sender_chain_list_pickle root r.sender_chain)
              r.receiver_chains)
            r.skipped_message_keys,
        list_pickle-append IsReceiverChain-IsCodec receiver_not_empty
            (sender_chain_list_pickle root r.sender_chain) r.receiver_chains,
        list_pickle-append IsSenderChain-IsCodec sender_not_empty root r.sender_chain,
        bytes-append out r.root_key 32,
        append_assoc ((out ++ pickle_bytes [] r.root_key 32) ++ senders) receivers skipped,
        append_assoc (out ++ pickle_bytes [] r.root_key 32) senders (receivers ++ skipped),
        append_assoc out (pickle_bytes [] r.root_key 32) (senders ++ (receivers ++ skipped)),
      )
      refl

-- The pickle of a ratchet that fits has the announced length.
pub length-ratchet_pickle :
    (r : Ratchet) → IsRatchet r → length (ratchet_pickle [] r) ≡ ratchet_pickle_length r
unfolding ratchet_pickle_length sender_chain_list_pickle_length receiver_chain_list_pickle_length
    skipped_message_key_list_pickle_length sender_chain_list_pickle receiver_chain_list_pickle
    skipped_message_key_list_pickle
length-ratchet_pickle r h =
    let senders = sender_chain_list_pickle [] r.sender_chain in
    let receivers = receiver_chain_list_pickle [] r.receiver_chains in
    let skipped = skipped_message_key_list_pickle [] r.skipped_message_keys in
    rw (ratchet_pickle-parts [] r, pickle_bytes-all r.root_key 32 h.root_sized)
      (omega (
        arith,
        h.root_sized,
        length-append r.root_key (senders ++ (receivers ++ skipped)),
        length-append senders (receivers ++ skipped),
        length-append receivers skipped,
        length-list_pickle IsSenderChain-IsCodec sender_not_empty r.sender_chain h.senders,
        length-list_pickle IsReceiverChain-IsCodec receiver_not_empty r.receiver_chains h.receivers,
        length-list_pickle IsSkippedMessageKey-IsCodec skipped_not_empty r.skipped_message_keys
            h.skipped,
      ))

pub ratchet_pickle-append :
    (out : Bytes) (r : Ratchet) → ratchet_pickle out r ≡ out ++ ratchet_pickle [] r
ratchet_pickle-append out r =
    ratchet_pickle-parts out r ∙ ap (◌++◌ out) (sym (ratchet_pickle-parts [] r))

ratchet_pickle-split :
    (r : Ratchet) (rest : Bytes)
    → length r.root_key ≡ 32
    → ratchet_pickle [] r ++ rest
      ≡ r.root_key
        ++ (sender_chain_list_pickle [] r.sender_chain
            ++ (receiver_chain_list_pickle [] r.receiver_chains
                ++ (skipped_message_key_list_pickle [] r.skipped_message_keys ++ rest)))
ratchet_pickle-split r rest h =
    let senders = sender_chain_list_pickle [] r.sender_chain in
    let receivers = receiver_chain_list_pickle [] r.receiver_chains in
    let skipped = skipped_message_key_list_pickle [] r.skipped_message_keys in
    rw
      (
        ratchet_pickle-parts [] r,
        pickle_bytes-all r.root_key 32 h,
        append_assoc r.root_key (senders ++ (receivers ++ skipped)) rest,
        append_assoc senders (receivers ++ skipped) rest,
        append_assoc receivers skipped rest,
      )
      refl

unpickle_with :
    (r old : Ratchet) (b : Bool) (tail rest : Bytes)
    → IsRatchet r
    → HasArrays old
    → chain_index_unpickle b tail ≡ some rest
    → (new : Ratchet) × (ratchet_unpickle (some (ratchet_pickle [] r ++ tail)) old b
        ≡ some (new, rest))
      × SameKeys new r
unfolding ratchet_unpickle shared_key_unpickle sender_chain_list_unpickle
    receiver_chain_list_unpickle skipped_message_key_list_unpickle sender_chain_list_pickle
    receiver_chain_list_pickle skipped_message_key_list_pickle
unpickle_with r old b tail rest h a index =
    let senders = sender_chain_list_pickle [] r.sender_chain in
    let receivers = receiver_chain_list_pickle [] r.receiver_chains in
    let skipped = skipped_message_key_list_pickle [] r.skipped_message_keys in
    let c1 = h.arrays.sender_capacity in
    let c2 = h.arrays.receiver_capacity in
    let c3 = h.arrays.skipped_capacity in
    let v1 = h.sender_valid.fits in
    let v2 = h.receiver_valid.fits in
    let v3 = h.skipped_valid.fits in
    let a1 = a.sender_capacity in
    let a2 = a.receiver_capacity in
    let a3 = a.skipped_capacity in
    let (new1, reads1, items1, kept1) =
      list_unpickle-list_pickle IsSenderChain-IsCodec sender_not_empty r.sender_chain
        old.sender_chain (receivers ++ (skipped ++ tail)) h.sender_valid h.senders (omega arith)
        (omega arith) in
    let (new2, reads2, items2, kept2) =
      list_unpickle-list_pickle IsReceiverChain-IsCodec receiver_not_empty r.receiver_chains
        old.receiver_chains (skipped ++ tail) h.receiver_valid h.receivers (omega arith)
        (omega arith) in
    let (new3, reads3, items3, kept3) =
      list_unpickle-list_pickle IsSkippedMessageKey-IsCodec skipped_not_empty r.skipped_message_keys
        old.skipped_message_keys tail h.skipped_valid h.skipped (omega arith) (omega arith) in
    (
      record old {
        root_key = r.root_key;
        sender_chain = new1;
        receiver_chains = new2;
        skipped_message_keys = new3;
      },
      rw
          (
            ratchet_pickle-split r tail h.root_sized,
            unpickle_bytes-append r.root_key (senders ++ (receivers ++ (skipped ++ tail))) 32
                h.root_sized,
            reads1,
            reads2,
            reads3,
            index,
          )
          refl,
      record {
        same_root = refl;
        same_senders = items1;
        same_receivers = items2;
        same_skipped = items3;
      },
    )

-- A ratchet that fits is read back from its pickle, with the same root key, chains and skipped keys,
-- into any ratchet struct, and the bytes behind the pickle are left.
pub ratchet_unpickle-ratchet_pickle :
    (r old : Ratchet) (rest : Bytes)
    → IsRatchet r
    → HasArrays old
    → (new : Ratchet) × (ratchet_unpickle (some (ratchet_pickle [] r ++ rest)) old false
        ≡ some (new, rest))
      × SameKeys new r
ratchet_unpickle-ratchet_pickle r old rest h a =
    unpickle_with r old false rest rest h a (unfold chain_index_unpickle in refl)

-- In the pickle version with a chain index, the 32-bit index behind the pickle of a ratchet that fits
-- is passed over.
pub ratchet_unpickle-with_chain_index :
    (r old : Ratchet) (index : ℕ) (rest : Bytes)
    → IsRatchet r
    → HasArrays old
    → IsU32 index
    → (new : Ratchet) × (ratchet_unpickle
          (some (ratchet_pickle [] r ++ (pickle_uint32 [] index ++ rest)))
          old
          true
        ≡ some (new, rest))
      × SameKeys new r
ratchet_unpickle-with_chain_index r old index rest h a small =
    unpickle_with r old true (pickle_uint32 [] index ++ rest) rest h a
      (unfold chain_index_unpickle in rw (uint32-IsCodec.restores index rest small) refl)
