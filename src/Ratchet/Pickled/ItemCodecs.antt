-- ===== src/Ratchet/Pickled/ItemCodecs.antt =====
-- The pickles of the three kinds of items: a key, 32 bytes of chain or message key, and an index.
use libce.Base.{ℕ, ◌+◌, ◌≡◌, refl, ap, ◌∙◌, sym, Option, [], ◌++◌, append_assoc, arith}
use libce.Base.Lists.{length, length-append}
use libce.Base.Bytes.{Bytes, IsU32}
use libce.Pickle.{
  pickle_uint32, pickle_bytes, pickle_curve25519_public_key_length,
  pickle_curve25519_key_pair_length,
}
use libce.Pickle.Codec.{IsCodec}
use libce.Pickle.RoundTrip.{uint32-IsCodec, bytes-append, pickle_bytes-all, unpickle_bytes-append}
use libce.Pickle.Keys.{
  IsCurve25519PublicKey, IsCurve25519KeyPair, IsCurve25519PublicKey-IsCodec,
  IsCurve25519KeyPair-IsCodec,
}
use libce.Ratchet.{SenderChain, ReceiverChain, SkippedMessageKey}
use libce.Ratchet.Pickled.{
  shared_key_pickle, shared_key_unpickle, sender_chain_pickle_length, sender_chain_pickle,
  sender_chain_unpickle, receiver_chain_pickle_length, receiver_chain_pickle,
  receiver_chain_unpickle, skipped_message_key_pickle_length, skipped_message_key_pickle,
  skipped_message_key_unpickle,
}

-- Items that fit their C structs.
pub record IsSenderChain (c : SenderChain) : Type 0 where
  pub key_sized : IsCurve25519KeyPair c.ratchet_key
  pub chain_sized : length c.chain_key.key ≡ 32
  pub index_fits : IsU32 c.chain_key.index

pub record IsReceiverChain (c : ReceiverChain) : Type 0 where
  pub key_sized : IsCurve25519PublicKey c.ratchet_key
  pub chain_sized : length c.chain_key.key ≡ 32
  pub index_fits : IsU32 c.chain_key.index

pub record IsSkippedMessageKey (c : SkippedMessageKey) : Type 0 where
  pub key_sized : IsCurve25519PublicKey c.ratchet_key
  pub message_sized : length c.message_key.key ≡ 32
  pub index_fits : IsU32 c.message_key.index

-- A key in any codec, then a shared key, then an index.
module _ {K : Type 0} {Valid : K → Type 0} {key_length : K → ℕ} {pickle : Bytes → K → Bytes}
    {unpickle : Option Bytes → Option (K × Bytes)}
    (codec : IsCodec Valid key_length pickle unpickle) where
  fields_pickle : Bytes → K → Bytes → ℕ → Bytes
  fields_pickle out k s i = pickle_uint32 (shared_key_pickle (pickle out k) s) i

  fields-parts :
      (out : Bytes) (k : K) (s : Bytes) (i : ℕ)
      → fields_pickle out k s i
        ≡ out ++ (pickle [] k ++ (pickle_bytes [] s 32 ++ pickle_uint32 [] i))
  unfolding fields_pickle shared_key_pickle
  fields-parts out k s i =
      rw
        (
          uint32-IsCodec.appends,
          bytes-append (pickle out k) s 32,
          codec.appends out k,
          append_assoc (out ++ pickle [] k) (pickle_bytes [] s 32) (pickle_uint32 [] i),
          append_assoc out (pickle [] k) (pickle_bytes [] s 32 ++ pickle_uint32 [] i),
        )
        refl

  fields-append :
      (out : Bytes) (k : K) (s : Bytes) (i : ℕ)
      → fields_pickle out k s i ≡ out ++ fields_pickle [] k s i
  fields-append out k s i = fields-parts out k s i ∙ ap (◌++◌ out) (sym (fields-parts [] k s i))

  length-fields :
      (k : K) (s : Bytes) (i : ℕ)
      → Valid k
      → length s ≡ 32
      → IsU32 i
      → length (fields_pickle [] k s i) ≡ key_length k + 32 + 4
  length-fields k s i hk hs hi =
      rw (fields-parts [] k s i, pickle_bytes-all s 32 hs)
        (omega (
          arith,
          length-append (pickle [] k) (s ++ pickle_uint32 [] i),
          length-append s (pickle_uint32 [] i),
          codec.measured k hk,
          uint32-IsCodec.measured i hi,
        ))

  fields-split :
      (k : K) (s : Bytes) (i : ℕ) (rest : Bytes)
      → length s ≡ 32
      → fields_pickle [] k s i ++ rest ≡ pickle [] k ++ (s ++ (pickle_uint32 [] i ++ rest))
  fields-split k s i rest hs =
      rw
        (
          fields-parts [] k s i,
          pickle_bytes-all s 32 hs,
          append_assoc (pickle [] k) (s ++ pickle_uint32 [] i) rest,
          append_assoc s (pickle_uint32 [] i) rest,
        )
        refl

-- The pickle of a sender chain is a codec.
pub IsSenderChain-IsCodec :
    IsCodec IsSenderChain sender_chain_pickle_length sender_chain_pickle sender_chain_unpickle
unfolding sender_chain_pickle_length sender_chain_pickle sender_chain_unpickle fields_pickle
    shared_key_unpickle pickle_curve25519_key_pair_length
IsSenderChain-IsCodec =
    let codec = IsCurve25519KeyPair-IsCodec in
    record {
      appends = λ out x. fields-append codec out x.ratchet_key x.chain_key.key x.chain_key.index;
      measured = λ x h.
          length-fields codec x.ratchet_key x.chain_key.key x.chain_key.index h.key_sized
            h.chain_sized h.index_fits;
      restores = λ x rest h.
          rw
            (
              fields-split codec x.ratchet_key x.chain_key.key x.chain_key.index rest h.chain_sized,
              codec.restores x.ratchet_key
                  (x.chain_key.key ++ (pickle_uint32 [] x.chain_key.index ++ rest)) h.key_sized,
              unpickle_bytes-append x.chain_key.key (pickle_uint32 [] x.chain_key.index ++ rest) 32
                  h.chain_sized,
              uint32-IsCodec.restores x.chain_key.index rest h.index_fits,
            )
            refl;
    }

-- The pickle of a receiver chain is a codec.
pub IsReceiverChain-IsCodec :
    IsCodec IsReceiverChain receiver_chain_pickle_length receiver_chain_pickle
      receiver_chain_unpickle
unfolding receiver_chain_pickle_length receiver_chain_pickle receiver_chain_unpickle fields_pickle
    shared_key_unpickle pickle_curve25519_public_key_length
IsReceiverChain-IsCodec =
    let codec = IsCurve25519PublicKey-IsCodec in
    record {
      appends = λ out x. fields-append codec out x.ratchet_key x.chain_key.key x.chain_key.index;
      measured = λ x h.
          length-fields codec x.ratchet_key x.chain_key.key x.chain_key.index h.key_sized
            h.chain_sized h.index_fits;
      restores = λ x rest h.
          rw
            (
              fields-split codec x.ratchet_key x.chain_key.key x.chain_key.index rest h.chain_sized,
              codec.restores x.ratchet_key
                  (x.chain_key.key ++ (pickle_uint32 [] x.chain_key.index ++ rest)) h.key_sized,
              unpickle_bytes-append x.chain_key.key (pickle_uint32 [] x.chain_key.index ++ rest) 32
                  h.chain_sized,
              uint32-IsCodec.restores x.chain_key.index rest h.index_fits,
            )
            refl;
    }

-- The pickle of a skipped message key is a codec.
pub IsSkippedMessageKey-IsCodec :
    IsCodec IsSkippedMessageKey skipped_message_key_pickle_length skipped_message_key_pickle
      skipped_message_key_unpickle
unfolding skipped_message_key_pickle_length skipped_message_key_pickle skipped_message_key_unpickle
    fields_pickle shared_key_unpickle pickle_curve25519_public_key_length
IsSkippedMessageKey-IsCodec =
    let codec = IsCurve25519PublicKey-IsCodec in
    record {
      appends =
          λ out x. fields-append codec out x.ratchet_key x.message_key.key x.message_key.index;
      measured = λ x h.
          length-fields codec x.ratchet_key x.message_key.key x.message_key.index h.key_sized
            h.message_sized h.index_fits;
      restores = λ x rest h.
          rw
            (
              fields-split codec x.ratchet_key x.message_key.key x.message_key.index rest
                  h.message_sized,
              codec.restores x.ratchet_key
                  (x.message_key.key ++ (pickle_uint32 [] x.message_key.index ++ rest)) h.key_sized,
              unpickle_bytes-append x.message_key.key (pickle_uint32 [] x.message_key.index ++ rest)
                  32 h.message_sized,
              uint32-IsCodec.restores x.message_key.index rest h.index_fits,
            )
            refl;
    }
