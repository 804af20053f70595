-- ===== src/Account/Codecs.antt =====
-- The pickled forms of a one-time key and of the identity keys.
use libce.Base.{◌≡◌, refl, ap, ◌∙◌, sym, [], ◌++◌, append_assoc, arith}
use libce.Base.Lists.{length-append}
use libce.Base.Bytes.{Bytes, IsU32}
use libce.Pickle.{pickle_uint32, pickle_bool, pickle_curve25519_key_pair, pickle_ed25519_key_pair}
use libce.Pickle.Codec.{IsCodec}
use libce.Pickle.RoundTrip.{uint32-IsCodec, bool-IsCodec}
use libce.Pickle.Keys.{
  IsCurve25519KeyPair, IsEd25519KeyPair, IsCurve25519KeyPair-IsCodec, IsEd25519KeyPair-IsCodec,
}
use libce.Account.{IdentityKeys, OneTimeKey}
use libce.Account.Stored.{
  pickle_identity_keys_length, pickle_identity_keys, unpickle_identity_keys,
  pickle_one_time_key_length, pickle_one_time_key, unpickle_one_time_key,
}

pub record IsOneTimeKey (k : OneTimeKey) : Type 0 where
  pub id_fits : IsU32 k.id
  pub key_sized : IsCurve25519KeyPair k.key

pub record IsIdentityKeys (k : IdentityKeys) : Type 0 where
  pub ed25519_sized : IsEd25519KeyPair k.ed25519_key
  pub curve25519_sized : IsCurve25519KeyPair k.curve25519_key

one_time_key-parts :
    (out : Bytes) (k : OneTimeKey)
    → pickle_one_time_key out k
      ≡ out
        ++ (pickle_uint32 [] k.id
            ++ (pickle_bool [] k.published ++ pickle_curve25519_key_pair [] k.key))
unfolding pickle_one_time_key
one_time_key-parts out k =
    let at1 = pickle_uint32 out k.id in
    let at2 = pickle_bool at1 k.published in
    rw
      (
        IsCurve25519KeyPair-IsCodec.appends at2 k.key,
        bool-IsCodec.appends at1 k.published,
        uint32-IsCodec.appends out k.id,
      )
      (simp append_assoc)

pub IsOneTimeKey-IsCodec :
    IsCodec IsOneTimeKey pickle_one_time_key_length pickle_one_time_key unpickle_one_time_key
unfolding pickle_one_time_key_length unpickle_one_time_key
IsOneTimeKey-IsCodec = record {
  appends = λ out k. one_time_key-parts out k ∙ ap (◌++◌ out) (sym (one_time_key-parts [] k));
  measured = λ k h. rw (one_time_key-parts [] k) (
      omega (
        arith,
        length-append (pickle_uint32 [] k.id)
            (pickle_bool [] k.published ++ pickle_curve25519_key_pair [] k.key),
        length-append (pickle_bool [] k.published) (pickle_curve25519_key_pair [] k.key),
        uint32-IsCodec.measured k.id h.id_fits,
        bool-IsCodec.measured k.published tt,
        IsCurve25519KeyPair-IsCodec.measured k.key h.key_sized,
      ));
  restores = λ k rest h.
      let key = pickle_curve25519_key_pair [] k.key in
      let flag = pickle_bool [] k.published in
      rw
        (
          one_time_key-parts [] k,
          append_assoc (pickle_uint32 [] k.id) (flag ++ key) rest,
          append_assoc flag key rest,
          uint32-IsCodec.restores k.id (flag ++ (key ++ rest)) h.id_fits,
          bool-IsCodec.restores k.published (key ++ rest) tt,
          IsCurve25519KeyPair-IsCodec.restores k.key rest h.key_sized,
        )
        refl;
}

pub IsIdentityKeys-IsCodec :
    IsCodec IsIdentityKeys pickle_identity_keys_length pickle_identity_keys unpickle_identity_keys
unfolding pickle_identity_keys_length pickle_identity_keys unpickle_identity_keys
IsIdentityKeys-IsCodec = record {
  appends = λ out k.
      rw
        (
          IsCurve25519KeyPair-IsCodec.appends (pickle_ed25519_key_pair out k.ed25519_key)
              k.curve25519_key,
          IsCurve25519KeyPair-IsCodec.appends (pickle_ed25519_key_pair [] k.ed25519_key)
              k.curve25519_key,
          IsEd25519KeyPair-IsCodec.appends out k.ed25519_key,
        )
        (append_assoc out _ _);
  measured = λ k h.
      rw
        (IsCurve25519KeyPair-IsCodec.appends (pickle_ed25519_key_pair [] k.ed25519_key)
          k.curve25519_key)
        (omega (
          arith,
          length-append (pickle_ed25519_key_pair [] k.ed25519_key)
              (pickle_curve25519_key_pair [] k.curve25519_key),
          IsEd25519KeyPair-IsCodec.measured k.ed25519_key h.ed25519_sized,
          IsCurve25519KeyPair-IsCodec.measured k.curve25519_key h.curve25519_sized,
        ));
  restores = λ k rest h.
      let ed = pickle_ed25519_key_pair [] k.ed25519_key in
      let curve = pickle_curve25519_key_pair [] k.curve25519_key in
      rw
        (
          IsCurve25519KeyPair-IsCodec.appends ed k.curve25519_key,
          append_assoc ed curve rest,
          IsEd25519KeyPair-IsCodec.restores k.ed25519_key (curve ++ rest) h.ed25519_sized,
          IsCurve25519KeyPair-IsCodec.restores k.curve25519_key rest h.curve25519_sized,
        )
        refl;
}
