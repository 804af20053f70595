-- ===== src/Pickle/Keys.antt =====
-- The pickled forms of keys.
use libce.Base.{ℕ, ◌≡◌, [], ◌++◌, append_assoc, arith}
use libce.Base.Lists.{length, length-append}
use libce.Base.Bytes.{Bytes}
use libce.Pickle.{
  pickle_bytes, Curve25519PublicKey, Curve25519KeyPair, Ed25519PublicKey, Ed25519KeyPair,
  pickle_curve25519_public_key_length, pickle_curve25519_public_key, unpickle_curve25519_public_key,
  pickle_curve25519_key_pair_length, pickle_curve25519_key_pair, unpickle_curve25519_key_pair,
  pickle_ed25519_public_key_length, pickle_ed25519_public_key, unpickle_ed25519_public_key,
  pickle_ed25519_key_pair_length, pickle_ed25519_key_pair, unpickle_ed25519_key_pair,
}
use libce.Pickle.Codec.{IsCodec}
use libce.Pickle.RoundTrip.{bytes-append, pickle_bytes-all, unpickle_bytes-append}

-- Both arrays have their C sizes.
pub record IsCurve25519PublicKey (k : Curve25519PublicKey) : Type 0 where
  pub public_sized : length k.public_key ≡ 32

pub record IsCurve25519KeyPair (k : Curve25519KeyPair) : Type 0 where
  pub public_sized : length k.public_key ≡ 32
  pub private_sized : length k.private_key ≡ 32

pub record IsEd25519PublicKey (k : Ed25519PublicKey) : Type 0 where
  pub public_sized : length k.public_key ≡ 32

pub record IsEd25519KeyPair (k : Ed25519KeyPair) : Type 0 where
  pub public_sized : length k.public_key ≡ 32
  pub private_sized : length k.private_key ≡ 64

-- Two arrays in a row.
pair-append :
    (out xs ys : Bytes) (m n : ℕ)
    → pickle_bytes (pickle_bytes out xs m) ys n ≡ out ++ pickle_bytes (pickle_bytes [] xs m) ys n
pair-append out xs ys m n =
    rw (bytes-append (pickle_bytes out xs m), bytes-append out, bytes-append (pickle_bytes [] xs m))
      (append_assoc out (pickle_bytes [] xs m) (pickle_bytes [] ys n))

pair-all :
    (xs ys : Bytes) (m n : ℕ)
    → length xs ≡ m
    → length ys ≡ n
    → pickle_bytes (pickle_bytes [] xs m) ys n ≡ xs ++ ys
pair-all xs ys m n p q =
    rw (bytes-append (pickle_bytes [] xs m), pickle_bytes-all xs m p, pickle_bytes-all ys n q)

pub IsCurve25519PublicKey-IsCodec :
    IsCodec IsCurve25519PublicKey pickle_curve25519_public_key_length pickle_curve25519_public_key
      unpickle_curve25519_public_key
unfolding pickle_curve25519_public_key_length pickle_curve25519_public_key
    unpickle_curve25519_public_key
IsCurve25519PublicKey-IsCodec = record {
  appends = λ out x. bytes-append out x.public_key 32;
  measured = λ x h. rw (pickle_bytes-all x.public_key 32 h.public_sized) h.public_sized;
  restores = λ x rest h. rw (
    pickle_bytes-all x.public_key 32 h.public_sized,
    unpickle_bytes-append x.public_key rest 32 h.public_sized,
  );
}

pub IsCurve25519KeyPair-IsCodec :
    IsCodec IsCurve25519KeyPair pickle_curve25519_key_pair_length pickle_curve25519_key_pair
      unpickle_curve25519_key_pair
unfolding pickle_curve25519_key_pair_length pickle_curve25519_key_pair unpickle_curve25519_key_pair
IsCurve25519KeyPair-IsCodec = record {
  appends = λ out x. pair-append out x.public_key x.private_key 32 32;
  measured = λ x h.
      rw (pair-all x.public_key x.private_key 32 32 h.public_sized h.private_sized)
        (omega (arith, length-append x.public_key x.private_key, h.public_sized, h.private_sized));
  restores = λ x rest h. rw (
    pair-all x.public_key x.private_key 32 32 h.public_sized h.private_sized,
    append_assoc x.public_key x.private_key rest,
    unpickle_bytes-append x.public_key (x.private_key ++ rest) 32 h.public_sized,
    unpickle_bytes-append x.private_key rest 32 h.private_sized,
  );
}

pub IsEd25519PublicKey-IsCodec :
    IsCodec IsEd25519PublicKey pickle_ed25519_public_key_length pickle_ed25519_public_key
      unpickle_ed25519_public_key
unfolding pickle_ed25519_public_key_length pickle_ed25519_public_key unpickle_ed25519_public_key
IsEd25519PublicKey-IsCodec = record {
  appends = λ out x. bytes-append out x.public_key 32;
  measured = λ x h. rw (pickle_bytes-all x.public_key 32 h.public_sized) h.public_sized;
  restores = λ x rest h. rw (
    pickle_bytes-all x.public_key 32 h.public_sized,
    unpickle_bytes-append x.public_key rest 32 h.public_sized,
  );
}

pub IsEd25519KeyPair-IsCodec :
    IsCodec IsEd25519KeyPair pickle_ed25519_key_pair_length pickle_ed25519_key_pair
      unpickle_ed25519_key_pair
unfolding pickle_ed25519_key_pair_length pickle_ed25519_key_pair unpickle_ed25519_key_pair
IsEd25519KeyPair-IsCodec = record {
  appends = λ out x. pair-append out x.public_key x.private_key 32 64;
  measured = λ x h.
      rw (pair-all x.public_key x.private_key 32 64 h.public_sized h.private_sized)
        (omega (arith, length-append x.public_key x.private_key, h.public_sized, h.private_sized));
  restores = λ x rest h. rw (
    pair-all x.public_key x.private_key 32 64 h.public_sized h.private_sized,
    append_assoc x.public_key x.private_key rest,
    unpickle_bytes-append x.public_key (x.private_key ++ rest) 32 h.public_sized,
    unpickle_bytes-append x.private_key rest 64 h.private_sized,
  );
}
