-- ===== src/Crypto/Signing.antt =====
-- Signatures: what `_olm_crypto_ed25519_sign` writes is accepted by `_olm_crypto_ed25519_verify`.
use libce.Base.{◌≡◌, refl, true, ◌++◌, arith}
use libce.Base.Lists.{length, All, length-append, All-append}
use libce.Base.Bytes.{Bytes, IsByte}
use libce.Pickle.{Ed25519KeyPair}
use libce.Crypto.{Primitives, reduce_scalar, ed25519_generate_key, ed25519_sign, ed25519_verify}

-- Ed25519 in terms of the group: for a scalar `a` with the public point of `a`, the point of any
-- scalar `r` followed by `r + H(R, A, message) a` is a signature. Points and scalars are arrays of 32
-- `uint8_t`. The scalar zero, which a hash gives with a negligible probability, is passed over.
pub record IsEd25519 (p : Primitives) : Type 0 where
  pub accepts :
      (a r message : Bytes)
      → p.sign_ed25519_verify_detached
          (p.scalarmult_ed25519_base_noclamp r
            ++ p.scalar_add
                (p.scalar_mul
                  (p.scalar_reduce (
                    p.hash_sha512 (
                      p.scalarmult_ed25519_base_noclamp r
                      ++ (p.scalarmult_ed25519_base_noclamp a ++ message))))
                  a)
                r)
          message
          (p.scalarmult_ed25519_base_noclamp a)
        ≡ true
  pub length-point : (a : Bytes) → length (p.scalarmult_ed25519_base_noclamp a) ≡ 32
  pub length-scalar : (a b : Bytes) → length (p.scalar_add a b) ≡ 32
  pub bytes-point : (a : Bytes) → All IsByte (p.scalarmult_ed25519_base_noclamp a)
  pub bytes-scalar : (a b : Bytes) → All IsByte (p.scalar_add a b)

length-halves : (xs ys : Bytes) → length xs ≡ 32 → length ys ≡ 32 → length (xs ++ ys) ≡ 64
length-halves xs ys hx hy = omega (arith, length-append xs ys)

-- The public key is that of the private key.
pub record IsPair (p : Primitives) (k : Ed25519KeyPair) : Type 0 where
  pub matches : k.public_key ≡ p.scalarmult_ed25519_base_noclamp (reduce_scalar p k.private_key)

module _ (p : Primitives) (ed25519 : IsEd25519 p) where
  pub ed25519_generate_key-IsPair : (random : Bytes) → IsPair p (ed25519_generate_key p random)
  unfolding ed25519_generate_key
  ed25519_generate_key-IsPair random = record { matches = refl }

  -- Over the equation of Ed25519, a signature made with a key pair is accepted under its public key.
  pub ed25519_verify-ed25519_sign :
      (k : Ed25519KeyPair) (message : Bytes)
      → IsPair p k
      → ed25519_verify p (record { public_key = k.public_key }) message (ed25519_sign p k message)
        ≡ true
  unfolding ed25519_verify ed25519_sign
  ed25519_verify-ed25519_sign k message pair =
      rw pair.matches (ed25519.accepts (reduce_scalar p k.private_key) _ message)

  pub length-ed25519_sign :
      (k : Ed25519KeyPair) (message : Bytes) → length (ed25519_sign p k message) ≡ 64
  unfolding ed25519_sign
  length-ed25519_sign k message =
      length-halves _ _ (ed25519.length-point _) (ed25519.length-scalar _ _)

  pub ed25519_sign-bytes :
      (k : Ed25519KeyPair) (message : Bytes) → All IsByte (ed25519_sign p k message)
  unfolding ed25519_sign
  ed25519_sign-bytes k message =
      All-append IsByte _ _ (ed25519.bytes-point _) (ed25519.bytes-scalar _ _)
