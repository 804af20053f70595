-- ===== src/Crypto/Example.antt =====
-- Small functions in place of the primitives, on which the development can be run.
use libce.Base.{ap, ◌+◌, ◌*◌, ◌%◌, refl, true, arith, []}
use libce.Base.Lists.{get_or, replicate, All, All-replicate}
use libce.Base.Bytes.{Bytes, IsByte}
use libce.Crypto.{Primitives}
use libce.Crypto.Aes.{IsCbc}
use libce.Crypto.Outputs.{IsHmac, AreBytes, IsX25519, ArePublicBytes}
use libce.Crypto.Signing.{IsEd25519}

abbrev pub example_hash : Bytes → Bytes → Bytes
example_hash key input = replicate 32 ((get_or key 0 0 * 7 + get_or input 0 0 + 1) % 256)

abbrev pub example_primitives : Primitives
example_primitives = record {
  scalarmult_curve25519_base = λ n. example_hash n [];
  scalarmult_curve25519 = example_hash;
  hash_sha256 = example_hash [];
  hash_sha512 = λ input. replicate 64 (get_or input 0 0);
  scalarmult_ed25519_base_noclamp = λ n. example_hash n [];
  scalar_reduce = example_hash [];
  scalar_mul = example_hash;
  scalar_add = example_hash;
  sign_ed25519_verify_detached = λ signature message key. true;
  auth_hmacsha256 = example_hash;
  hkdf_sha256_extract = example_hash;
  hkdf_sha256_expand = λ n info key. replicate n (get_or key 0 0);
  cbcenc = λ key iv input. input;
  cbcdec = λ key iv input. input;
}

abbrev pub example-IsCbc : IsCbc example_primitives
example-IsCbc = record {
  length-cbcenc = λ key iv input h. refl;
  cbcdec-cbcenc = λ key iv input h. refl;
}

abbrev pub example-IsHmac : IsHmac example_primitives
example-IsHmac = record { length-auth_hmacsha256 = λ key input. refl }

example_hash-bytes : (key input : Bytes) → All IsByte (example_hash key input)
example_hash-bytes key input =
    All-replicate IsByte 32 ((get_or key 0 0 * 7 + get_or input 0 0 + 1) % 256) (omega arith)

pub example-AreBytes : AreBytes example_primitives
example-AreBytes = record {
  bytes-cbcenc = λ key iv input h. h;
  bytes-auth_hmacsha256 = example_hash-bytes;
}

pub example-IsEd25519 : IsEd25519 example_primitives
example-IsEd25519 = record {
  accepts = λ a r message. refl;
  length-point = λ a. refl;
  length-scalar = λ a b. refl;
  bytes-point = λ a. example_hash-bytes a [];
  bytes-scalar = example_hash-bytes;
}

pub example-IsX25519 : IsX25519 example_primitives
example-IsX25519 = record {
  agrees = λ a b. ap (replicate 32) (omega arith);
  length-public = λ a. refl;
}

pub example-ArePublicBytes : ArePublicBytes example_primitives
example-ArePublicBytes = record { bytes-public = λ a. example_hash-bytes a [] }
