-- ===== src/Crypto/Outputs.antt =====
-- What the primitives return are bytes.
use libce.Base.{◌-◌, ◌%◌, ◌≡◌, arith}
use libce.Base.Lists.{length, All, All-append, All-replicate}
use libce.Base.Bytes.{Bytes, IsByte}
use libce.Crypto.{Primitives, aes_encrypt_cbc_length, aes_encrypt_cbc}

-- An HMAC-SHA-256 has 32 bytes.
pub record IsHmac (p : Primitives) : Type 0 where
  pub length-auth_hmacsha256 : (key input : Bytes) → length (p.auth_hmacsha256 key input) ≡ 32

-- The outputs of CBC and of HMAC are arrays of `uint8_t`.
pub record AreBytes (p : Primitives) : Type 0 where
  pub bytes-cbcenc : (key iv input : Bytes) → All IsByte input → All IsByte (p.cbcenc key iv input)
  pub bytes-auth_hmacsha256 : (key input : Bytes) → All IsByte (p.auth_hmacsha256 key input)

-- X25519: the secret of two key pairs is the same from either side, and a public key has 32 bytes.
pub record IsX25519 (p : Primitives) : Type 0 where
  pub agrees :
      (a b : Bytes)
      → p.scalarmult_curve25519 a (p.scalarmult_curve25519_base b)
        ≡ p.scalarmult_curve25519 b (p.scalarmult_curve25519_base a)
  pub length-public : (a : Bytes) → length (p.scalarmult_curve25519_base a) ≡ 32

-- A public key is an array of `uint8_t`.
pub record ArePublicBytes (p : Primitives) : Type 0 where
  pub bytes-public : (a : Bytes) → All IsByte (p.scalarmult_curve25519_base a)

pub aes_encrypt_cbc-bytes :
    (p : Primitives) (outputs : AreBytes p) (key iv input : Bytes)
    → All IsByte input
    → All IsByte (aes_encrypt_cbc p key iv input)
unfolding aes_encrypt_cbc
aes_encrypt_cbc-bytes p outputs key iv input h =
    let n = length input in
    outputs.bytes-cbcenc key iv _ (
      All-append IsByte input _ h
        (All-replicate IsByte (aes_encrypt_cbc_length n - n) (16 - n % 16) (omega arith)))
