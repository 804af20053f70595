-- ===== src/Crypto.antt =====
-- src/crypto.c over the primitives of libsodium and of lib/aes-ct64, which are parameters.
-- `sodium_init` and the wiping of stack buffers have no counterpart.
pub mod Aes
pub mod Outputs
pub mod Signing
pub mod Example
mod Runs
use libce.Base.{
  ℕ, zero, suc, ◌+◌, ◌-◌, ◌%◌, ◌^◌, ◌<◌, ◌≡◌, Bool, Option, none, some, List, [], ◌∷◌, ◌++◌,
  bit_and, bit_or, ltb, ◌==◌, ◌||◌, not, if◌then◌else◌,
}
use libce.Base.Lists.{length, take, drop, get_or, set, replicate}
use libce.Base.Bytes.{Bytes}
use libce.Pickle.{Curve25519PublicKey, Curve25519KeyPair, Ed25519PublicKey, Ed25519KeyPair}

-- What crypto.c calls: libsodium's functions, and CBC over whole blocks from lib/aes-ct64.
pub record Primitives : Type 0 where
  pub scalarmult_curve25519_base : Bytes → Bytes
  pub scalarmult_curve25519 : Bytes → Bytes → Bytes
  pub hash_sha256 : Bytes → Bytes
  pub hash_sha512 : Bytes → Bytes
  pub scalarmult_ed25519_base_noclamp : Bytes → Bytes
  pub scalar_reduce : Bytes → Bytes
  pub scalar_mul : Bytes → Bytes → Bytes
  pub scalar_add : Bytes → Bytes → Bytes
  pub sign_ed25519_verify_detached : Bytes → Bytes → Bytes → Bool
  pub auth_hmacsha256 : Bytes → Bytes → Bytes
  pub hkdf_sha256_extract : Bytes → Bytes → Bytes
  pub hkdf_sha256_expand : ℕ → Bytes → Bytes → Bytes
  pub cbcenc : Bytes → Bytes → Bytes → Bytes
  pub cbcdec : Bytes → Bytes → Bytes → Bytes

abbrev pub aes_block_length : ℕ
aes_block_length = 16

abbrev pub sha256_output_length : ℕ
sha256_output_length = 32

module _ (p : Primitives) where
  unfoldable pub curve25519_generate_key : Bytes → Curve25519KeyPair
  curve25519_generate_key random =
      let private = take 32 random in
      record { public_key = p.scalarmult_curve25519_base private; private_key = private }

  unfoldable pub curve25519_shared_secret : Curve25519KeyPair → Curve25519PublicKey → Bytes
  curve25519_shared_secret our_key their_key =
      p.scalarmult_curve25519 our_key.private_key their_key.public_key

  -- 32 bytes of scalar, padded to 64 and reduced.
  unfoldable pub reduce_scalar : Bytes → Bytes
  reduce_scalar scalar = p.scalar_reduce (take 32 scalar ++ replicate 32 0)

  -- The three assignments that clamp the expanded key.
  unfoldable pub clamp : Bytes → Bytes
  clamp key =
      let key1 = set key 0 (bit_and (get_or key 0 0) 248) in
      let key2 = set key1 31 (bit_and (get_or key1 31 0) 63) in
      set key2 31 (bit_or (get_or key2 31 0) 64)

  unfoldable pub ed25519_generate_key : Bytes → Ed25519KeyPair
  ed25519_generate_key random =
      let private = clamp (p.hash_sha512 (take 32 random)) in
      record {
        public_key = p.scalarmult_ed25519_base_noclamp (reduce_scalar private);
        private_key = private;
      }

  unfoldable pub ed25519_sign : Ed25519KeyPair → Bytes → Bytes
  ed25519_sign our_key message =
      let r = p.scalar_reduce (p.hash_sha512 (take 32 (drop 32 our_key.private_key) ++ message)) in
      let point = p.scalarmult_ed25519_base_noclamp r in
      let hram = p.scalar_reduce (p.hash_sha512 (point ++ (our_key.public_key ++ message))) in
      let a = reduce_scalar our_key.private_key in point ++ p.scalar_add (p.scalar_mul hram a) r

  unfoldable pub ed25519_verify : Ed25519PublicKey → Bytes → Bytes → Bool
  ed25519_verify their_key message signature =
      p.sign_ed25519_verify_detached signature message their_key.public_key

  unfoldable pub sha256 : Bytes → Bytes
  sha256 input = p.hash_sha256 input

  unfoldable pub hmac_sha256 : Bytes → Bytes → Bytes
  hmac_sha256 key input = p.auth_hmacsha256 key input

  unfoldable pub hkdf_sha256 : Bytes → Bytes → Bytes → ℕ → Bytes
  hkdf_sha256 input salt info output_length =
      p.hkdf_sha256_expand output_length info (p.hkdf_sha256_extract salt input)

unfoldable pub aes_encrypt_cbc_length : ℕ → ℕ
aes_encrypt_cbc_length input_length =
    input_length + aes_block_length - input_length % aes_block_length

module _ (p : Primitives) where
  -- The input, the padding bytes up to `aes_encrypt_cbc_length`, and CBC over the whole.
  unfoldable pub aes_encrypt_cbc : Bytes → Bytes → Bytes → Bytes
  aes_encrypt_cbc key iv input =
      let padded_length = aes_encrypt_cbc_length (length input) in
      let padding =
        replicate (padded_length - length input)
          (aes_block_length - length input % aes_block_length) in
      p.cbcenc key iv (input ++ padding)

  -- The plaintext is the front of the decrypted buffer; `none` is SIZE_MAX.
  unfoldable pub aes_decrypt_cbc : Bytes → Bytes → Bytes → Option Bytes
  aes_decrypt_cbc key iv input =
      let output = p.cbcdec key iv input in
      let padding = get_or output (length input - 1) 0 in
      if length input == 0 || not (length input % aes_block_length == 0)
      then none
      else if ltb (length input) padding
      then none
      else some (take (length input - padding) output)
