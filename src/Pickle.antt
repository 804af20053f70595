-- ===== src/Pickle.antt =====
-- src/pickle.c and include/libce/pickle.h: the primitives of the pickle format.
-- A writer takes the bytes before its `pos` and returns those before the `pos` it returns. A reader
-- takes its `pos` as the bytes from there to `end`, `none` for NULL, and returns what it reads with
-- the new `pos`. Keys are those of include/libce/crypto.h.
pub mod Codec
pub mod RoundTrip
pub mod Keys
pub mod Written
use libce.Base.{
  ℕ, zero, suc, ◌+◌, ◌*◌, ◌/◌, ◌%◌, ◌^◌, ◌<◌, ◌≡◌, Bool, true, false, Option, none, some, List, [],
  ◌∷◌, ◌++◌, bit_or, ltb, ◌==◌, if◌then◌else◌, not,
}
use libce.Base.Lists.{length, take, drop}
use libce.Base.Maybe.{◌>>=◌}
use libce.Base.Bytes.{Bytes, IsArray}

abbrev pub curve25519_key_length : ℕ
curve25519_key_length = 32

abbrev pub ed25519_public_key_length : ℕ
ed25519_public_key_length = 32

abbrev pub ed25519_private_key_length : ℕ
ed25519_private_key_length = 64

unfoldable pub pickle_uint8 : Bytes → ℕ → Bytes
pickle_uint8 out value = out ++ (value ∷ [])

unfoldable pub unpickle_uint8 : Option Bytes → Option (ℕ × Bytes)
unpickle_uint8 none = none
unpickle_uint8 (some []) = none
unpickle_uint8 (some (b ∷ rest)) = some (b, rest)

unfoldable pub pickle_uint32 : Bytes → ℕ → Bytes
pickle_uint32 out value =
    out ++ (value / 2 ^ 24 % 256 ∷ value / 2 ^ 16 % 256 ∷ value / 2 ^ 8 % 256 ∷ value % 256 ∷ [])

-- `((uint32_t)b0 << 24) | ((uint32_t)b1 << 16) | ((uint32_t)b2 << 8) | (uint32_t)b3`
unfoldable pub join_uint32 : ℕ → ℕ → ℕ → ℕ → ℕ
join_uint32 b0 b1 b2 b3 =
    bit_or (bit_or (bit_or (b0 * 2 ^ 24 % 2 ^ 32) (b1 * 2 ^ 16 % 2 ^ 32)) (b2 * 2 ^ 8 % 2 ^ 32)) b3

unfoldable pub unpickle_uint32 : Option Bytes → Option (ℕ × Bytes)
unfolding join_uint32
unpickle_uint32 (some (b0 ∷ b1 ∷ b2 ∷ b3 ∷ rest)) = some (join_uint32 b0 b1 b2 b3, rest)
unpickle_uint32 pos = none

-- An `int` used as a flag is a Bool here.
unfoldable pub pickle_bool : Bytes → Bool → Bytes
pickle_bool out value = out ++ ((if value then 1 else 0) ∷ [])

unfoldable pub unpickle_bool : Option Bytes → Option (Bool × Bytes)
unpickle_bool none = none
unpickle_bool (some []) = none
unpickle_bool (some (b ∷ rest)) = some (not (b == 0), rest)

unfoldable pub pickle_bytes : Bytes → Bytes → ℕ → Bytes
pickle_bytes out bytes bytes_length = out ++ take bytes_length bytes

unfoldable pub unpickle_bytes : Option Bytes → ℕ → Option (Bytes × Bytes)
unpickle_bytes none bytes_length = none
unpickle_bytes (some pos) bytes_length =
    if ltb (length pos) bytes_length
    then none
    else some (take bytes_length pos, drop bytes_length pos)

pub record Curve25519PublicKey : Type 0 where
  pub public_key : Bytes

pub record Curve25519KeyPair : Type 0 where
  pub public_key : Bytes
  pub private_key : Bytes

pub record Ed25519PublicKey : Type 0 where
  pub public_key : Bytes

pub record Ed25519KeyPair : Type 0 where
  pub public_key : Bytes
  pub private_key : Bytes

unfoldable pub pickle_curve25519_public_key_length : Curve25519PublicKey → ℕ
pickle_curve25519_public_key_length value = curve25519_key_length

unfoldable pub pickle_curve25519_public_key : Bytes → Curve25519PublicKey → Bytes
pickle_curve25519_public_key out value = pickle_bytes out value.public_key curve25519_key_length

unfoldable pub unpickle_curve25519_public_key : Option Bytes → Option (Curve25519PublicKey × Bytes)
unpickle_curve25519_public_key pos = do
  (key, rest) ← unpickle_bytes pos curve25519_key_length
  some (record { public_key = key }, rest)

unfoldable pub pickle_curve25519_key_pair_length : Curve25519KeyPair → ℕ
pickle_curve25519_key_pair_length value = curve25519_key_length + curve25519_key_length

unfoldable pub pickle_curve25519_key_pair : Bytes → Curve25519KeyPair → Bytes
pickle_curve25519_key_pair out value =
    let pos = pickle_bytes out value.public_key curve25519_key_length in
    pickle_bytes pos value.private_key curve25519_key_length

unfoldable pub unpickle_curve25519_key_pair : Option Bytes → Option (Curve25519KeyPair × Bytes)
unpickle_curve25519_key_pair pos = do
  (public, pos1) ← unpickle_bytes pos curve25519_key_length
  (private, pos2) ← unpickle_bytes (some pos1) curve25519_key_length
  some (record { public_key = public; private_key = private }, pos2)

unfoldable pub pickle_ed25519_public_key_length : Ed25519PublicKey → ℕ
pickle_ed25519_public_key_length value = ed25519_public_key_length

unfoldable pub pickle_ed25519_public_key : Bytes → Ed25519PublicKey → Bytes
pickle_ed25519_public_key out value = pickle_bytes out value.public_key ed25519_public_key_length

unfoldable pub unpickle_ed25519_public_key : Option Bytes → Option (Ed25519PublicKey × Bytes)
unpickle_ed25519_public_key pos = do
  (key, rest) ← unpickle_bytes pos ed25519_public_key_length
  some (record { public_key = key }, rest)

unfoldable pub pickle_ed25519_key_pair_length : Ed25519KeyPair → ℕ
pickle_ed25519_key_pair_length value = ed25519_public_key_length + ed25519_private_key_length

unfoldable pub pickle_ed25519_key_pair : Bytes → Ed25519KeyPair → Bytes
pickle_ed25519_key_pair out value =
    let pos = pickle_bytes out value.public_key ed25519_public_key_length in
    pickle_bytes pos value.private_key ed25519_private_key_length

unfoldable pub unpickle_ed25519_key_pair : Option Bytes → Option (Ed25519KeyPair × Bytes)
unpickle_ed25519_key_pair pos = do
  (public, pos1) ← unpickle_bytes pos ed25519_public_key_length
  (private, pos2) ← unpickle_bytes (some pos1) ed25519_private_key_length
  some (record { public_key = public; private_key = private }, pos2)
