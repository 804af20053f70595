-- ===== src/Pickle/Written.antt =====
-- What the pickle functions write is bytes.
use libce.Base.{ℕ, Bool, true, false, [], arith}
use libce.Base.Lists.{All, All-append, All-take}
use libce.Base.Bytes.{Bytes, IsByte}
use libce.Pickle.{
  Ed25519PublicKey, Ed25519KeyPair, pickle_uint32, pickle_bool, pickle_bytes,
  pickle_curve25519_key_pair, Curve25519KeyPair, pickle_ed25519_public_key, pickle_ed25519_key_pair,
}

pub pickle_uint32-bytes : (v : ℕ) → All IsByte (pickle_uint32 [] v)
unfolding pickle_uint32
pickle_uint32-bytes v = (omega arith, (omega arith, (omega arith, (omega arith, tt))))

pub pickle_bool-bytes : (v : Bool) → All IsByte (pickle_bool [] v)
unfolding pickle_bool
pickle_bool-bytes true = (omega arith, tt)
pickle_bool-bytes false = (omega arith, tt)

pub pickle_bytes-bytes : (xs : Bytes) (n : ℕ) → All IsByte xs → All IsByte (pickle_bytes [] xs n)
unfolding pickle_bytes
pickle_bytes-bytes xs n h = All-take IsByte n xs h

pub pickle_ed25519_public_key-bytes :
    (k : Ed25519PublicKey) → All IsByte k.public_key → All IsByte (pickle_ed25519_public_key [] k)
unfolding pickle_ed25519_public_key
pickle_ed25519_public_key-bytes k h = pickle_bytes-bytes k.public_key 32 h

pub pickle_ed25519_key_pair-bytes :
    (k : Ed25519KeyPair)
    → All IsByte k.public_key
    → All IsByte k.private_key
    → All IsByte (pickle_ed25519_key_pair [] k)
unfolding pickle_ed25519_key_pair pickle_bytes
pickle_ed25519_key_pair-bytes k h h' =
    All-append IsByte _ _ (All-take IsByte 32 k.public_key h) (All-take IsByte 64 k.private_key h')

pub pickle_curve25519_key_pair-bytes :
    (k : Curve25519KeyPair)
    → All IsByte k.public_key
    → All IsByte k.private_key
    → All IsByte (pickle_curve25519_key_pair [] k)
unfolding pickle_curve25519_key_pair pickle_bytes
pickle_curve25519_key_pair-bytes k h h' =
    All-append IsByte _ _ (All-take IsByte 32 k.public_key h) (All-take IsByte 32 k.private_key h')
