-- ===== src/Pickle/RoundTrip.antt =====
-- Each pickle function with its unpickle function is a codec.
use libce.Base.{
  ℕ, ◌+◌, ◌*◌, ◌/◌, ◌%◌, ◌^◌, ◌≡◌, refl, true, false, some, [], ◌++◌, arith, le→ltb_false,
}
use libce.Base.Lists.{length, length-append, take-length, take-append, drop-append}
use libce.Base.Bytes.{Bytes, IsByte, IsU32}
use libce.Base.Bits.{bit_or_add}
use libce.Pickle.{
  pickle_uint8, unpickle_uint8, pickle_uint32, unpickle_uint32, join_uint32, pickle_bool,
  unpickle_bool, pickle_bytes, unpickle_bytes,
}
use libce.Pickle.Codec.{IsCodec}

-- Four bytes joined with `|` are the big-endian sum.
pub join_uint32-sum :
    (b0 b1 b2 b3 : ℕ)
    → IsByte b0
    → IsByte b1
    → IsByte b2
    → IsByte b3
    → join_uint32 b0 b1 b2 b3 ≡ b0 * 2 ^ 24 + b1 * 2 ^ 16 + b2 * 2 ^ 8 + b3
unfolding join_uint32
join_uint32-sum b0 b1 b2 b3 h0 h1 h2 h3 = ground (
  arith,
  bit_or_add 24 b0 (b1 * 2 ^ 16) (omega arith),
  bit_or_add 16 (b0 * 2 ^ 8 + b1) (b2 * 2 ^ 8) (omega arith),
  bit_or_add 8 (b0 * 2 ^ 16 + b1 * 2 ^ 8 + b2) b3 (omega arith),
)

join_uint32-split :
    (v : ℕ)
    → IsU32 v
    → join_uint32 (v / 2 ^ 24 % 256) (v / 2 ^ 16 % 256) (v / 2 ^ 8 % 256) (v % 256) ≡ v
join_uint32-split v h = omega (
  arith,
  join_uint32-sum (v / 2 ^ 24 % 256) (v / 2 ^ 16 % 256) (v / 2 ^ 8 % 256) (v % 256) (omega arith)
      (omega arith) (omega arith) (omega arith),
)

pub uint8-IsCodec : IsCodec IsByte (λ v. 1) pickle_uint8 unpickle_uint8
unfolding pickle_uint8 unpickle_uint8
uint8-IsCodec = record {
  appends = λ out x. refl;
  measured = λ x h. refl;
  restores = λ x rest h. refl;
}

pub uint32-IsCodec : IsCodec IsU32 (λ v. 4) pickle_uint32 unpickle_uint32
unfolding pickle_uint32 unpickle_uint32
uint32-IsCodec = record {
  appends = λ out x. refl;
  measured = λ x h. refl;
  restores = λ x rest h. rw (join_uint32-split x h);
}

pub bool-IsCodec : IsCodec (λ b. Unit {0}) (λ v. 1) pickle_bool unpickle_bool
unfolding pickle_bool unpickle_bool
bool-IsCodec = record {
  appends = λ out x. refl;
  measured = λ x h. refl;
  restores = elim [ true ↦ λ rest h. refl | false ↦ λ rest h. refl ];
}

pub bytes-append :
    (out bytes : Bytes) (n : ℕ) → pickle_bytes out bytes n ≡ out ++ pickle_bytes [] bytes n
unfolding pickle_bytes
bytes-append out bytes n = refl

pub pickle_bytes-all : (bytes : Bytes) (n : ℕ) → length bytes ≡ n → pickle_bytes [] bytes n ≡ bytes
unfolding pickle_bytes
pickle_bytes-all bytes n h = rw (← h) (take-length bytes)

pub unpickle_bytes-append :
    (bytes rest : Bytes) (n : ℕ)
    → length bytes ≡ n
    → unpickle_bytes (some (bytes ++ rest)) n ≡ some (bytes, rest)
unfolding unpickle_bytes
unpickle_bytes-append bytes rest n h =
    rw
      (
        ← h,
        le→ltb_false (length (bytes ++ rest)) (length bytes)
            (omega (arith, length-append bytes rest)),
        take-append,
        drop-append,
      )
      refl
