-- ===== src/Varint/RoundTrip.antt =====
-- Varints: what is written, its length, and that it is read back.
use libce.Base.{
  ℕ, zero, suc, ◌+◌, ◌-◌, ◌*◌, ◌/◌, ◌%◌, ◌^◌, ◌<◌, ◌≡◌, ◌∙◌, [], ◌∷◌, ◌++◌, append_assoc, bit_and,
  bit_or, ltb, if◌then◌else◌, arith, Bool-cases, inl, inr, ltb→lt,
}
use libce.Base.Lists.{All, length, length-append, take-append}
use libce.Base.Bits.{
  bit_and_mask, bit_and_comm, bit_or_add, bit_and_split, bit_or_split, bit_and-zero, bit_or-zero,
}
use libce.Base.Bytes.{Bytes, IsByte}
use libce.Base.Order.{lt_wf}
use libce.Varint.{
  varint_length_loop, varint_length_bytes, varint_length_uint32, varint_encode_loop,
  varint_encode_bytes, varint_encode_uint32, varint_decode, varint_skip, between,
}
use mathlib.Core.WellFounded.{Acc}
use native.Mathlib.Nat.{pow-suc, mod-eq_of_lt}

-- The groups of a number below 128 ^ (k + 1): a byte with the top bit for each group but the last.
unfoldable pub groups : ℕ → ℕ → Bytes
groups zero v = v ∷ []
groups (suc k) v =
    let rest = groups k (v / 128) in if ltb v 128 then v ∷ [] else (v % 128 + 128) ∷ rest

low_seven : (v : ℕ) → bit_and 0x7f v ≡ v % 128
low_seven v = bit_and_comm 0x7f v ∙ bit_and_mask 7 v

continued : (v : ℕ) → bit_or (bit_and 0x7f v) 0x80 ≡ v % 128 + 128
continued v =
    rw (low_seven v) (ground (arith, bit_or_split 7 0 1 (v % 128) 0, bit_or-zero (v % 128)))

top_clear : (v : ℕ) → v < 128 → bit_and v 0x80 ≡ 0
top_clear v h = ground (arith, bit_and_split 7 0 1 v 0, bit_and-zero v)

top_set : (v : ℕ) → v < 128 → bit_and (v + 128) 0x80 ≡ 128
top_set v h = ground (arith, bit_and_split 7 1 1 v 0, bit_and-zero v)

pub varint_encode_loop-groups :
    (k : ℕ) (out : Bytes) (v : ℕ) (w : Acc ◌<◌ v)
    → v < 128 ^ suc k
    → varint_encode_loop out v w ≡ out ++ groups k v
unfolding varint_encode_loop groups
varint_encode_loop-groups zero out v (Acc.intro _ smaller) h = ground arith
varint_encode_loop-groups (suc k) out v (Acc.intro _ smaller) h =
    let head : Bytes = (v % 128 + 128) ∷ [] in
    grind (
      arith,
      continued v,
      pow-suc 128 (suc k),
      λ (w : Acc ◌<◌ (v / 128)).
          varint_encode_loop-groups k (out ++ head) (v / 128) w
            (omega (arith, pow-suc 128 (suc k))),
      append_assoc out head (groups k (v / 128)),
    )

pub varint_length_loop-groups :
    (k result v : ℕ) (w : Acc ◌<◌ v)
    → v < 128 ^ suc k
    → suc (varint_length_loop result v w) ≡ result + length (groups k v)
unfolding varint_length_loop groups
varint_length_loop-groups zero result v (Acc.intro _ smaller) h = ground arith
varint_length_loop-groups (suc k) result v (Acc.intro _ smaller) h = grind (
  arith,
  pow-suc 128 (suc k),
  λ (w : Acc ◌<◌ (v / 128)).
      varint_length_loop-groups k (result + 1) (v / 128) w (omega (arith, pow-suc 128 (suc k))),
)

pub varint_skip-groups :
    (k v : ℕ) (rest : Bytes) → v < 128 ^ suc k → varint_skip (groups k v ++ rest) ≡ rest
unfolding varint_skip groups
varint_skip-groups zero v rest h = ground (arith, top_clear v)
varint_skip-groups (suc k) v rest h = ground (
  arith,
  top_clear v,
  top_set (v % 128),
  pow-suc 128 (suc k),
  varint_skip-groups k (v / 128) rest,
)

shift_in_group :
    (width high low : ℕ)
    → low < 128
    → high * 128 + low < 2 ^ width
    → bit_or (high * 2 ^ 7 % 2 ^ width) low ≡ high * 128 + low
shift_in_group width high low h f =
    rw (mod-eq_of_lt {n = high * 2 ^ 7} {m = 2 ^ width} (omega arith)) (bit_or_add 7 high low h)

last_group : (width v : ℕ) → v < 128 → v < 2 ^ width → varint_decode width (v ∷ []) ≡ v
unfolding varint_decode
last_group width v h f = rw low_seven (ground (arith, shift_in_group width 0 (v % 128)))

more_group :
    (width v : ℕ) (rest : Bytes)
    → v < 2 ^ width
    → varint_decode width rest ≡ v / 128
    → varint_decode width ((v % 128 + 128) ∷ rest) ≡ v
unfolding varint_decode
more_group width v rest f e =
    rw (low_seven, e) (ground (arith, shift_in_group width (v / 128) (v % 128)))

pub varint_decode-groups :
    (width k v : ℕ) → v < 128 ^ suc k → v < 2 ^ width → varint_decode width (groups k v) ≡ v
unfolding groups
varint_decode-groups width zero v h f = last_group width v (omega arith) f
varint_decode-groups width (suc k) v h f = elim (Bool-cases (ltb v 128)) [
  | inl small ↦ rw small (last_group width v (ltb→lt v 128 small) f)
  | inr large ↦ rw large (
      more_group width v (groups k (v / 128)) f
        (varint_decode-groups width k (v / 128) (omega (arith, pow-suc 128 (suc k))) (omega arith)))
]

-- What the writer appends, for any `size_t` or `uint32_t`: at most ten groups.
pub encoding : ℕ → Bytes
encoding v = groups 9 v

pub varint_encode_bytes-encoding :
    (out : Bytes) (v : ℕ) → v < 2 ^ 64 → varint_encode_bytes out v ≡ out ++ encoding v
unfolding varint_encode_bytes encoding
varint_encode_bytes-encoding out v h =
    varint_encode_loop-groups 9 out v (lt_wf.apply v) (omega arith)

pub varint_encode_uint32-encoding :
    (out : Bytes) (v : ℕ) → v < 2 ^ 32 → varint_encode_uint32 out v ≡ out ++ encoding v
unfolding varint_encode_uint32 encoding
varint_encode_uint32-encoding out v h =
    varint_encode_loop-groups 9 out v (lt_wf.apply v) (omega arith)

pub varint_length_bytes-encoding :
    (v : ℕ) → v < 2 ^ 64 → varint_length_bytes v ≡ length (encoding v)
unfolding varint_length_bytes encoding
varint_length_bytes-encoding v h =
    omega (arith, varint_length_loop-groups 9 1 v (lt_wf.apply v) (omega arith))

pub varint_length_uint32-encoding :
    (v : ℕ) → v < 2 ^ 32 → varint_length_uint32 v ≡ length (encoding v)
unfolding varint_length_uint32 encoding
varint_length_uint32-encoding v h =
    omega (arith, varint_length_loop-groups 9 1 v (lt_wf.apply v) (omega arith))

pub varint_skip-encoding :
    (v : ℕ) (rest : Bytes) → v < 2 ^ 64 → varint_skip (encoding v ++ rest) ≡ rest
unfolding encoding
varint_skip-encoding v rest h = varint_skip-groups 9 v rest (omega arith)

pub varint_decode-encoding :
    (width v : ℕ) → v < 2 ^ 64 → v < 2 ^ width → varint_decode width (encoding v) ≡ v
unfolding encoding
varint_decode-encoding width v h f = varint_decode-groups width 9 v (omega arith) f

pub between-append : (xs ys : Bytes) → between (xs ++ ys) ys ≡ xs
unfolding between
between-append xs ys =
    let e : length (xs ++ ys) - length ys ≡ length xs = omega (arith, length-append xs ys) in
    rw e (take-append xs ys)

-- For a number of 64 bits: the reader skips exactly what the writer wrote, the bytes it skipped
-- decode to the number, and the announced length is theirs.
pub varint_round_trip :
    (v : ℕ) (rest : Bytes)
    → v < 2 ^ 64
    → (varint_skip (varint_encode_bytes [] v ++ rest) ≡ rest)
      × (varint_decode 64 (between (varint_encode_bytes [] v ++ rest) rest) ≡ v)
      × (varint_length_bytes v ≡ length (varint_encode_bytes [] v))
varint_round_trip v rest h = rw (varint_encode_bytes-encoding [] v h) (
  varint_skip-encoding v rest h,
  rw (between-append (encoding v) rest) (varint_decode-encoding 64 v h h),
  varint_length_bytes-encoding v h,
)

groups-bytes : (k v : ℕ) → v < 128 ^ suc k → All IsByte (groups k v)
unfolding groups
groups-bytes zero v h = (omega arith, tt)
groups-bytes (suc k) v h = elim (Bool-cases (ltb v 128)) [
  | inl small ↦ rw small (let below = ltb→lt v 128 small in (omega arith, tt))
  | inr large ↦
      rw large (omega arith, groups-bytes k (v / 128) (omega (arith, pow-suc 128 (suc k))))
]

-- The groups of a number of 64 bits are bytes.
pub encoding-bytes : (v : ℕ) → v < 2 ^ 64 → All IsByte (encoding v)
unfolding encoding
encoding-bytes v h = groups-bytes 9 v (omega arith)
