-- ===== src/Base64/Groups.antt =====
-- One group of base64: the sixes of bits that are written are those that are read back.
use libce.Base.{
  ℕ, zero, suc, ◌+◌, ◌*◌, ◌/◌, ◌%◌, ◌^◌, ◌<◌, ◌≡◌, refl, true, Bool, [], ◌∷◌, arith, bit_and, ◌==◌,
  if◌then◌else◌, false, ==→eq,
}
use libce.Base.Bytes.{IsByte}
use libce.Base.Bits.{bit_or_add, bit_and_mask}
use libce.Base64.{
  encode_char, decode_char, shift_in, encode_group, encode_two, encode_one, decode_group,
  decode_three, decode_two,
}

-- A property of every number below a bound, checked one by one.
holds_below : (ℕ → Bool) → ℕ → Bool
holds_below test zero = true
holds_below test (suc limit) =
    let rest = holds_below test limit in if test limit then rest else false

holds_at :
    (test : ℕ → Bool) (limit c : ℕ) → c < limit → holds_below test limit ≡ true → test c ≡ true
unfolding holds_below
holds_at test (suc limit) c lt h = ground (arith, holds_at test limit c)
holds_at test zero c lt h = absurd (omega arith)

alphabet : holds_below (λ x. decode_char (encode_char x) == x) 64 ≡ true
unfolding holds_below encode_char decode_char
alphabet = refl

-- The two tables are inverse on the 64 values.
pub decode_char-encode_char : (x : ℕ) → x < 64 → decode_char (encode_char x) ≡ x
decode_char-encode_char x h = ==→eq _ x (holds_at _ 64 x h alphabet)

shift_in-add :
    (value k x : ℕ) → value * 2 ^ k < 2 ^ 32 → x < 2 ^ k → shift_in value k x ≡ value * 2 ^ k + x
unfolding shift_in
shift_in-add value k x h fits = ground (arith, bit_or_add k value x fits)

low_six : (v : ℕ) → bit_and v 0x3f ≡ v % 64
low_six v = bit_and_mask 6 v

-- The decoder joins four values of six bits.
pub decode_group-sixes :
    (x0 x1 x2 x3 : ℕ)
    → x0 < 64
    → x1 < 64
    → x2 < 64
    → x3 < 64
    → decode_group (encode_char x0) (encode_char x1) (encode_char x2) (encode_char x3)
      ≡ (x0 * 4 + x1 / 16) ∷ (x1 % 16 * 16 + x2 / 4) ∷ (x2 % 4 * 64 + x3) ∷ []
unfolding decode_group
decode_group-sixes x0 x1 x2 x3 h0 h1 h2 h3 =
    rw
      (
        decode_char-encode_char x0 h0,
        decode_char-encode_char x1 h1,
        decode_char-encode_char x2 h2,
        decode_char-encode_char x3 h3,
        shift_in-add x0 6 x1 (omega arith) h1,
        shift_in-add (x0 * 2 ^ 6 + x1) 6 x2 (omega arith) h2,
        shift_in-add ((x0 * 2 ^ 6 + x1) * 2 ^ 6 + x2) 6 x3 (omega arith) h3,
      )
      (ground arith)

pub decode_three-sixes :
    (x0 x1 x2 : ℕ)
    → x0 < 64
    → x1 < 64
    → x2 < 64
    → decode_three (encode_char x0) (encode_char x1) (encode_char x2)
      ≡ (x0 * 4 + x1 / 16) ∷ (x1 % 16 * 16 + x2 / 4) ∷ []
unfolding decode_three
decode_three-sixes x0 x1 x2 h0 h1 h2 =
    rw
      (
        decode_char-encode_char x0 h0,
        decode_char-encode_char x1 h1,
        decode_char-encode_char x2 h2,
        shift_in-add x0 6 x1 (omega arith) h1,
        shift_in-add (x0 * 2 ^ 6 + x1) 6 x2 (omega arith) h2,
      )
      (ground arith)

pub decode_two-sixes :
    (x0 x1 : ℕ)
    → x0 < 64
    → x1 < 64
    → decode_two (encode_char x0) (encode_char x1) ≡ (x0 * 4 + x1 / 16) ∷ []
unfolding decode_two
decode_two-sixes x0 x1 h0 h1 =
    rw
      (
        decode_char-encode_char x0 h0,
        decode_char-encode_char x1 h1,
        shift_in-add x0 6 x1 (omega arith) h1,
      )
      (ground arith)

-- The encoder splits its bytes into values of six bits.
pub encode_group-sixes :
    (b0 b1 b2 : ℕ)
    → IsByte b0
    → IsByte b1
    → IsByte b2
    → encode_group b0 b1 b2
      ≡ encode_char (b0 / 4)
        ∷ encode_char (b0 % 4 * 16 + b1 / 16)
        ∷ encode_char (b1 % 16 * 4 + b2 / 64)
        ∷ encode_char (b2 % 64)
        ∷ []
unfolding encode_group
encode_group-sixes b0 b1 b2 h0 h1 h2 =
    rw (shift_in-add b0 8 b1 (omega arith) h1, shift_in-add (b0 * 2 ^ 8 + b1) 8 b2 (omega arith) h2)
      (ground (
        arith,
        low_six ((b0 * 2 ^ 8 + b1) * 2 ^ 8 + b2),
        low_six (((b0 * 2 ^ 8 + b1) * 2 ^ 8 + b2) / 2 ^ 6),
        low_six (((b0 * 2 ^ 8 + b1) * 2 ^ 8 + b2) / 2 ^ 6 / 2 ^ 6),
      ))

pub encode_two-sixes :
    (b0 b1 : ℕ)
    → IsByte b0
    → IsByte b1
    → encode_two b0 b1
      ≡ encode_char (b0 / 4) ∷ encode_char (b0 % 4 * 16 + b1 / 16) ∷ encode_char (b1 % 16 * 4) ∷ []
unfolding encode_two
encode_two-sixes b0 b1 h0 h1 = rw (shift_in-add b0 8 b1 (omega arith) h1) (
    ground (
      arith,
      low_six ((b0 * 2 ^ 8 + b1) * 2 ^ 2 % 2 ^ 32),
      low_six ((b0 * 2 ^ 8 + b1) * 2 ^ 2 % 2 ^ 32 / 2 ^ 6),
    ))

pub encode_one-sixes :
    (b0 : ℕ) → IsByte b0 → encode_one b0 ≡ encode_char (b0 / 4) ∷ encode_char (b0 % 4 * 16) ∷ []
unfolding encode_one
encode_one-sixes b0 h0 = ground (arith, low_six (b0 * 2 ^ 4 % 2 ^ 32))
