-- ===== src/Base/Bits.antt =====
-- Laws of `bit_and` and `bit_or` at variables, for every width: a word split at bit k is combined
-- part by part, so a mask is a remainder and an `or` of disjoint fields is a sum.
use Prim.Native.Nat.{
  ℕ, zero, suc, ◌+◌, ◌-◌, ◌*◌, ◌/◌, ◌%◌, ◌^◌, ◌≤◌, ◌<◌, min, max, bit_and, bit_or, digits, bitwise,
  bit_and-bitwise, bit_or-bitwise,
}
use mathlib.Core.Path.{◌≡◌, refl, ap}
use native.Mathlib.Nat.{pow-suc, one-le-pow}
use native.Mathlib.Omega.{arith}

-- The count of digits that the definition carries does not matter once it covers the number.
module _ (z : ℕ → ℕ) (f : ℕ → ℕ → ℕ) where
  digits_enough : (x y k l : ℕ) → x ≤ k → x ≤ l → digits z f k x y ≡ digits z f l x y
  digits_enough (suc x) y (suc k) (suc l) hk hl =
      rw (digits_enough (suc x / 2) (y / 2) k l (omega arith) (omega arith))
  digits_enough (suc x) y (suc k) zero hk hl = absurd (omega arith)
  digits_enough (suc x) y zero l hk hl = absurd (omega arith)
  digits_enough zero y (suc k) (suc l) hk hl = refl
  digits_enough zero y (suc k) zero hk hl = refl
  digits_enough zero y zero (suc l) hk hl = refl
  digits_enough zero y zero zero hk hl = refl

  pub bitwise_step :
      (a b : ℕ)
      → bitwise z f (suc a) b ≡ bitwise z f (suc a / 2) (b / 2) * 2 + f (suc a % 2) (b % 2)
  bitwise_step a b =
      omega (arith, digits_enough (suc a / 2) (b / 2) a (suc a / 2) (omega arith) (omega arith))

and_step : (a b : ℕ) → bit_and a b ≡ bit_and (a / 2) (b / 2) * 2 + min (a % 2) (b % 2)
and_step zero b = simp bit_and-bitwise (omega arith)
and_step (suc a) b = simp bit_and-bitwise (bitwise_step (λ y. 0) min a b)

pub or_step : (a b : ℕ) → bit_or a b ≡ bit_or (a / 2) (b / 2) * 2 + max (a % 2) (b % 2)
or_step zero b = simp bit_or-bitwise (omega arith)
or_step (suc a) b = simp bit_or-bitwise (bitwise_step (λ y. y) max a b)

or-zero_up_to : (top x : ℕ) → x ≤ top → bit_or x 0 ≡ x
or-zero_up_to (suc top) (suc x) le =
    omega (arith, or_step (suc x) 0, or-zero_up_to top (suc x / 2) (omega arith))
or-zero_up_to zero (suc x) le = absurd (omega arith)
or-zero_up_to top zero le = refl

pub bit_or-zero : (a : ℕ) → bit_or a 0 ≡ a
bit_or-zero a = or-zero_up_to a a (omega arith)

pub zero-bit_or : (a : ℕ) → bit_or 0 a ≡ a
zero-bit_or a = bit_or-bitwise 0 a

pub zero-bit_and : (a : ℕ) → bit_and 0 a ≡ 0
zero-bit_and a = bit_and-bitwise 0 a

and-zero_up_to : (top x : ℕ) → x ≤ top → bit_and x 0 ≡ 0
and-zero_up_to (suc top) (suc x) le =
    omega (arith, and_step (suc x) 0, and-zero_up_to top (suc x / 2) (omega arith))
and-zero_up_to zero (suc x) le = absurd (omega arith)
and-zero_up_to top zero le = refl

pub bit_and-zero : (a : ℕ) → bit_and a 0 ≡ 0
bit_and-zero a = and-zero_up_to a a (omega arith)

and_comm_below : (n a b : ℕ) → a ≤ n → bit_and a b ≡ bit_and b a
and_comm_below n zero b h = omega (arith, zero-bit_and b, bit_and-zero b)
and_comm_below zero (suc a) b h = absurd (omega arith)
and_comm_below (suc n) (suc a) b h = omega (
  arith,
  and_step (suc a) b,
  and_step b (suc a),
  and_comm_below n (suc a / 2) (b / 2) (omega arith),
)

pub bit_and_comm : (a b : ℕ) → bit_and a b ≡ bit_and b a
bit_and_comm a b = and_comm_below a a b (omega arith)

twice_pow : (q k : ℕ) → q * 2 ^ suc k ≡ 2 * (q * 2 ^ k)
twice_pow q k = omega (arith, ap (λ (t : ℕ). q * t) (pow-suc 2 k))

-- Both operations work on the two parts of a word separately.
pub bit_and_split :
    (k a b c d : ℕ)
    → c < 2 ^ k
    → d < 2 ^ k
    → bit_and (a * 2 ^ k + c) (b * 2 ^ k + d) ≡ bit_and a b * 2 ^ k + bit_and c d
bit_and_split zero a b zero zero p q = ground arith
bit_and_split zero a b zero (suc d) p q = absurd (omega arith)
bit_and_split zero a b (suc c) d p q = absurd (omega arith)
bit_and_split (suc k) a b c d p q = ground (
  arith,
  and_step (a * 2 ^ suc k + c) (b * 2 ^ suc k + d),
  and_step c d,
  twice_pow a k,
  twice_pow b k,
  twice_pow (bit_and a b) k,
  pow-suc 2 k,
  bit_and_split k a b (c / 2) (d / 2) (omega (arith, pow-suc 2 k)) (omega (arith, pow-suc 2 k)),
)

pub bit_or_split :
    (k a b c d : ℕ)
    → c < 2 ^ k
    → d < 2 ^ k
    → bit_or (a * 2 ^ k + c) (b * 2 ^ k + d) ≡ bit_or a b * 2 ^ k + bit_or c d
bit_or_split zero a b zero zero p q = ground arith
bit_or_split zero a b zero (suc d) p q = absurd (omega arith)
bit_or_split zero a b (suc c) d p q = absurd (omega arith)
bit_or_split (suc k) a b c d p q = ground (
  arith,
  or_step (a * 2 ^ suc k + c) (b * 2 ^ suc k + d),
  or_step c d,
  twice_pow a k,
  twice_pow b k,
  twice_pow (bit_or a b) k,
  pow-suc 2 k,
  bit_or_split k a b (c / 2) (d / 2) (omega (arith, pow-suc 2 k)) (omega (arith, pow-suc 2 k)),
)

-- A full mask keeps a number that fits under it.
pub bit_and_ones : (k r : ℕ) → r < 2 ^ k → bit_and r (2 ^ k - 1) ≡ r
bit_and_ones zero r h = rw bit_and-zero (omega arith)
bit_and_ones (suc k) r h = ground (
  arith,
  and_step r (2 ^ suc k - 1),
  pow-suc 2 k,
  one-le-pow k 2 (omega arith),
  bit_and_ones k (r / 2) (omega (arith, pow-suc 2 k)),
)

-- A mask of the k low bits is the remainder by 2 ^ k.
pub bit_and_mask : (k a : ℕ) → bit_and a (2 ^ k - 1) ≡ a % 2 ^ k
bit_and_mask k a = ground (
  arith,
  one-le-pow k 2 (omega arith),
  bit_and_split k (a / 2 ^ k) 0 (a % 2 ^ k) (2 ^ k - 1),
  bit_and-zero (a / 2 ^ k),
  bit_and_ones k (a % 2 ^ k),
)

-- A mask of the bits from k up, in a word of k + w bits, clears the k low bits.
pub bit_and_high :
    (k w t : ℕ) → t / 2 ^ k < 2 ^ w → bit_and t ((2 ^ w - 1) * 2 ^ k) ≡ t / 2 ^ k * 2 ^ k
bit_and_high k w t h = ground (
  arith,
  one-le-pow k 2 (omega arith),
  bit_and_split k (t / 2 ^ k) (2 ^ w - 1) (t % 2 ^ k) 0,
  bit_and_ones w (t / 2 ^ k),
  bit_and-zero (t % 2 ^ k),
)

-- Disjoint fields: what is shifted left by k, and what fits k bits.
pub bit_or_add : (k q r : ℕ) → r < 2 ^ k → bit_or (q * 2 ^ k) r ≡ q * 2 ^ k + r
bit_or_add k q r h =
    ground
      (arith, one-le-pow k 2 (omega arith), bit_or_split k q 0 0 r, bit_or-zero q, zero-bit_or r)
