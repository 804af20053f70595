-- ===== src/Base/Zero.antt =====
-- When the bitwise operations give zero.
use Prim.Native.Nat.{
  ℕ, zero, suc, ◌+◌, ◌*◌, ◌/◌, ◌%◌, ◌≤◌, bit_or, bit_xor, bit_xor-bitwise, differ,
}
use mathlib.Core.Path.{◌≡◌, refl}
use native.Mathlib.Omega.{arith}
use libce.Base.Bits.{or_step, bitwise_step, zero-bit_or}

xor_step : (a b : ℕ) → bit_xor a b ≡ bit_xor (a / 2) (b / 2) * 2 + differ (a % 2) (b % 2)
xor_step zero b = simp bit_xor-bitwise (omega arith)
xor_step (suc a) b = simp bit_xor-bitwise (bitwise_step (λ y. y) differ a b)

or_zero_below : (n a b : ℕ) → a ≤ n → bit_or a b ≡ 0 → (a ≡ 0) × (b ≡ 0)
or_zero_below n zero b h e = omega (arith, zero-bit_or b)
or_zero_below zero (suc a) b h e = absurd (omega arith)
or_zero_below (suc n) (suc a) b h e =
    let low = or_step (suc a) b in
    let high = or_zero_below n (suc a / 2) (b / 2) (omega arith) (omega (arith, low)) in
    omega (arith, low, high)

-- No bit is set in either number.
pub bit_or_zero : (a b : ℕ) → bit_or a b ≡ 0 → (a ≡ 0) × (b ≡ 0)
bit_or_zero a b e = or_zero_below a a b (omega arith) e

differ_zero : (x y : ℕ) → differ x y ≡ 0 → x ≡ y
differ_zero zero zero h = refl
differ_zero zero (suc y) h = absurd (omega arith)
differ_zero (suc x) zero h = absurd (omega arith)
differ_zero (suc x) (suc y) h = omega (arith, differ_zero x y h)

xor_zero_below : (n a b : ℕ) → a ≤ n → bit_xor a b ≡ 0 → a ≡ b
xor_zero_below n zero b h e = omega (arith, bit_xor-bitwise 0 b)
xor_zero_below zero (suc a) b h e = absurd (omega arith)
xor_zero_below (suc n) (suc a) b h e =
    let step = xor_step (suc a) b in
    let high = xor_zero_below n (suc a / 2) (b / 2) (omega arith) (omega (arith, step)) in
    let low = differ_zero (suc a % 2) (b % 2) (omega (arith, step)) in omega (arith, high, low)

-- No bit differs.
pub bit_xor_zero : (a b : ℕ) → bit_xor a b ≡ 0 → a ≡ b
bit_xor_zero a b e = xor_zero_below a a b (omega arith) e

differ_self : (x : ℕ) → differ x x ≡ 0
differ_self zero = refl
differ_self (suc x) = differ_self x

xor_self_below : (n a : ℕ) → a ≤ n → bit_xor a a ≡ 0
xor_self_below n zero h = refl
xor_self_below zero (suc a) h = absurd (omega arith)
xor_self_below (suc n) (suc a) h = omega (
  arith,
  xor_step (suc a) (suc a),
  differ_self (suc a % 2),
  xor_self_below n (suc a / 2) (omega arith),
)

pub bit_xor_self : (a : ℕ) → bit_xor a a ≡ 0
bit_xor_self a = xor_self_below a a (omega arith)
