-- ===== src/Memory.antt =====
-- src/memory.c: wiping a buffer, and comparing two in constant time.
mod Runs
use Prim.Native.Nat.{bit_xor}
use libce.Base.{
  ℕ, zero, suc, ◌≤◌, ◌≡◌, ◌↔◌, refl, ap, ◌∙◌, Bool, true, List, [], ◌∷◌, bit_or, ◌==◌, arith, ==→eq,
  eq→==,
}
use libce.Base.Lists.{length, take, replicate}
use libce.Base.Bits.{bit_or-zero}
use libce.Base.Zero.{bit_or_zero, bit_xor_zero, bit_xor_self}
use libce.Base.Bytes.{Bytes}

-- The buffer after `_olm_unset`.
unfoldable pub unset : Bytes → Bytes
unset [] = []
unset (b ∷ pos) = 0 ∷ unset pos

-- `while (length--) result |= *(buffer_a++) ^ *(buffer_b++)`, inside both buffers.
unfoldable pub differences : ℕ → ℕ → Bytes → Bytes → ℕ
differences result zero a b = result
differences result (suc n) [] b = result
differences result (suc n) (x ∷ a) [] = result
differences result (suc n) (x ∷ a) (y ∷ b) = differences (bit_or result (bit_xor x y)) n a b

unfoldable pub is_equal : Bytes → Bytes → ℕ → Bool
unfolding differences
is_equal buffer_a buffer_b n = differences 0 n buffer_a buffer_b == 0

differences_zero :
    (result n : ℕ) (a b : Bytes)
    → n ≤ length a
    → n ≤ length b
    → differences result n a b ≡ 0
    → (result ≡ 0) × (take n a ≡ take n b)
unfolding differences
differences_zero result zero a b p q e = (e, refl)
differences_zero result (suc n) [] b p q e = absurd (omega arith)
differences_zero result (suc n) (x ∷ a) [] p q e = absurd (omega arith)
differences_zero result (suc n) (x ∷ a) (y ∷ b) p q e =
    let (none_yet, rest) =
      differences_zero (bit_or result (bit_xor x y)) n a b (omega arith) (omega arith) e in
    let (r, same) = bit_or_zero result (bit_xor x y) none_yet in
    let here = bit_xor_zero x y same in (r, rw (here, rest))

differences_self : (n : ℕ) (a b : Bytes) → take n a ≡ take n b → differences 0 n a b ≡ 0
unfolding differences
differences_self zero a b e = refl
differences_self (suc n) [] b e = refl
differences_self (suc n) (x ∷ a) [] e = refl
differences_self (suc n) (x ∷ a) (y ∷ b) e =
    let here : x ≡ y = cc in
    let rest : take n a ≡ take n b = cc in rw (here, bit_xor_self y) (differences_self n a b rest)

-- On buffers that are long enough, the test holds exactly when the first `n` bytes are the same.
pub is_equal_iff :
    (a b : Bytes) (n : ℕ)
    → n ≤ length a
    → n ≤ length b
    → (is_equal a b n ≡ true) ↔ (take n a ≡ take n b)
unfolding is_equal
is_equal_iff a b n p q = (
  (λ h. (differences_zero 0 n a b p q (==→eq _ 0 h)).1),
  (λ e. eq→== _ 0 (differences_self n a b e)),
)
