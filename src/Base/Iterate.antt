-- ===== src/Base/Iterate.antt =====
-- A function applied n times.
use Prim.Native.Nat.{ℕ, zero, suc, ◌+◌}
use mathlib.Core.Path.{◌≡◌, refl, ap}
use native.Mathlib.Omega.{arith}

unfoldable pub iterate {ℓ} : {A : Type ℓ} → ℕ → (A → A) → A → A
iterate zero f x = x
iterate (suc n) f x = f (iterate n f x)

pub iterate-zero {ℓ} : {A : Type ℓ} (f : A → A) (x : A) → iterate 0 f x ≡ x
unfolding iterate
iterate-zero f x = refl

pub iterate-suc {ℓ} :
    {A : Type ℓ} (n : ℕ) (f : A → A) (x : A) → iterate (suc n) f x ≡ f (iterate n f x)
unfolding iterate
iterate-suc n f x = refl

pub iterate-add {ℓ} :
    {A : Type ℓ} (m n : ℕ) (f : A → A) (x : A) → iterate (m + n) f x ≡ iterate m f (iterate n f x)
unfolding iterate
iterate-add zero n f x = let e : 0 + n ≡ n = omega arith in rw e
iterate-add (suc m) n f x =
    let e : suc m + n ≡ suc (m + n) = omega arith in rw e (ap f (iterate-add m n f x))

pub iterate_shift {ℓ} :
    {A : Type ℓ} (n : ℕ) (f : A → A) (x : A) → iterate (suc n) f x ≡ iterate n f (f x)
unfolding iterate
iterate_shift zero f x = refl
iterate_shift (suc n) f x = ap f (iterate_shift n f x)
