-- ===== src/Base/Order.antt =====
-- The order of the native numbers is well founded, by a proof that computes.
use Prim.Native.Nat.{ℕ, zero, suc, ◌<◌}
use mathlib.Core.WellFounded.{Acc, WellFounded}
use native.Mathlib.Omega.{arith}

Acc-under : (bound n : ℕ) → n < bound → Acc ◌<◌ n
Acc-under zero n h = absurd (omega arith)
Acc-under (suc bound) n h = Acc.intro n (λ m below. Acc-under bound m (omega arith))

unfoldable pub lt_wf : WellFounded ◌<◌
unfolding Acc-under
lt_wf = record { apply = λ n. Acc-under (suc n) n (omega arith) }
