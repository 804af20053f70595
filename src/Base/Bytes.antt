-- ===== src/Base/Bytes.antt =====
-- Byte arrays as lists of numbers.
use Prim.Native.Nat.{ℕ, ◌<◌, ◌^◌}
use mathlib.Core.Path.{◌≡◌}
use mathlib.Core.List.{List}
use libce.Base.Lists.{length, All}

abbrev pub Bytes : Type 0
Bytes = List ℕ

abbrev pub IsByte : ℕ → Type 0
IsByte b = b < 256

abbrev pub IsU32 : ℕ → Type 0
IsU32 v = v < 2 ^ 32

-- A `uint8_t[n]`.
pub record IsArray (n : ℕ) (xs : Bytes) : Type 0 where
  pub sized : length xs ≡ n
  pub bytes : All IsByte xs
