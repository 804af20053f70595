-- ===== src/Memory/Runs.antt =====
-- The comparison on concrete bytes.
use libce.Base.{◌≡◌, ◌↔◌, true, [], ◌∷◌, arith}
use libce.Base.Lists.{take}
use libce.Base.Bytes.{Bytes}
use libce.Memory.{is_equal, is_equal_iff}

abbrev bytes_a : Bytes
bytes_a = 1 ∷ 2 ∷ 3 ∷ []

abbrev bytes_b : Bytes
bytes_b = 1 ∷ 2 ∷ 9 ∷ []

is_equal_example : (is_equal bytes_a bytes_b 2 ≡ true) ↔ (take 2 bytes_a ≡ take 2 bytes_b)
is_equal_example = is_equal_iff bytes_a bytes_b 2 (omega arith) (omega arith)
