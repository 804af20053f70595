-- ===== src/Pickle/Codec.antt =====
-- What a pickle function and its unpickle function promise to each other.
use libce.Base.{ℕ, ◌≡◌, Option, some, ◌++◌, []}
use libce.Base.Lists.{length}
use libce.Base.Bytes.{Bytes}

-- The writer appends; it writes as many bytes as announced; the reader gets the value back and
-- leaves the bytes that follow.
pub record IsCodec {A : Type 0} (Valid : A → Type 0) (pickle_length : A → ℕ)
    (pickle : Bytes → A → Bytes) (unpickle : Option Bytes → Option (A × Bytes)) : Type 0 where
  pub appends : (out : Bytes) (x : A) → pickle out x ≡ out ++ pickle [] x
  pub measured : (x : A) → Valid x → length (pickle [] x) ≡ pickle_length x
  pub restores :
      (x : A) (rest : Bytes) → Valid x → unpickle (some (pickle [] x ++ rest)) ≡ some (x, rest)
