-- ===== src/GroupSession/Counter.antt =====
-- The counter in a session key is read as it was written.
use libce.Base.{
  ℕ, ◌+◌, ◌*◌, ◌/◌, ◌%◌, ◌^◌, ◌<◌, ◌≡◌, refl, ◌∙◌, [], ◌∷◌, ◌++◌, bit_and, bit_or, arith,
}
use libce.Base.Lists.{length, All}
use libce.Base.Bits.{bit_and_comm, bit_and_mask, bit_or_add}
use libce.Base.Bytes.{Bytes, IsByte}
use libce.GroupSession.{write_counter, read_counter}

low_eight : (v : ℕ) → bit_and 0xff v ≡ v % 256
low_eight v = bit_and_comm 0xff v ∙ bit_and_mask 8 v

shift_in_byte :
    (value b : ℕ) → value < 2 ^ 24 → IsByte b → bit_or (value * 2 ^ 8 % 2 ^ 32) b ≡ value * 256 + b
shift_in_byte value b h hb =
    let e : value * 2 ^ 8 % 2 ^ 32 ≡ value * 2 ^ 8 = omega arith in
    rw (e, bit_or_add 8 value b hb) (omega arith)

-- Big-endian.
pub write_counter-digits :
    (c : ℕ)
    → c < 2 ^ 32
    → write_counter 4 c ≡ c / 2 ^ 24 ∷ c / 2 ^ 16 % 256 ∷ c / 2 ^ 8 % 256 ∷ c % 256 ∷ []
unfolding write_counter
write_counter-digits c h = rw (low_eight, low_eight, low_eight, low_eight) (ground arith)

pub write_counter-bytes : (c : ℕ) → c < 2 ^ 32 → All IsByte (write_counter 4 c)
write_counter-bytes c h = rw (write_counter-digits c h) (ground arith)

pub length-write_counter : (c : ℕ) → length (write_counter 4 c) ≡ 4
unfolding write_counter
length-write_counter c = refl

pub read_counter-write_counter :
    (c : ℕ) (rest : Bytes) → c < 2 ^ 32 → read_counter 4 0 (write_counter 4 c ++ rest) ≡ c
unfolding read_counter
read_counter-write_counter c rest h =
    let b3 = c / 2 ^ 24 in
    let b2 = c / 2 ^ 16 % 256 in
    let b1 = c / 2 ^ 8 % 256 in
    rw
      (
        write_counter-digits c h,
        shift_in_byte 0 b3 (omega arith) (omega arith),
        shift_in_byte (0 * 256 + b3) b2 (omega arith) (omega arith),
        shift_in_byte ((0 * 256 + b3) * 256 + b2) b1 (omega arith) (omega arith),
        shift_in_byte (((0 * 256 + b3) * 256 + b2) * 256 + b1) (c % 256) (omega arith)
            (omega arith),
      )
      (omega arith)
