-- ===== src/Varint.antt =====
-- src/message.c, first part: variable-length integers, seven bits a byte, lowest group first.
-- The `size_t` and the `uint32_t` versions are one loop; the width matters to the decoder only.
-- A writer takes and returns the bytes before `output`; a reader takes the bytes up to `end`.
pub mod RoundTrip
mod Runs
use libce.Base.{
  ℕ, zero, suc, ◌+◌, ◌-◌, ◌*◌, ◌/◌, ◌%◌, ◌^◌, ◌<◌, ◌≤◌, ◌≡◌, Bool, List, [], ◌∷◌, ◌++◌, bit_and,
  bit_or, ltb, leb, ◌==◌, if◌then◌else◌, arith,
}
use libce.Base.Lists.{length, take}
use libce.Base.Bytes.{Bytes}
use libce.Base.Order.{lt_wf}
use mathlib.Core.Logic.{dite}
use mathlib.Core.WellFounded.{Acc}
use native.Mathlib.Decide.{dec_le}

pub shrinks : (value : ℕ) → 128 ≤ value → value / 128 < value
shrinks value h = omega arith

pub varint_length_loop : ℕ → (value : ℕ) → Acc ◌<◌ value → ℕ
varint_length_loop result value (Acc.intro _ smaller) =
    dite (dec_le 128 value)
      (λ more. varint_length_loop (result + 1) (value / 128) (smaller _ (shrinks value more)))
      (λ _. result)

unfoldable pub varint_length_bytes : ℕ → ℕ
unfolding varint_length_loop lt_wf dec_le
varint_length_bytes value = varint_length_loop 1 value (lt_wf.apply value)

unfoldable pub varint_length_uint32 : ℕ → ℕ
unfolding varint_length_loop lt_wf dec_le
varint_length_uint32 value = varint_length_loop 1 value (lt_wf.apply value)

pub varint_encode_loop : Bytes → (value : ℕ) → Acc ◌<◌ value → Bytes
varint_encode_loop out value (Acc.intro _ smaller) =
    dite (dec_le 128 value)
      (λ more.
        varint_encode_loop (out ++ (bit_or (bit_and 0x7f value) 0x80 ∷ [])) (value / 128)
          (smaller _ (shrinks value more)))
      (λ _. out ++ (value % 256 ∷ []))

unfoldable pub varint_encode_bytes : Bytes → ℕ → Bytes
unfolding varint_encode_loop lt_wf dec_le
varint_encode_bytes out value = varint_encode_loop out value (lt_wf.apply value)

unfoldable pub varint_encode_uint32 : Bytes → ℕ → Bytes
unfolding varint_encode_loop lt_wf dec_le
varint_encode_uint32 out value = varint_encode_loop out value (lt_wf.apply value)

-- The loop runs from the last byte to the first, in an integer of `width` bits.
unfoldable pub varint_decode : ℕ → Bytes → ℕ
varint_decode width [] = 0
varint_decode width (b ∷ bs) = bit_or (varint_decode width bs * 2 ^ 7 % 2 ^ width) (bit_and 0x7f b)

unfoldable pub varint_decode_bytes : Bytes → ℕ
unfolding varint_decode
varint_decode_bytes bytes = varint_decode 64 bytes

unfoldable pub varint_decode_uint32 : Bytes → ℕ
unfolding varint_decode
varint_decode_uint32 bytes = varint_decode 32 bytes

-- The position behind the first byte with a clear top bit, or the end.
unfoldable pub varint_skip : Bytes → Bytes
varint_skip [] = []
varint_skip (tmp ∷ input) = if bit_and tmp 0x80 == 0 then input else varint_skip input

-- The bytes from one position up to a later one.
unfoldable pub between : Bytes → Bytes → Bytes
between start pos = take (length start - length pos) start

unfoldable pub varstring_length : ℕ → ℕ
varstring_length string_length = varint_length_bytes string_length + string_length
