-- ===== src/Fields/Progress.antt =====
-- Reading a field never moves back, and an unknown field is always moved over.
use libce.Base.{ℕ, ◌≤◌, Bool, Option, none, [], ◌∷◌, arith}
use libce.Base.Lists.{length, length-drop}
use libce.Base.Bytes.{Bytes}
use libce.Varint.{varint_skip, varint_decode_bytes, between}
use libce.Fields.{read_payload, decode_bytes, decode_uint32, skip_unknown}

pub varint_skip-le : (input : Bytes) → length (varint_skip input) ≤ length input
unfolding varint_skip
varint_skip-le [] = omega arith
varint_skip-le (tmp ∷ input) = ground (arith, varint_skip-le input)

varint_skip-lt : (tmp : ℕ) (input : Bytes) → length (varint_skip (tmp ∷ input)) ≤ length input
unfolding varint_skip
varint_skip-lt tmp input = ground (arith, varint_skip-le input)

read_payload-le :
    (start : Bytes) (value : Option Bytes) → length (read_payload start value).0 ≤ length start
unfolding read_payload
read_payload-le start value = ground (
  arith,
  varint_skip-le start,
  length-drop (varint_decode_bytes (between start (varint_skip start))) (varint_skip start),
)

pub decode_bytes-le :
    (tag : ℕ) (pos : Bytes) (value : Option Bytes)
    → length (decode_bytes tag pos value).0 ≤ length pos
unfolding decode_bytes
decode_bytes-le tag [] value = omega arith
decode_bytes-le tag (b ∷ pos) value = ground (arith, read_payload-le pos value)

pub decode_uint32-le :
    (tag : ℕ) (pos : Bytes) (value : ℕ × Bool) → length (decode_uint32 tag pos value).0 ≤ length pos
unfolding decode_uint32
decode_uint32-le tag [] value = omega arith
decode_uint32-le tag (b ∷ pos) value = ground (arith, varint_skip-le pos)

-- Skipping an unknown field takes at least its tag.
pub skip_unknown-lt : (tag : ℕ) (rest : Bytes) → length (skip_unknown (tag ∷ rest)) ≤ length rest
unfolding skip_unknown
skip_unknown-lt tag rest = ground (
  arith,
  varint_skip-lt tag rest,
  varint_skip-le (varint_skip (tag ∷ rest)),
  read_payload-le (varint_skip (tag ∷ rest)) none,
)
