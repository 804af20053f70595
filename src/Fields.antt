-- ===== src/Fields.antt =====
-- src/message.c, second part: the tagged fields of a message.
-- A writer returns the bytes before its new `pos`. The C writers of byte fields return in `*value`
-- where the caller is to put the contents; the model takes the contents as an argument, and
-- returns that place as an offset. A reader's `pos` is the list of bytes from there to `end`; a
-- pointer into the input with its length is the slice it points to, `none` for NULL.
pub mod RoundTrip
pub mod Progress
use libce.Base.{
  ℕ, zero, suc, ◌+◌, ◌-◌, ◌<◌, ◌≡◌, Bool, true, false, Option, none, some, List, [], ◌∷◌, ◌++◌,
  bit_and, ltb, ◌==◌, if◌then◌else◌,
}
use libce.Base.Lists.{length, take, drop}
use libce.Base.Bytes.{Bytes}
use libce.Varint.{
  varint_encode_bytes, varint_encode_uint32, varint_decode_bytes, varint_decode_uint32, varint_skip,
  between,
}

unfoldable pub encode_bytes : Bytes → ℕ → Bytes → Bytes × ℕ
encode_bytes out tag value =
    let pos = varint_encode_bytes (out ++ (tag ∷ [])) (length value) in (pos ++ value, length pos)

unfoldable pub encode_uint32 : Bytes → ℕ → ℕ → Bytes
encode_uint32 out tag value = varint_encode_uint32 (out ++ (tag ∷ [])) value

-- Is there a byte, and is it the tag?
unfoldable pub at_tag : ℕ → Bytes → Bool
at_tag tag [] = false
at_tag tag (b ∷ pos) = b == tag

-- The payload behind a length: the new position, and the slice unless the length runs past the end.
unfoldable pub read_payload : Bytes → Option Bytes → Bytes × Option Bytes
read_payload len_start value =
    let pos = varint_skip len_start in
    let len = varint_decode_bytes (between len_start pos) in
    if ltb (length pos) len then ([], value) else (drop len pos, some (take len pos))

unfoldable pub decode_bytes : ℕ → Bytes → Option Bytes → Bytes × Option Bytes
unfolding at_tag read_payload
decode_bytes tag pos value =
    if at_tag tag pos then read_payload (drop 1 pos) value else (pos, value)

-- `*value` with `*has_value`.
unfoldable pub decode_uint32 : ℕ → Bytes → ℕ × Bool → Bytes × (ℕ × Bool)
unfolding at_tag
decode_uint32 tag pos (value, has_value) =
    let value_start = drop 1 pos in
    let pos1 = varint_skip value_start in
    if at_tag tag pos
    then (pos1, (varint_decode_uint32 (between value_start pos1), true))
    else (pos, (value, has_value))

-- The tag itself is read by the first `varint_skip`.
unfoldable pub skip_unknown : Bytes → Bytes
unfolding read_payload
skip_unknown [] = []
skip_unknown (tag ∷ rest) =
    let pos = tag ∷ rest in
    if bit_and tag 0x7 == 0
    then varint_skip (varint_skip pos)
    else if bit_and tag 0x7 == 2
    then (read_payload (varint_skip pos) none).0
    else []
