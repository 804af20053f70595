-- ===== src/Fields/RoundTrip.antt =====
-- A field that was written is read back, at its own tag.
use libce.Base.{
  ℕ, ◌+◌, ◌<◌, ◌^◌, ◌≡◌, ◌≢◌, refl, ◌∙◌, Bool, true, Option, some, [], ◌∷◌, ◌++◌, append_assoc,
  arith, eq→==, ne→==_false, le→ltb_false,
}
use libce.Base.Lists.{length, length-append, take-append, drop-append}
use libce.Base.Bytes.{Bytes}
use libce.Varint.{varint_decode_bytes, varint_decode_uint32}
use libce.Varint.RoundTrip.{
  encoding, varint_encode_bytes-encoding, varint_encode_uint32-encoding, varint_skip-encoding,
  varint_decode-encoding, between-append,
}
use libce.Fields.{encode_bytes, encode_uint32, read_payload, decode_bytes, decode_uint32}

-- The bytes of a field.
abbrev pub bytes_field : ℕ → Bytes → Bytes
bytes_field tag value = tag ∷ (encoding (length value) ++ value)

abbrev pub uint32_field : ℕ → ℕ → Bytes
uint32_field tag value = tag ∷ encoding value

pub encode_bytes-field :
    (out : Bytes) (tag : ℕ) (value : Bytes)
    → length value < 2 ^ 64
    → encode_bytes out tag value
      ≡ (out ++ bytes_field tag value, length out + (1 + length (encoding (length value))))
unfolding encode_bytes
encode_bytes-field out tag value h =
    rw (varint_encode_bytes-encoding (out ++ (tag ∷ [])) (length value) h) (
      ground (
        arith,
        append_assoc (out ++ (tag ∷ [])) (encoding (length value)) value,
        append_assoc out (tag ∷ []) (encoding (length value) ++ value),
        length-append (out ++ (tag ∷ [])) (encoding (length value)),
        length-append out (tag ∷ []),
      ))

pub encode_uint32-field :
    (out : Bytes) (tag value : ℕ)
    → value < 2 ^ 32
    → encode_uint32 out tag value ≡ out ++ uint32_field tag value
unfolding encode_uint32
encode_uint32-field out tag value h =
    varint_encode_uint32-encoding (out ++ (tag ∷ [])) value h
    ∙ append_assoc out (tag ∷ []) (encoding value)

read_payload-encoding :
    (value rest : Bytes) (old : Option Bytes)
    → length value < 2 ^ 64
    → read_payload (encoding (length value) ++ (value ++ rest)) old ≡ (rest, some value)
unfolding read_payload varint_decode_bytes
read_payload-encoding value rest old h =
    rw
      (
        varint_skip-encoding (length value) (value ++ rest) h,
        between-append (encoding (length value)) (value ++ rest),
        varint_decode-encoding 64 (length value) h h,
        le→ltb_false (length (value ++ rest)) (length value)
            (omega (arith, length-append value rest)),
        take-append value rest,
        drop-append value rest,
      )
      refl

-- Reading a byte field gives its contents, whatever the reader held, and the bytes after it.
pub decode_bytes-field :
    (tag : ℕ) (value rest : Bytes) (old : Option Bytes)
    → length value < 2 ^ 64
    → decode_bytes tag (bytes_field tag value ++ rest) old ≡ (rest, some value)
unfolding decode_bytes
decode_bytes-field tag value rest old h =
    rw (eq→== tag tag refl, append_assoc (encoding (length value)) value rest)
      (read_payload-encoding value rest old h)

pub decode_uint32-field :
    (tag value : ℕ) (rest : Bytes) (old : ℕ × Bool)
    → value < 2 ^ 32
    → decode_uint32 tag (uint32_field tag value ++ rest) old ≡ (rest, (value, true))
unfolding decode_uint32 varint_decode_uint32
decode_uint32-field tag value rest old h =
    rw
      (
        eq→== tag tag refl,
        varint_skip-encoding value rest (omega arith),
        between-append (encoding value) rest,
        varint_decode-encoding 32 value (omega arith) h,
      )
      refl

-- At another tag, or at the end, nothing is read.
pub decode_bytes-other :
    (tag b : ℕ) (pos : Bytes) (old : Option Bytes)
    → b ≢ tag
    → decode_bytes tag (b ∷ pos) old ≡ (b ∷ pos, old)
unfolding decode_bytes
decode_bytes-other tag b pos old h = rw (ne→==_false b tag h)

pub decode_uint32-other :
    (tag b : ℕ) (pos : Bytes) (old : ℕ × Bool)
    → b ≢ tag
    → decode_uint32 tag (b ∷ pos) old ≡ (b ∷ pos, old)
unfolding decode_uint32
decode_uint32-other tag b pos old h = rw (ne→==_false b tag h)
