-- ===== src/Base64.antt =====
-- src/base64.c: base64 without padding. A pointer into a buffer is the list of bytes from there on,
-- an output buffer the bytes written. SIZE_MAX is `none`. `unsigned` has 32 bits.
pub mod Groups
pub mod RoundTrip
mod Runs
use libce.Base.{
  ℕ, zero, suc, ◌+◌, ◌-◌, ◌*◌, ◌/◌, ◌%◌, ◌^◌, ◌<◌, ◌≡◌, Option, none, some, List, [], ◌∷◌, ◌++◌,
  bit_and, bit_or, ◌==◌, if◌then◌else◌,
}
use libce.Base.Lists.{length, get_or}
use libce.Base.Bytes.{Bytes}

unfoldable pub encode_table : Bytes
encode_table =
    0x41 ∷ 0x42 ∷ 0x43 ∷ 0x44 ∷ 0x45 ∷ 0x46 ∷ 0x47 ∷ 0x48 ∷ 0x49 ∷ 0x4a ∷ 0x4b ∷ 0x4c ∷ 0x4d ∷ 0x4e
    ∷ 0x4f ∷ 0x50 ∷ 0x51 ∷ 0x52 ∷ 0x53 ∷ 0x54 ∷ 0x55 ∷ 0x56 ∷ 0x57 ∷ 0x58 ∷ 0x59 ∷ 0x5a ∷ 0x61
    ∷ 0x62 ∷ 0x63 ∷ 0x64 ∷ 0x65 ∷ 0x66 ∷ 0x67 ∷ 0x68 ∷ 0x69 ∷ 0x6a ∷ 0x6b ∷ 0x6c ∷ 0x6d ∷ 0x6e
    ∷ 0x6f ∷ 0x70 ∷ 0x71 ∷ 0x72 ∷ 0x73 ∷ 0x74 ∷ 0x75 ∷ 0x76 ∷ 0x77 ∷ 0x78 ∷ 0x79 ∷ 0x7a ∷ 0x30
    ∷ 0x31 ∷ 0x32 ∷ 0x33 ∷ 0x34 ∷ 0x35 ∷ 0x36 ∷ 0x37 ∷ 0x38 ∷ 0x39 ∷ 0x2b ∷ 0x2f ∷ []

-- `enum { E = -1 }`, stored in a `uint8_t`.
abbrev e : ℕ
e = 255

unfoldable pub decode_table : Bytes
decode_table =
    e ∷ e ∷ e ∷ e ∷ e ∷ e ∷ e ∷ e ∷ e ∷ e ∷ e ∷ e ∷ e ∷ e ∷ e ∷ e ∷ e ∷ e ∷ e ∷ e ∷ e ∷ e ∷ e ∷ e
    ∷ e ∷ e ∷ e ∷ e ∷ e ∷ e ∷ e ∷ e ∷ e ∷ e ∷ e ∷ e ∷ e ∷ e ∷ e ∷ e ∷ e ∷ e ∷ e ∷ 62 ∷ e ∷ e ∷ e
    ∷ 63 ∷ 52 ∷ 53 ∷ 54 ∷ 55 ∷ 56 ∷ 57 ∷ 58 ∷ 59 ∷ 60 ∷ 61 ∷ e ∷ e ∷ e ∷ e ∷ e ∷ e ∷ e ∷ 0 ∷ 1 ∷ 2
    ∷ 3 ∷ 4 ∷ 5 ∷ 6 ∷ 7 ∷ 8 ∷ 9 ∷ 10 ∷ 11 ∷ 12 ∷ 13 ∷ 14 ∷ 15 ∷ 16 ∷ 17 ∷ 18 ∷ 19 ∷ 20 ∷ 21 ∷ 22
    ∷ 23 ∷ 24 ∷ 25 ∷ e ∷ e ∷ e ∷ e ∷ e ∷ e ∷ 26 ∷ 27 ∷ 28 ∷ 29 ∷ 30 ∷ 31 ∷ 32 ∷ 33 ∷ 34 ∷ 35 ∷ 36
    ∷ 37 ∷ 38 ∷ 39 ∷ 40 ∷ 41 ∷ 42 ∷ 43 ∷ 44 ∷ 45 ∷ 46 ∷ 47 ∷ 48 ∷ 49 ∷ 50 ∷ 51 ∷ e ∷ e ∷ e ∷ e ∷ e
    ∷ []

-- `ENCODE_BASE64[i]` and `DECODE_BASE64[c & 0x7F]`.
unfoldable pub encode_char : ℕ → ℕ
unfolding encode_table
encode_char i = get_or encode_table i 0

unfoldable pub decode_char : ℕ → ℕ
unfolding decode_table
decode_char c = get_or decode_table (bit_and c 0x7f) 0

-- `value <<= k; value |= x`
unfoldable pub shift_in : ℕ → ℕ → ℕ → ℕ
shift_in value k x = bit_or (value * 2 ^ k % 2 ^ 32) x

-- The sum is at least 4 whenever the input is not empty; for 0 it is 0 + 2 - 2.
unfoldable pub encode_base64_length : ℕ → ℕ
encode_base64_length input_length = 4 * ((input_length + 2) / 3) + (input_length + 2) % 3 - 2

-- One round of the loop: three bytes to four characters, the last one first.
unfoldable pub encode_group : ℕ → ℕ → ℕ → Bytes
encode_group b0 b1 b2 =
    let value = shift_in (shift_in b0 8 b1) 8 b2 in
    let value1 = value / 2 ^ 6 in
    let value2 = value1 / 2 ^ 6 in
    let value3 = value2 / 2 ^ 6 in
    encode_char value3
    ∷ encode_char (bit_and value2 0x3f)
    ∷ encode_char (bit_and value1 0x3f)
    ∷ encode_char (bit_and value 0x3f)
    ∷ []

-- The remainder of two bytes, and of one.
unfoldable pub encode_two : ℕ → ℕ → Bytes
encode_two b0 b1 =
    let value = shift_in b0 8 b1 * 2 ^ 2 % 2 ^ 32 in
    let value1 = value / 2 ^ 6 in
    let value2 = value1 / 2 ^ 6 in
    encode_char value2 ∷ encode_char (bit_and value1 0x3f) ∷ encode_char (bit_and value 0x3f) ∷ []

unfoldable pub encode_one : ℕ → Bytes
encode_one b0 =
    let value = b0 * 2 ^ 4 % 2 ^ 32 in
    let value1 = value / 2 ^ 6 in encode_char value1 ∷ encode_char (bit_and value 0x3f) ∷ []

-- The characters that `_olm_encode_base64` writes for its input.
unfoldable pub encode_base64 : Bytes → Bytes
unfolding encode_group encode_two encode_one
encode_base64 (b0 ∷ b1 ∷ b2 ∷ rest) = encode_group b0 b1 b2 ++ encode_base64 rest
encode_base64 (b0 ∷ b1 ∷ []) = encode_two b0 b1
encode_base64 (b0 ∷ []) = encode_one b0
encode_base64 [] = []

unfoldable pub decode_base64_length : ℕ → Option ℕ
decode_base64_length input_length =
    if input_length % 4 == 1
    then none
    else some (3 * ((input_length + 2) / 4) + (input_length + 2) % 4 - 2)

-- One round of the loop: four characters to three bytes, each cut to a `uint8_t`.
unfoldable pub decode_group : ℕ → ℕ → ℕ → ℕ → Bytes
decode_group c0 c1 c2 c3 =
    let value =
      shift_in (shift_in (shift_in (decode_char c0) 6 (decode_char c1)) 6 (decode_char c2)) 6
        (decode_char c3) in
    value / 2 ^ 8 / 2 ^ 8 % 256 ∷ value / 2 ^ 8 % 256 ∷ value % 256 ∷ []

-- The remainder of three characters, and of two.
unfoldable pub decode_three : ℕ → ℕ → ℕ → Bytes
decode_three c0 c1 c2 =
    let value =
      shift_in (shift_in (decode_char c0) 6 (decode_char c1)) 6 (decode_char c2) / 2 ^ 2 in
    value / 2 ^ 8 % 256 ∷ value % 256 ∷ []

unfoldable pub decode_two : ℕ → ℕ → Bytes
decode_two c0 c1 = shift_in (decode_char c0) 6 (decode_char c1) / 2 ^ 4 % 256 ∷ []

-- The loops of `_olm_decode_base64`; a single character is left only where its guard returned.
unfoldable pub decode_loop : Bytes → Bytes
unfolding decode_group decode_three decode_two
decode_loop (c0 ∷ c1 ∷ c2 ∷ c3 ∷ rest) = decode_group c0 c1 c2 c3 ++ decode_loop rest
decode_loop (c0 ∷ c1 ∷ c2 ∷ []) = decode_three c0 c1 c2
decode_loop (c0 ∷ c1 ∷ []) = decode_two c0 c1
decode_loop (c0 ∷ []) = []
decode_loop [] = []

-- The returned length with the bytes written.
unfoldable pub decode_base64 : Bytes → Option (ℕ × Bytes)
decode_base64 input = elim (decode_base64_length (length input)) [
  | none ↦ none
  | some raw_length ↦ some (raw_length, decode_loop input)
]
