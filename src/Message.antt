-- ===== src/Message.antt =====
-- src/message.c, third part: the three kinds of messages. The structs are those of
-- include/libce/message.h; a pointer with its length is one slice (see Fields).
pub mod Loop
pub mod RoundTrip
pub mod PreKey
pub mod Group
mod Runs
use libce.Base.{
  ℕ, zero, suc, ◌+◌, ◌-◌, ◌<◌, ◌≡◌, Bool, true, false, Option, none, some, List, [], ◌∷◌, ◌++◌, ltb,
  ◌==◌, if◌then◌else◌,
}
use libce.Base.Lists.{length, take, drop}
use libce.Base.Bytes.{Bytes}
use libce.Varint.{varint_length_uint32, varstring_length}
use libce.Fields.{encode_bytes, encode_uint32, decode_bytes, decode_uint32, skip_unknown}

abbrev pub version_length : ℕ
version_length = 1

-- Octal 012, 020 and 042.
abbrev pub ratchet_key_tag : ℕ
ratchet_key_tag = 0x0a

abbrev pub counter_tag : ℕ
counter_tag = 0x10

abbrev pub ciphertext_tag : ℕ
ciphertext_tag = 0x22

-- Octal 012, 022, 032 and 042.
abbrev pub one_time_key_id_tag : ℕ
one_time_key_id_tag = 0x0a

abbrev pub base_key_tag : ℕ
base_key_tag = 0x12

abbrev pub identity_key_tag : ℕ
identity_key_tag = 0x1a

abbrev pub message_tag : ℕ
message_tag = 0x22

-- Octal 010 and 022.
abbrev pub group_message_index_tag : ℕ
group_message_index_tag = 0x08

abbrev pub group_ciphertext_tag : ℕ
group_ciphertext_tag = 0x12

-- `while (pos != end)`: `round` reads the known fields into the reader; if the position has not
-- moved, an unknown field is skipped. `none` means that the fuel ran out. Positions are tails of one
-- buffer, so they are the same exactly when their lengths are.
unfoldable pub decode_fields : {R : Type 0} → (Bytes → R → Bytes × R) → ℕ → Bytes → R → Option R
decode_fields round fuel [] reader = some reader
decode_fields round zero (b ∷ bs) reader = none
decode_fields round (suc fuel) (b ∷ bs) reader =
    let (pos, reader') = round (b ∷ bs) reader in
    let pos' = if length pos == length (b ∷ bs) then skip_unknown pos else pos in
    decode_fields round fuel pos' reader'

pub record MessageReader : Type 0 where
  pub version : ℕ
  pub has_counter : Bool
  pub counter : ℕ
  pub input : Bytes
  pub ratchet_key : Option Bytes
  pub ciphertext : Option Bytes

unfoldable pub encode_message_length : ℕ → ℕ → ℕ → ℕ → ℕ
encode_message_length counter ratchet_key_length ciphertext_length mac_length =
    version_length
    + (1 + varstring_length ratchet_key_length)
    + (1 + varint_length_uint32 counter)
    + (1 + varstring_length ciphertext_length)
    + mac_length

-- The offsets that the writer struct gets.
pub record MessageWriter : Type 0 where
  pub ratchet_key : ℕ
  pub ciphertext : ℕ

unfoldable pub encode_message : ℕ → ℕ → Bytes → Bytes → Bytes × MessageWriter
encode_message version counter ratchet_key ciphertext =
    let (pos1, ratchet_key_at) = encode_bytes (version ∷ []) ratchet_key_tag ratchet_key in
    let pos2 = encode_uint32 pos1 counter_tag counter in
    let (pos3, ciphertext_at) = encode_bytes pos2 ciphertext_tag ciphertext in
    (pos3, record { ratchet_key = ratchet_key_at; ciphertext = ciphertext_at })

unfoldable pub message_round : Bytes → MessageReader → Bytes × MessageReader
message_round pos r =
    let (pos1, key) = decode_bytes ratchet_key_tag pos r.ratchet_key in
    let (pos2, number) = decode_uint32 counter_tag pos1 (r.counter, r.has_counter) in
    let (pos3, text) = decode_bytes ciphertext_tag pos2 r.ciphertext in
    (
      pos3,
      record r { has_counter = number.1; counter = number.0; ratchet_key = key; ciphertext = text },
    )

abbrev pub empty_reader : Bytes → MessageReader
empty_reader input = record {
  version = 0;
  has_counter = false;
  counter = 0;
  input = input;
  ratchet_key = none;
  ciphertext = none;
}

-- The bytes between `input` and `end`, the first of which is the version.
unfoldable pub decode_message_body : Bytes → MessageReader → Option MessageReader
decode_message_body [] reader = some reader
decode_message_body (version ∷ pos) reader =
    decode_fields message_round (length pos) pos (record reader { version = version })

unfoldable pub decode_message : Bytes → ℕ → Option MessageReader
unfolding decode_message_body
decode_message input mac_length =
    if ltb (length input) mac_length
    then some (empty_reader input)
    else decode_message_body (take (length input - mac_length) input) (empty_reader input)

pub record PreKeyMessageReader : Type 0 where
  pub version : ℕ
  pub identity_key : Option Bytes
  pub base_key : Option Bytes
  pub one_time_key : Option Bytes
  pub message : Option Bytes

pub record PreKeyMessageWriter : Type 0 where
  pub identity_key : ℕ
  pub base_key : ℕ
  pub one_time_key : ℕ
  pub message : ℕ

unfoldable pub encode_one_time_key_message_length : ℕ → ℕ → ℕ → ℕ → ℕ
encode_one_time_key_message_length one_time_key_length identity_key_length base_key_length
      message_length =
    version_length
    + (1 + varstring_length one_time_key_length)
    + (1 + varstring_length identity_key_length)
    + (1 + varstring_length base_key_length)
    + (1 + varstring_length message_length)

unfoldable pub encode_one_time_key_message :
    ℕ → Bytes → Bytes → Bytes → Bytes → Bytes × PreKeyMessageWriter
encode_one_time_key_message version identity_key base_key one_time_key message =
    let (pos1, one_time_key_at) = encode_bytes (version ∷ []) one_time_key_id_tag one_time_key in
    let (pos2, base_key_at) = encode_bytes pos1 base_key_tag base_key in
    let (pos3, identity_key_at) = encode_bytes pos2 identity_key_tag identity_key in
    let (pos4, message_at) = encode_bytes pos3 message_tag message in
    (
      pos4,
      record {
        identity_key = identity_key_at;
        base_key = base_key_at;
        one_time_key = one_time_key_at;
        message = message_at;
      },
    )

unfoldable pub pre_key_round : Bytes → PreKeyMessageReader → Bytes × PreKeyMessageReader
pre_key_round pos r =
    let (pos1, one_time_key) = decode_bytes one_time_key_id_tag pos r.one_time_key in
    let (pos2, base_key) = decode_bytes base_key_tag pos1 r.base_key in
    let (pos3, identity_key) = decode_bytes identity_key_tag pos2 r.identity_key in
    let (pos4, message) = decode_bytes message_tag pos3 r.message in
    (
      pos4,
      record {
        version = r.version;
        identity_key = identity_key;
        base_key = base_key;
        one_time_key = one_time_key;
        message = message;
      },
    )

unfoldable pub decode_one_time_key_message : Bytes → Option PreKeyMessageReader
decode_one_time_key_message [] = some (record {
  version = 0;
  identity_key = none;
  base_key = none;
  one_time_key = none;
  message = none;
})
decode_one_time_key_message (version ∷ pos) = decode_fields pre_key_round (length pos) pos (record {
  version = version;
  identity_key = none;
  base_key = none;
  one_time_key = none;
  message = none;
})

pub record DecodeGroupMessageResults : Type 0 where
  pub version : ℕ
  pub message_index : ℕ
  pub has_message_index : Bool
  pub ciphertext : Option Bytes

unfoldable pub encode_group_message_length : ℕ → ℕ → ℕ → ℕ → ℕ
encode_group_message_length message_index ciphertext_length mac_length signature_length =
    version_length
    + (1 + varint_length_uint32 message_index)
    + (1 + varstring_length ciphertext_length)
    + mac_length
    + signature_length

-- The message with the offset for `*ciphertext_ptr`; the C function returns its length up to the
-- end of the ciphertext.
unfoldable pub encode_group_message : ℕ → ℕ → Bytes → Bytes × ℕ
encode_group_message version message_index ciphertext =
    let pos = encode_uint32 (version ∷ []) group_message_index_tag message_index in
    encode_bytes pos group_ciphertext_tag ciphertext

unfoldable pub group_round : Bytes → DecodeGroupMessageResults → Bytes × DecodeGroupMessageResults
group_round pos r =
    let (pos1, number) =
      decode_uint32 group_message_index_tag pos (r.message_index, r.has_message_index) in
    let (pos2, text) = decode_bytes group_ciphertext_tag pos1 r.ciphertext in
    (pos2, record r { message_index = number.0; has_message_index = number.1; ciphertext = text })

abbrev pub empty_results : DecodeGroupMessageResults
empty_results = record {
  version = 0;
  message_index = 0;
  has_message_index = false;
  ciphertext = none;
}

unfoldable pub decode_group_message_body : Bytes → Option DecodeGroupMessageResults
decode_group_message_body [] = some empty_results
decode_group_message_body (version ∷ pos) =
    decode_fields group_round (length pos) pos (record empty_results { version = version })

unfoldable pub decode_group_message : Bytes → ℕ → ℕ → Option DecodeGroupMessageResults
unfolding decode_group_message_body
decode_group_message input mac_length signature_length =
    let trailer_length = mac_length + signature_length in
    if ltb (length input) trailer_length
    then some empty_results
    else decode_group_message_body (take (length input - trailer_length) input)
