-- ===== src/Message/Runs.antt =====
-- Messages of a few bytes, and bytes that are no message.
use libce.Base.{◌≡◌, true, some, [], ◌∷◌, ◌++◌, arith}
use libce.Base.Bytes.{Bytes}
use libce.Message.{
  MessageReader, encode_message, decode_message, encode_one_time_key_message,
  decode_one_time_key_message, encode_group_message, decode_group_message,
}
use libce.Message.Loop.{decode_message_total}
use libce.Message.RoundTrip.{decode_message-encode_message}
use libce.Message.PreKey.{Fit, decode-encode_one_time_key_message}
use libce.Message.Group.{decode_group_message-encode}

abbrev some_key : Bytes
some_key = 1 ∷ 2 ∷ 3 ∷ []

abbrev some_text : Bytes
some_text = 40 ∷ 41 ∷ []

abbrev some_mac : Bytes
some_mac = 90 ∷ 91 ∷ []

-- A version, a tag of an unknown field, and a length that leads past the end.
abbrev bad_input : Bytes
bad_input = 3 ∷ 0x7a ∷ 200 ∷ 200 ∷ []

decode_message_example :
    decode_message ((encode_message 3 300 some_key some_text).0 ++ some_mac) 2
    ≡ some (record {
      version = 3;
      has_counter = true;
      counter = 300;
      input = (encode_message 3 300 some_key some_text).0 ++ some_mac;
      ratchet_key = some some_key;
      ciphertext = some some_text;
    })
decode_message_example =
    decode_message-encode_message 3 300 some_key some_text some_mac (omega arith) (omega arith)
      (omega arith)

abbrev some_fit : Fit some_key some_text some_mac some_text
some_fit = record {
  identity_fits = omega arith;
  base_fits = omega arith;
  one_time_fits = omega arith;
  message_fits = omega arith;
}

decode_one_time_key_message_example :
    decode_one_time_key_message
      (encode_one_time_key_message 3 some_key some_text some_mac some_text).0
    ≡ some (record {
      version = 3;
      identity_key = some some_key;
      base_key = some some_text;
      one_time_key = some some_mac;
      message = some some_text;
    })
decode_one_time_key_message_example =
    decode-encode_one_time_key_message 3 some_key some_text some_mac some_text some_fit

decode_group_message_example :
    decode_group_message ((encode_group_message 3 300 some_text).0 ++ (some_mac ++ some_key)) 2 3
    ≡ some (record {
      version = 3;
      message_index = 300;
      has_message_index = true;
      ciphertext = some some_text;
    })
decode_group_message_example =
    decode_group_message-encode 3 300 some_text (omega arith) (omega arith) (some_mac ++ some_key) 2
      3 (omega arith)

decode_message_total_example : (r : MessageReader) × (decode_message bad_input 1 ≡ some r)
decode_message_total_example = decode_message_total bad_input 1
