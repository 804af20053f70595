-- ===== src/Message/PreKey.antt =====
-- A pre-key message: what is written, how long it is, and that it is read back.
use libce.Base.{
  ℕ, ◌<◌, ◌^◌, ◌≡◌, refl, ap, ◌∙◌, some, [], ◌∷◌, ◌++◌, append-nil, append_assoc, arith,
}
use libce.Base.Lists.{length, length-append}
use libce.Base.Bytes.{Bytes}
use libce.Varint.{varstring_length}
use libce.Varint.RoundTrip.{encoding, varint_length_bytes-encoding}
use libce.Fields.RoundTrip.{bytes_field, encode_bytes-field, decode_bytes-field}
use libce.Message.{
  PreKeyMessageReader, encode_one_time_key_message_length, encode_one_time_key_message,
  pre_key_round, decode_one_time_key_message,
}
use libce.Message.RoundTrip.{decode_fields-once}

-- The four contents, each of a length that a `size_t` holds.
pub record Fit (identity_key base_key one_time_key message : Bytes) : Type 0 where
  pub identity_fits : length identity_key < 2 ^ 64
  pub base_fits : length base_key < 2 ^ 64
  pub one_time_fits : length one_time_key < 2 ^ 64
  pub message_fits : length message < 2 ^ 64

module _ (version : ℕ) (identity_key base_key one_time_key message : Bytes)
    (fit : Fit identity_key base_key one_time_key message) where
  abbrev pre_key_fields : Bytes
  pre_key_fields =
      bytes_field 0x0a one_time_key
      ++ (bytes_field 0x12 base_key
          ++ (bytes_field 0x1a identity_key ++ (bytes_field 0x22 message ++ [])))

  encode-fields :
      (encode_one_time_key_message version identity_key base_key one_time_key message).0
      ≡ version ∷ pre_key_fields
  unfolding encode_one_time_key_message
  encode-fields =
      let first = (version ∷ []) ++ bytes_field 0x0a one_time_key in
      let second = first ++ bytes_field 0x12 base_key in
      let third = second ++ bytes_field 0x1a identity_key in
      rw (encode_bytes-field (version ∷ []) 0x0a one_time_key fit.one_time_fits) (
        rw (encode_bytes-field first 0x12 base_key fit.base_fits) (
          rw (encode_bytes-field second 0x1a identity_key fit.identity_fits) (
            rw (encode_bytes-field third 0x22 message fit.message_fits)
              (simp (append_assoc, append-nil)))))

  pre_key_round-fields :
      (r : PreKeyMessageReader)
      → pre_key_round pre_key_fields r ≡ (
        [],
        record {
          version = r.version;
          identity_key = some identity_key;
          base_key = some base_key;
          one_time_key = some one_time_key;
          message = some message;
        },
      )
  unfolding pre_key_round
  pre_key_round-fields r =
      rw
        (
          decode_bytes-field 0x0a one_time_key _ r.one_time_key fit.one_time_fits,
          decode_bytes-field 0x12 base_key _ r.base_key fit.base_fits,
          decode_bytes-field 0x1a identity_key _ r.identity_key fit.identity_fits,
          decode_bytes-field 0x22 message [] r.message fit.message_fits,
        )
        refl

  -- A pre-key message decodes to the fields it was written from, if their lengths have 64 bits.
  pub decode-encode_one_time_key_message :
      decode_one_time_key_message
        (encode_one_time_key_message version identity_key base_key one_time_key message).0
      ≡ some (record {
        version = version;
        identity_key = some identity_key;
        base_key = some base_key;
        one_time_key = some one_time_key;
        message = some message;
      })
  decode-encode_one_time_key_message =
      ap decode_one_time_key_message encode-fields
      ∙ unfold decode_one_time_key_message in
        decode_fields-once pre_key_round _ 0x0a _ _ _ (omega arith) (pre_key_round-fields _)

  -- The announced length is the length written, if the lengths of the fields have 64 bits.
  pub length-encode_one_time_key_message :
      length (encode_one_time_key_message version identity_key base_key one_time_key message).0
      ≡ encode_one_time_key_message_length
          (length one_time_key)
          (length identity_key)
          (length base_key)
          (length message)
  unfolding encode_one_time_key_message_length varstring_length
  length-encode_one_time_key_message = omega (
    arith,
    ap length encode-fields,
    length-append (bytes_field 0x0a one_time_key) (
        bytes_field 0x12 base_key
        ++ (bytes_field 0x1a identity_key ++ (bytes_field 0x22 message ++ []))),
    length-append (bytes_field 0x12 base_key)
        (bytes_field 0x1a identity_key ++ (bytes_field 0x22 message ++ [])),
    length-append (bytes_field 0x1a identity_key) (bytes_field 0x22 message ++ []),
    length-append (bytes_field 0x22 message) [],
    length-append (encoding (length one_time_key)) one_time_key,
    length-append (encoding (length base_key)) base_key,
    length-append (encoding (length identity_key)) identity_key,
    length-append (encoding (length message)) message,
    varint_length_bytes-encoding (length one_time_key) fit.one_time_fits,
    varint_length_bytes-encoding (length base_key) fit.base_fits,
    varint_length_bytes-encoding (length identity_key) fit.identity_fits,
    varint_length_bytes-encoding (length message) fit.message_fits,
  )
