-- ===== src/Message/Group.antt =====
-- A group message: what is written, how long it is, and that it is read back.
use libce.Base.{
  ℕ, ◌+◌, ◌-◌, ◌<◌, ◌^◌, ◌≡◌, refl, ap, ◌∙◌, true, some, [], ◌∷◌, ◌++◌, append-nil, append_assoc,
  arith, le→ltb_false,
}
use libce.Base.Lists.{All, All-append, length, length-append, take-append}
use libce.Base.Bytes.{Bytes, IsByte}
use libce.Varint.{varstring_length}
use libce.Varint.RoundTrip.{
  encoding-bytes, encoding, varint_length_bytes-encoding, varint_length_uint32-encoding,
}
use libce.Fields.RoundTrip.{
  bytes_field, uint32_field, encode_bytes-field, encode_uint32-field, decode_bytes-field,
  decode_uint32-field,
}
use libce.Message.{
  DecodeGroupMessageResults, encode_group_message_length, encode_group_message, group_round,
  decode_group_message_body, decode_group_message,
}
use libce.Message.RoundTrip.{decode_fields-once}

module _ (version message_index : ℕ) (ciphertext : Bytes) (index_fits : message_index < 2 ^ 32)
    (text_fits : length ciphertext < 2 ^ 64) where
  abbrev group_fields : Bytes
  group_fields = uint32_field 0x08 message_index ++ (bytes_field 0x12 ciphertext ++ [])

  encode-fields : (encode_group_message version message_index ciphertext).0 ≡ version ∷ group_fields
  unfolding encode_group_message
  encode-fields = rw (encode_uint32-field (version ∷ []) 0x08 message_index index_fits) (
      rw
        (encode_bytes-field ((version ∷ []) ++ uint32_field 0x08 message_index) 0x12 ciphertext
          text_fits)
        (simp (append_assoc, append-nil)))

  group_round-fields :
      (r : DecodeGroupMessageResults)
      → group_round group_fields r ≡ (
        [],
        record r {
          message_index = message_index;
          has_message_index = true;
          ciphertext = some ciphertext;
        },
      )
  unfolding group_round
  group_round-fields r =
      rw
        (
          decode_uint32-field 0x08 message_index (bytes_field 0x12 ciphertext ++ [])
              (r.message_index, r.has_message_index) index_fits,
          decode_bytes-field 0x12 ciphertext [] r.ciphertext text_fits,
        )
        refl

  decode-body :
      decode_group_message_body (encode_group_message version message_index ciphertext).0
      ≡ some (record {
        version = version;
        message_index = message_index;
        has_message_index = true;
        ciphertext = some ciphertext;
      })
  decode-body =
      ap decode_group_message_body encode-fields
      ∙ unfold decode_group_message_body in
        decode_fields-once group_round _ 0x08 _ _ _ (omega arith) (group_round-fields _)

  -- A group message with its trailer, the MAC and the signature, decodes to its fields, if the index
  -- has 32 bits and the length of the ciphertext 64.
  pub decode_group_message-encode :
      (trailer : Bytes) (mac_length signature_length : ℕ)
      → length trailer ≡ mac_length + signature_length
      → decode_group_message
          ((encode_group_message version message_index ciphertext).0 ++ trailer)
          mac_length
          signature_length
        ≡ some (record {
          version = version;
          message_index = message_index;
          has_message_index = true;
          ciphertext = some ciphertext;
        })
  unfolding decode_group_message
  decode_group_message-encode trailer mac_length signature_length h =
      let body = (encode_group_message version message_index ciphertext).0 in
      let l = length-append body trailer in
      let e : length (body ++ trailer) - (mac_length + signature_length) ≡ length body =
        omega (arith, l) in
      rw
        (
          le→ltb_false (length (body ++ trailer)) (mac_length + signature_length)
              (omega (arith, l)),
          e,
          take-append body trailer,
        )
        decode-body

  -- The announced length counts the trailer; what is written is the rest. The index has 32 bits and
  -- the length of the ciphertext 64.
  pub length-encode_group_message :
      (mac_length signature_length : ℕ)
      → length (encode_group_message version message_index ciphertext).0
          + (mac_length + signature_length)
        ≡ encode_group_message_length message_index (length ciphertext) mac_length signature_length
  unfolding encode_group_message_length varstring_length
  length-encode_group_message mac_length signature_length = omega (
    arith,
    ap length encode-fields,
    length-append (uint32_field 0x08 message_index) (bytes_field 0x12 ciphertext ++ []),
    length-append (bytes_field 0x12 ciphertext) [],
    length-append (encoding (length ciphertext)) ciphertext,
    varint_length_bytes-encoding (length ciphertext) text_fits,
    varint_length_uint32-encoding message_index index_fits,
  )

  -- A group message around bytes is made of bytes.
  pub encode_group_message-bytes :
      IsByte version
      → All IsByte ciphertext
      → All IsByte (encode_group_message version message_index ciphertext).0
  encode_group_message-bytes hv ht =
      let index = encoding-bytes message_index (omega arith) in
      let text =
        All-append IsByte (encoding (length ciphertext)) ciphertext
          (encoding-bytes (length ciphertext) text_fits) ht in
      rw encode-fields (
        hv,
        (
          omega arith,
          All-append IsByte (encoding message_index) _ index
              (omega arith, All-append IsByte _ [] text tt),
        ),
      )
