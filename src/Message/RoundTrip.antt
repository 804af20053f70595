-- ===== src/Message/RoundTrip.antt =====
-- A normal message: what is written, how long it is, and that it is read back.
use libce.Base.{
  ℕ, zero, suc, ◌-◌, ◌<◌, ◌^◌, ◌≡◌, refl, ap, ◌∙◌, true, Option, some, [], ◌∷◌, ◌++◌, append-nil,
  append_assoc, arith, ◌==◌, if◌then◌else◌, ne→==_false, le→ltb_false,
}
use libce.Base.Lists.{length, length-append, take-append}
use libce.Base.Bytes.{Bytes}
use libce.Varint.{varstring_length}
use libce.Varint.RoundTrip.{encoding, varint_length_bytes-encoding, varint_length_uint32-encoding}
use libce.Fields.{skip_unknown}
use libce.Fields.RoundTrip.{
  bytes_field, uint32_field, encode_bytes-field, encode_uint32-field, decode_bytes-field,
  decode_uint32-field,
}
use libce.Message.{
  decode_fields, MessageReader, encode_message_length, encode_message, message_round, empty_reader,
  decode_message_body, decode_message,
}

-- The rest of the loop, after a round over `n` bytes.
after_round : {R : Type 0} → (Bytes → R → Bytes × R) → ℕ → ℕ → Bytes × R → Option R
after_round round fuel n (pos, r) =
    decode_fields round fuel (if length pos == n then skip_unknown pos else pos) r

decode_fields-after :
    {R : Type 0} (round : Bytes → R → Bytes × R) (fuel b : ℕ) (bs : Bytes) (r : R)
    → decode_fields round (suc fuel) (b ∷ bs) r
      ≡ after_round round fuel (suc (length bs)) (round (b ∷ bs) r)
unfolding decode_fields after_round
decode_fields-after round fuel b bs r = refl

decode_fields-end :
    {R : Type 0} (round : Bytes → R → Bytes × R) (fuel : ℕ) (r : R)
    → decode_fields round fuel [] r ≡ some r
unfolding decode_fields
decode_fields-end round zero r = refl
decode_fields-end round (suc fuel) r = refl

-- A round that reads up to the end is the last one.
pub decode_fields-once :
    {R : Type 0} (round : Bytes → R → Bytes × R) (fuel b : ℕ) (bs : Bytes) (r r' : R)
    → length bs < fuel
    → round (b ∷ bs) r ≡ ([], r')
    → decode_fields round fuel (b ∷ bs) r ≡ some r'
decode_fields-once round zero b bs r r' h e = absurd (omega arith)
decode_fields-once round (suc fuel) b bs r r' h e =
    decode_fields-after round fuel b bs r
    ∙ ap (after_round round fuel (suc (length bs))) e
    ∙ unfold after_round in
      rw (ne→==_false 0 (suc (length bs)) (omega arith)) (decode_fields-end round fuel r')

-- The fields behind the version byte.
abbrev message_fields : ℕ → Bytes → Bytes → Bytes
message_fields counter ratchet_key ciphertext =
    bytes_field 0x0a ratchet_key
    ++ (uint32_field 0x10 counter ++ (bytes_field 0x22 ciphertext ++ []))

encode_message-fields :
    (version counter : ℕ) (ratchet_key ciphertext : Bytes)
    → counter < 2 ^ 32
    → length ratchet_key < 2 ^ 64
    → length ciphertext < 2 ^ 64
    → (encode_message version counter ratchet_key ciphertext).0
      ≡ version ∷ message_fields counter ratchet_key ciphertext
unfolding encode_message
encode_message-fields version counter ratchet_key ciphertext hc hk ht =
    rw (encode_bytes-field (version ∷ []) 0x0a ratchet_key hk) (
      rw (encode_uint32-field (version ∷ bytes_field 0x0a ratchet_key) 0x10 counter hc) (
        rw
          (encode_bytes-field
            ((version ∷ bytes_field 0x0a ratchet_key) ++ uint32_field 0x10 counter) 0x22 ciphertext
            ht)
          (simp (append_assoc, append-nil))))

message_round-fields :
    (counter : ℕ) (ratchet_key ciphertext : Bytes) (r : MessageReader)
    → counter < 2 ^ 32
    → length ratchet_key < 2 ^ 64
    → length ciphertext < 2 ^ 64
    → message_round (message_fields counter ratchet_key ciphertext) r ≡ (
      [],
      record r {
        has_counter = true;
        counter = counter;
        ratchet_key = some ratchet_key;
        ciphertext = some ciphertext;
      },
    )
unfolding message_round
message_round-fields counter ratchet_key ciphertext r hc hk ht =
    rw
      (
        decode_bytes-field 0x0a ratchet_key
            (uint32_field 0x10 counter ++ (bytes_field 0x22 ciphertext ++ [])) r.ratchet_key hk,
        decode_uint32-field 0x10 counter (bytes_field 0x22 ciphertext ++ [])
            (r.counter, r.has_counter) hc,
        decode_bytes-field 0x22 ciphertext [] r.ciphertext ht,
      )
      refl

-- The trailer is cut off before the fields are read.
decode_message-body :
    (body mac : Bytes)
    → decode_message (body ++ mac) (length mac)
      ≡ decode_message_body body (empty_reader (body ++ mac))
unfolding decode_message
decode_message-body body mac =
    let l = length-append body mac in
    let e : length (body ++ mac) - length mac ≡ length body = omega (arith, l) in
    rw
      (le→ltb_false (length (body ++ mac)) (length mac) (omega (arith, l)), e, take-append body mac)

-- A message with its MAC behind it decodes to the fields it was written from, if the counter has 32
-- bits and the lengths 64.
pub decode_message-encode_message :
    (version counter : ℕ) (ratchet_key ciphertext mac : Bytes)
    → counter < 2 ^ 32
    → length ratchet_key < 2 ^ 64
    → length ciphertext < 2 ^ 64
    → decode_message ((encode_message version counter ratchet_key ciphertext).0 ++ mac) (length mac)
      ≡ some (record {
        version = version;
        has_counter = true;
        counter = counter;
        input = (encode_message version counter ratchet_key ciphertext).0 ++ mac;
        ratchet_key = some ratchet_key;
        ciphertext = some ciphertext;
      })
decode_message-encode_message version counter ratchet_key ciphertext mac hc hk ht =
    let fields = encode_message-fields version counter ratchet_key ciphertext hc hk ht in
    let body = (encode_message version counter ratchet_key ciphertext).0 in
    decode_message-body body mac
    ∙ ap (λ (b : Bytes). decode_message_body b (empty_reader (body ++ mac))) fields
    ∙ unfold decode_message_body in
      decode_fields-once message_round _ 0x0a _ _ _ (omega arith)
        (message_round-fields counter ratchet_key ciphertext _ hc hk ht)

-- The announced length is that of the message with its MAC, if the counter has 32 bits and the
-- lengths 64.
pub length-encode_message :
    (version counter : ℕ) (ratchet_key ciphertext mac : Bytes)
    → counter < 2 ^ 32
    → length ratchet_key < 2 ^ 64
    → length ciphertext < 2 ^ 64
    → length ((encode_message version counter ratchet_key ciphertext).0 ++ mac)
      ≡ encode_message_length counter (length ratchet_key) (length ciphertext) (length mac)
unfolding encode_message_length varstring_length
length-encode_message version counter ratchet_key ciphertext mac hc hk ht = omega (
  arith,
  length-append (encode_message version counter ratchet_key ciphertext).0 mac,
  ap length (encode_message-fields version counter ratchet_key ciphertext hc hk ht),
  length-append (bytes_field 0x0a ratchet_key)
      (uint32_field 0x10 counter ++ (bytes_field 0x22 ciphertext ++ [])),
  length-append (uint32_field 0x10 counter) (bytes_field 0x22 ciphertext ++ []),
  length-append (bytes_field 0x22 ciphertext) [],
  length-append (encoding (length ratchet_key)) ratchet_key,
  length-append (encoding (length ciphertext)) ciphertext,
  varint_length_bytes-encoding (length ratchet_key) hk,
  varint_length_bytes-encoding (length ciphertext) ht,
  varint_length_uint32-encoding counter hc,
)
