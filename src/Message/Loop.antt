-- ===== src/Message/Loop.antt =====
-- The loop over the fields ends: no round moves back, and a round that does not move skips a field.
use libce.Base.{
  ℕ, zero, suc, ◌+◌, ◌≤◌, ◌≡◌, refl, some, [], ◌∷◌, arith, ◌==◌, if◌then◌else◌, Bool-cases, inl,
  inr, ltb,
}
use libce.Base.Lists.{length}
use libce.Base.Bytes.{Bytes}
use libce.Fields.{skip_unknown, decode_bytes, decode_uint32}
use libce.Fields.Progress.{decode_bytes-le, decode_uint32-le, skip_unknown-lt}
use libce.Message.{
  decode_fields, message_round, pre_key_round, group_round, MessageReader, PreKeyMessageReader,
  DecodeGroupMessageResults, ratchet_key_tag, counter_tag, ciphertext_tag, one_time_key_id_tag,
  base_key_tag, identity_key_tag, message_tag, group_message_index_tag, group_ciphertext_tag,
  decode_message_body, decode_message, decode_one_time_key_message, decode_group_message_body,
  decode_group_message, empty_reader, empty_results,
}

module _ {R : Type 0} (round : Bytes → R → Bytes × R)
    (onward : (pos : Bytes) (r : R) → length (round pos r).0 ≤ length pos) where
  next_position :
      (b : ℕ) (bs pos : Bytes)
      → length pos ≤ suc (length bs)
      → length (if length pos == length (b ∷ bs) then skip_unknown pos else pos) ≤ length bs
  next_position b bs [] h = ground arith
  next_position b bs (c ∷ cs) h = ground (arith, skip_unknown-lt c cs)

  -- With as much fuel as there are bytes the loop returns a reader.
  pub decode_fields_total :
      (fuel : ℕ) (pos : Bytes) (r : R)
      → length pos ≤ fuel
      → (r' : R) × (decode_fields round fuel pos r ≡ some r')
  unfolding decode_fields
  decode_fields_total fuel [] r h = (r, refl)
  decode_fields_total zero (b ∷ bs) r h = absurd (omega arith)
  decode_fields_total (suc fuel) (b ∷ bs) r h =
      let (pos, r') = round (b ∷ bs) r in
      decode_fields_total fuel (if length pos == length (b ∷ bs) then skip_unknown pos else pos) r'
        (omega (arith, next_position b bs pos (onward (b ∷ bs) r)))

pub message_round-le :
    (pos : Bytes) (r : MessageReader) → length (message_round pos r).0 ≤ length pos
unfolding message_round
message_round-le pos r =
    let pos1 = (decode_bytes ratchet_key_tag pos r.ratchet_key).0 in
    let pos2 = (decode_uint32 counter_tag pos1 (r.counter, r.has_counter)).0 in
    omega (
      arith,
      decode_bytes-le ratchet_key_tag pos r.ratchet_key,
      decode_uint32-le counter_tag pos1 (r.counter, r.has_counter),
      decode_bytes-le ciphertext_tag pos2 r.ciphertext,
    )

pub pre_key_round-le :
    (pos : Bytes) (r : PreKeyMessageReader) → length (pre_key_round pos r).0 ≤ length pos
unfolding pre_key_round
pre_key_round-le pos r =
    let pos1 = (decode_bytes one_time_key_id_tag pos r.one_time_key).0 in
    let pos2 = (decode_bytes base_key_tag pos1 r.base_key).0 in
    let pos3 = (decode_bytes identity_key_tag pos2 r.identity_key).0 in
    omega (
      arith,
      decode_bytes-le one_time_key_id_tag pos r.one_time_key,
      decode_bytes-le base_key_tag pos1 r.base_key,
      decode_bytes-le identity_key_tag pos2 r.identity_key,
      decode_bytes-le message_tag pos3 r.message,
    )

pub group_round-le :
    (pos : Bytes) (r : DecodeGroupMessageResults) → length (group_round pos r).0 ≤ length pos
unfolding group_round
group_round-le pos r =
    let pos1 =
      (decode_uint32 group_message_index_tag pos (r.message_index, r.has_message_index)).0 in
    omega (
      arith,
      decode_uint32-le group_message_index_tag pos (r.message_index, r.has_message_index),
      decode_bytes-le group_ciphertext_tag pos1 r.ciphertext,
    )

decode_message_body_total :
    (body : Bytes) (r : MessageReader)
    → (r' : MessageReader) × (decode_message_body body r ≡ some r')
unfolding decode_message_body
decode_message_body_total [] r = (r, refl)
decode_message_body_total (v ∷ pos) r =
    decode_fields_total message_round message_round-le (length pos) pos (record r { version = v })
      (omega arith)

-- Whatever the bytes and the length of the MAC, the message decoder ends with a reader.
pub decode_message_total :
    (input : Bytes) (mac_length : ℕ)
    → (r : MessageReader) × (decode_message input mac_length ≡ some r)
unfolding decode_message
decode_message_total input mac_length = elim (Bool-cases (ltb (length input) mac_length)) [
  | inl short ↦ rw short (empty_reader input, refl)
  | inr long ↦ rw long (decode_message_body_total _ (empty_reader input))
]

-- Whatever the bytes, the decoder of pre-key messages ends with a reader.
pub decode_one_time_key_message_total :
    (input : Bytes) → (r : PreKeyMessageReader) × (decode_one_time_key_message input ≡ some r)
unfolding decode_one_time_key_message
decode_one_time_key_message_total [] = (_, refl)
decode_one_time_key_message_total (v ∷ pos) =
    decode_fields_total pre_key_round pre_key_round-le (length pos) pos _ (omega arith)

decode_group_message_body_total :
    (body : Bytes) → (r : DecodeGroupMessageResults) × (decode_group_message_body body ≡ some r)
unfolding decode_group_message_body
decode_group_message_body_total [] = (empty_results, refl)
decode_group_message_body_total (v ∷ pos) =
    decode_fields_total group_round group_round-le (length pos) pos _ (omega arith)

-- Whatever the bytes and the lengths of the trailer, the decoder of group messages ends with results.
pub decode_group_message_total :
    (input : Bytes) (mac_length signature_length : ℕ)
    → (r : DecodeGroupMessageResults) × (decode_group_message input mac_length signature_length
        ≡ some r)
unfolding decode_group_message
decode_group_message_total input mac_length signature_length =
    elim (Bool-cases (ltb (length input) (mac_length + signature_length))) [
      | inl short ↦ rw short (empty_results, refl)
      | inr long ↦ rw long (decode_group_message_body_total _)
    ]
