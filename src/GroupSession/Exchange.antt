-- ===== src/GroupSession/Exchange.antt =====
-- A message of an outbound session is decrypted by the inbound sessions that know the ratchet.
use libce.Base.{
  ℕ, ◌+◌, ◌-◌, ◌%◌, ◌<◌, ◌≤◌, ◌^◌, ◌≡◌, refl, ap, ◌∙◌, sym, true, Option, some, ◌++◌, append_assoc,
  arith, le→ltb_false,
}
use libce.Base.Iterate.{iterate}
use libce.Base.Lists.{
  length, take, drop, All, All-append, length-append, length-take, length-drop, take-append,
  drop-append, take_all,
}
use libce.Base.Bytes.{Bytes, IsByte}
use libce.Base64.{encode_base64, encode_base64_length}
use libce.Base64.RoundTrip.{decode_base64-encode_base64, encode_base64_length-ceiling}
use libce.Varint.{varstring_length}
use libce.Crypto.{Primitives, aes_encrypt_cbc_length, ed25519_sign, ed25519_verify}
use libce.Crypto.Aes.{IsCbc}
use libce.Crypto.Outputs.{IsHmac, AreBytes}
use libce.Crypto.Signing.{
  IsEd25519, IsPair, ed25519_verify-ed25519_sign, length-ed25519_sign, ed25519_sign-bytes,
}
use libce.Cipher.{aes_sha_256_cipher}
use libce.Cipher.RoundTrip.{
  sealed, length-mac_of, length-sealed, mac_of-bytes, sealed-bytes, decrypt-opens,
}
use libce.Message.{encode_group_message_length}
use libce.Message.Group.{decode_group_message-encode, encode_group_message-bytes}
use libce.Megolm.{Megolm, get_data, megolm_advance}
use libce.GroupSession.{megolm_kdf_info, megolm_cipher}
use libce.GroupSession.Outbound.{
  OutboundGroupSession, raw_message_length, group_encrypt_message_length, sign_message, encrypt_raw,
  encode_message_base64, group_encrypt,
}
use libce.GroupSession.Inbound.{
  InboundGroupSession, get_megolm, decrypted, decrypt_with_megolm, decrypt_verified,
  decrypt_results, group_decrypt_decoded, group_decrypt,
}
use libce.GroupSession.Known.{Knows, counter-iterate, get_megolm-known}
use libce.GroupSession.Sealing.{
  group_header, encode_group_message-header, group_ciphertext, group_body, group_mac,
  length-group_ciphertext, cipher-written,
}

module _ (p : Primitives) (cbc : IsCbc p) (hmac : IsHmac p) where
  module _ (out : OutboundGroupSession) (plaintext : Bytes)
      (fits : aes_encrypt_cbc_length (length plaintext) < 2 ^ 64) where
    abbrev key : Bytes
    key = get_data out.ratchet

    abbrev index : ℕ
    index = out.ratchet.counter

    -- The message before it is signed.
    abbrev signed_part : Bytes
    signed_part =
        group_body p cbc hmac index key plaintext ++ group_mac p cbc hmac index key plaintext

    abbrev raw_message : Bytes
    raw_message = signed_part ++ ed25519_sign p out.signing_key signed_part

    abbrev advanced : OutboundGroupSession
    advanced = record out { ratchet = megolm_advance p out.ratchet }

    encrypt_raw-message :
        (buffer : Bytes)
        → length buffer ≡ raw_message_length p out (length plaintext)
        → encrypt_raw p out plaintext buffer ≡ (some raw_message, advanced)
    unfolding encrypt_raw raw_message_length megolm_cipher aes_sha_256_cipher
        encode_group_message_length varstring_length
    encrypt_raw-message buffer h =
        let size = aes_encrypt_cbc_length (length plaintext) in
        let start = raw_message_length p out (length plaintext) - 72 - size in
        let region = take size (drop start buffer) in
        let tail = take 8 (drop (start + size) buffer) in
        let hr : length region ≡ size =
          omega (arith, length-take size (drop start buffer), length-drop start buffer) in
        let ht : length tail ≡ 8 =
          omega (
            arith,
            length-take 8 (drop (start + size) buffer),
            length-drop (start + size) buffer,
          ) in
        ap (sign_message p out) (cipher-written p cbc hmac index key plaintext region tail hr ht)
        ∙ unfold sign_message in refl

    pub group_encrypt-message :
        (output : Bytes)
        → group_encrypt_message_length p out (length plaintext) ≤ length output
        → group_encrypt p out plaintext output ≡ (some (encode_base64 raw_message), advanced)
    unfolding group_encrypt group_encrypt_message_length
    group_encrypt-message output room =
        let size = raw_message_length p out (length plaintext) in
        let wide = encode_base64_length-ceiling size in
        let rest = drop (encode_base64_length size - size) output in
        let sized : length (take size rest) ≡ size =
          omega
            (arith, length-take size rest, length-drop (encode_base64_length size - size) output) in
        rw
          (
            le→ltb_false (length output) (encode_base64_length size) room,
            encrypt_raw-message (take size rest) sized,
          )
          (unfold encode_message_base64 in refl)

    -- The session that decrypts with a ratchet it has.
    decrypt_with_megolm-opens :
        (max_length : ℕ) (m : Megolm) (found : Option Megolm × InboundGroupSession)
        → aes_encrypt_cbc_length (length plaintext) ≤ max_length
        → found.0 ≡ some m
        → get_data m ≡ key
        → decrypt_with_megolm p signed_part
            (group_ciphertext p cbc hmac key plaintext)
            max_length
            found
          ≡ (some plaintext, record found.1 { signing_key_verified = true })
    unfolding decrypt_with_megolm decrypted megolm_cipher aes_sha_256_cipher group_body group_mac
        group_ciphertext
    decrypt_with_megolm-opens max_length m (o, s) room h same =
        let text = sealed p cbc hmac megolm_kdf_info key plaintext in
        let head = encode_group_message-header index text in
        let n = length-sealed p cbc hmac megolm_kdf_info key plaintext in
        let before = group_header index (length text) in
        rw
          (
            h,
            same,
            head.0,
            append_assoc before text,
            decrypt-opens p cbc hmac megolm_kdf_info key plaintext before max_length (omega arith),
          )
          refl

    module _ (outputs : AreBytes p) (ed25519 : IsEd25519 p) (pair : IsPair p out.signing_key)
        (index_fits : index < 2 ^ 32) (plain : All IsByte plaintext) where
      raw_message-bytes : All IsByte raw_message
      unfolding group_body group_mac group_ciphertext
      raw_message-bytes =
          All-append IsByte signed_part _
            (All-append IsByte (group_body p cbc hmac index key plaintext) _
              (encode_group_message-bytes 3 index (group_ciphertext p cbc hmac key plaintext)
                index_fits (rw (length-group_ciphertext p cbc hmac key plaintext) fits)
                (omega arith) (sealed-bytes p cbc hmac megolm_kdf_info outputs key plaintext plain))
              (mac_of-bytes p cbc hmac megolm_kdf_info outputs key
                (group_body p cbc hmac index key plaintext)))
            (ed25519_sign-bytes p ed25519 out.signing_key signed_part)

      -- The message as it is decoded and checked, before a ratchet is looked for.
      pub group_decrypt-message :
          (session : InboundGroupSession) (max_length : ℕ)
          → session.signing_key.public_key ≡ out.signing_key.public_key
          → aes_encrypt_cbc_length (length plaintext) ≤ max_length
          → group_decrypt p session (encode_base64 raw_message) max_length ≡ (
            (decrypt_with_megolm p signed_part
                (group_ciphertext p cbc hmac key plaintext)
                max_length
                (get_megolm p session index)).0,
            some index,
            (decrypt_with_megolm p signed_part
                (group_ciphertext p cbc hmac key plaintext)
                max_length
                (get_megolm p session index)).1,
          )
      unfolding group_decrypt group_decrypt_decoded decrypt_results decrypt_verified group_body
          megolm_cipher aes_sha_256_cipher
      group_decrypt-message session max_length same room =
          let text = group_ciphertext p cbc hmac key plaintext in
          let body = group_body p cbc hmac index key plaintext in
          let mac = group_mac p cbc hmac index key plaintext in
          let signature = ed25519_sign p out.signing_key signed_part in
          let n = length-ed25519_sign p ed25519 out.signing_key signed_part in
          let sized : length text ≡ aes_encrypt_cbc_length (length plaintext) =
            length-group_ciphertext p cbc hmac key plaintext in
          let mac_sized : length mac ≡ 8 =
            unfold group_mac in length-mac_of p cbc hmac megolm_kdf_info key body in
          let decodes =
            decode_group_message-encode 3 index text index_fits (omega arith) (mac ++ signature) 8
              64 (omega (arith, length-append mac signature)) in
          let signed_length : length raw_message - 64 ≡ length signed_part =
            omega (arith, length-append signed_part signature) in
          let checks : ed25519_verify p session.signing_key signed_part signature ≡ true =
            ap (λ k. ed25519_verify p (record { public_key = k }) signed_part signature) same
            ∙ ed25519_verify-ed25519_sign p ed25519 out.signing_key signed_part pair in
          rw
            (
              decode_base64-encode_base64 raw_message raw_message-bytes,
              append_assoc body mac signature,
              decodes,
              ← append_assoc body mac signature,
              signed_length,
              take-append signed_part signature,
              drop-append signed_part signature,
              take_all signature 64 n,
              checks,
              le→ltb_false max_length (length text) (omega arith),
            )
            refl

      -- The whole exchange, for a session that knows the ratchet k steps back or ahead.
      exchange :
          (session : InboundGroupSession) (first : Megolm) (k n max_length : ℕ)
          → Knows p session first k
          → out.ratchet ≡ iterate n (megolm_advance p) first
          → k < 2 ^ 31
          → n < 2 ^ 31
          → session.signing_key.public_key ≡ out.signing_key.public_key
          → aes_encrypt_cbc_length (length plaintext) ≤ max_length
          → ((group_decrypt p session (encode_base64 raw_message) max_length).0 ≡ some plaintext)
            × ((group_decrypt p session (encode_base64 raw_message) max_length).1 ≡ some index)
            × ((k' : ℕ) × Knows p
                  (group_decrypt p session (encode_base64 raw_message) max_length).2
                  first
                  k'
                × (k ≤ k')
                × (k' < 2 ^ 31))
            × ((group_decrypt p session
                  (encode_base64 raw_message)
                  max_length).2.signing_key_verified
                ≡ true)
      exchange session first k n max_length knows at near_k near_n same room =
          let (k', found, after, later, near) =
            get_megolm-known p session first k n knows near_k near_n in
          let here : index ≡ (first.counter + n) % 2 ^ 32 =
            ap (λ (m : Megolm). m.counter) at ∙ counter-iterate p n first knows.counter_fits in
          let e = group_decrypt-message session max_length same room in
          let opened =
            decrypt_with_megolm-opens max_length (iterate n (megolm_advance p) first)
              (get_megolm p session index) room (rw here found) (ap get_data (sym at)) in
          rw (e, opened)
            (
              refl,
              refl,
              (
                k',
                rw here (record {
                  counter_fits = after.counter_fits;
                  first_known = after.first_known;
                  gone = after.gone;
                }),
                later,
                near,
              ),
              refl,
            )

-- The ratchet `first` is k steps behind the latest ratchet of the inbound session and n steps behind that
-- of the outbound one, and the keys match.
pub record InTouch (p : Primitives) (out : OutboundGroupSession) (session : InboundGroupSession)
    (first : Megolm) (k n : ℕ) : Type 0 where
  pub knows : Knows p session first k
  pub ahead : out.ratchet ≡ iterate n (megolm_advance p) first
  pub near_known : k < 2 ^ 31
  pub near_sent : n < 2 ^ 31
  pub same_key : session.signing_key.public_key ≡ out.signing_key.public_key
  pub pair : IsPair p out.signing_key

-- Over the equations of CBC and Ed25519, an HMAC of 32 bytes and outputs that are bytes: what an outbound
-- session encrypts n < 2^31 steps after a ratchet that an inbound session of the same signing key was
-- given is decrypted by that session, wherever its latest ratchet is less than 2^31 steps after that
-- ratchet, before or behind the message. The outbound session advances by a step; the inbound one gives
-- the index of the message, counts as verified, keeps the ratchet it was given and does not go back. The
-- plaintext is bytes, its ciphertext has a 64-bit length, and the buffers are large enough.
pub group_decrypt-group_encrypt :
    (p : Primitives) (cbc : IsCbc p) (hmac : IsHmac p) (outputs : AreBytes p)
    (ed25519 : IsEd25519 p) (out : OutboundGroupSession) (session : InboundGroupSession)
    (first : Megolm) (k n : ℕ) (plaintext output : Bytes) (max_length : ℕ)
    → InTouch p out session first k n
    → All IsByte plaintext
    → aes_encrypt_cbc_length (length plaintext) < 2 ^ 64
    → group_encrypt_message_length p out (length plaintext) ≤ length output
    → aes_encrypt_cbc_length (length plaintext) ≤ max_length
    → (message : Bytes) × (group_encrypt p out plaintext output
        ≡ (some message, record out { ratchet = megolm_advance p out.ratchet }))
      × ((group_decrypt p session message max_length).0 ≡ some plaintext)
      × ((group_decrypt p session message max_length).1 ≡ some out.ratchet.counter)
      × ((k' : ℕ) × Knows p (group_decrypt p session message max_length).2 first k'
          × (k ≤ k')
          × (k' < 2 ^ 31))
      × ((group_decrypt p session message max_length).2.signing_key_verified ≡ true)
group_decrypt-group_encrypt p cbc hmac outputs ed25519 out session first k n plaintext output
      max_length touch plain fits room enough =
    let here =
      ap (λ (m : Megolm). m.counter) touch.ahead
      ∙ counter-iterate p n first touch.knows.counter_fits in
    let message = raw_message p cbc hmac out plaintext fits in
    let (opened, index, after, verified) =
      exchange p cbc hmac out plaintext fits outputs ed25519 touch.pair (omega (arith, here)) plain
        session first k n max_length touch.knows touch.ahead touch.near_known touch.near_sent
        touch.same_key enough in
    (
      encode_base64 message,
      group_encrypt-message p cbc hmac out plaintext fits output room,
      opened,
      index,
      after,
      verified,
    )
