-- ===== src/PickleEncoding/RoundTrip.antt =====
-- A pickle that was sealed is opened with the same key.
use libce.Base.{
  ℕ, ◌+◌, ◌-◌, ◌%◌, ◌^◌, ◌<◌, ◌≤◌, ◌≡◌, refl, ap, ◌∙◌, sym, Option, some, [], ◌++◌, arith,
}
use libce.Base.Lists.{
  length, take, drop, All, All-append, length-append, length-take, length-drop, take-append,
  take-append-drop, drop_front,
}
use libce.Base.Bytes.{Bytes, IsByte}
use libce.OlmList.Insert.{take-take}
use libce.Error.{OlmErrorCode}
use libce.Base64.{encode_base64, encode_base64_length}
use libce.Base64.RoundTrip.{
  decode_base64-encode_base64, length-encode_base64, encode_base64_length-ceiling,
}
use libce.Crypto.{Primitives, aes_encrypt_cbc_length}
use libce.Crypto.Aes.{IsCbc, aes_encrypt_cbc_length_bounds}
use libce.Crypto.Outputs.{IsHmac, AreBytes}
use libce.Cipher.{aes_sha_256_cipher, write_at}
use libce.Cipher.RoundTrip.{
  mac_of, sealed, length-mac_of, length-sealed, mac_of-bytes, sealed-bytes, encrypt-seals,
  decrypt-opens,
}
use libce.Ratchet.Encrypt.{output_after}
use libce.PickleEncoding.{
  pickle_kdf_info, pickle_cipher, enc_length, enc_output_length, enc_output_pos, enc_output,
  enc_pickle, enc_decrypt, enc_opened, enc_decoded, enc_input,
}

-- A raw pickle of up to 2^32 bytes has a sealed length that a `size_t` holds.
pub enc_length-fits : (p : Primitives) (n : ℕ) → n < 2 ^ 32 → enc_length p n < 2 ^ 64
unfolding enc_length pickle_cipher aes_sha_256_cipher
enc_length-fits p n h = omega (arith, aes_encrypt_cbc_length_bounds n)

module _ (p : Primitives) (cbc : IsCbc p) (hmac : IsHmac p) (outputs : AreBytes p) where
  -- The sealed bytes of a raw pickle.
  envelope : Bytes → Bytes → Bytes
  envelope key raw =
      sealed p cbc hmac pickle_kdf_info key raw
      ++ mac_of p cbc hmac pickle_kdf_info key (sealed p cbc hmac pickle_kdf_info key raw)

  enc_length-sum : (n : ℕ) → enc_length p n ≡ aes_encrypt_cbc_length n + 8
  unfolding enc_length pickle_cipher aes_sha_256_cipher
  enc_length-sum n = refl

  length-envelope : (key raw : Bytes) → length (envelope key raw) ≡ enc_length p (length raw)
  unfolding envelope
  length-envelope key raw =
      let ciphertext = sealed p cbc hmac pickle_kdf_info key raw in
      omega (
        arith,
        length-append ciphertext (mac_of p cbc hmac pickle_kdf_info key ciphertext),
        length-sealed p cbc hmac pickle_kdf_info key raw,
        length-mac_of p cbc hmac pickle_kdf_info key ciphertext,
        enc_length-sum (length raw),
      )

  envelope-bytes : (key raw : Bytes) → All IsByte raw → All IsByte (envelope key raw)
  unfolding envelope
  envelope-bytes key raw h =
      All-append IsByte _ _ (sealed-bytes p cbc hmac pickle_kdf_info outputs key raw h)
        (mac_of-bytes p cbc hmac pickle_kdf_info outputs key _)

  -- The cipher fills a buffer of the right length.
  encrypt-envelope :
      (key raw buffer : Bytes)
      → length buffer ≡ enc_length p (length raw)
      → (pickle_cipher p).encrypt key raw (aes_encrypt_cbc_length (length raw)) buffer 0
        ≡ some (envelope key raw)
  unfolding pickle_cipher aes_sha_256_cipher envelope
  encrypt-envelope key raw buffer h =
      let size = aes_encrypt_cbc_length (length raw) in
      let sum = enc_length-sum (length raw) in
      let region : length (take size buffer) ≡ size = omega (arith, length-take size buffer) in
      let tail : length (drop size buffer) ≡ 8 = omega (arith, length-drop size buffer) in
      ap (λ (b : Bytes). (pickle_cipher p).encrypt key raw size b 0)
        (sym (take-append-drop size buffer))
      ∙ ap (λ n. (pickle_cipher p).encrypt key raw n (take size buffer ++ drop size buffer) 0)
          (sym region)
      ∙ encrypt-seals p cbc hmac pickle_kdf_info key raw [] (take size buffer) (drop size buffer)
          region tail

  -- A pickle of `raw` is written behind `at` bytes and read from there.
  drop-write_at :
      (output raw : Bytes) (at : ℕ)
      → at ≤ length output
      → drop at (write_at output at raw) ≡ raw ++ drop (length raw) (drop at output)
  unfolding write_at
  drop-write_at output raw at h =
      drop_front (take at output) (raw ++ drop (length raw) (drop at output)) at
        (omega (arith, length-take at output))

  take-take_front :
      (raw rest : Bytes) (n : ℕ) → length raw ≤ n → take (length raw) (take n (raw ++ rest)) ≡ raw
  take-take_front raw rest n h = take-take (length raw) n (raw ++ rest) h ∙ take-append raw rest

  enc_pickle-envelope :
      (key output raw : Bytes)
      → enc_output_length p (length raw) ≤ length output
      → enc_pickle p key output raw ≡ encode_base64 (envelope key raw)
  unfolding enc_pickle enc_output enc_output_pos enc_output_length enc_length pickle_cipher
      aes_sha_256_cipher
  enc_pickle-envelope key output raw room =
      let size = enc_length p (length raw) in
      let sum = enc_length-sum (length raw) in
      let at = encode_base64_length size - size in
      let rest = drop (length raw) (drop at output) in
      let buffer = take size (raw ++ rest) in
      let grows = aes_encrypt_cbc_length_bounds (length raw) in
      let wide = encode_base64_length-ceiling size in
      let sized : length buffer ≡ size = omega (
        arith,
        length-take size (raw ++ rest),
        length-append raw rest,
        length-drop (length raw) (drop at output),
        length-drop at output,
      ) in
      rw (drop-write_at output raw at (omega arith), take-take_front raw rest size (omega arith))
        (ap (λ (r : Option Bytes). encode_base64 (output_after buffer r))
            (encrypt-envelope key raw buffer sized)
          ∙ unfold output_after in refl)

  enc_decrypt-envelope :
      (key raw : Bytes)
      → enc_length p (length raw) < 2 ^ 64
      → enc_decrypt p key (length (envelope key raw)) (envelope key raw) ≡ some raw
  unfolding enc_decrypt pickle_cipher aes_sha_256_cipher envelope
  enc_decrypt-envelope key raw fits =
      let ciphertext = sealed p cbc hmac pickle_kdf_info key raw in
      let mac = mac_of p cbc hmac pickle_kdf_info key ciphertext in
      let n = length-sealed p cbc hmac pickle_kdf_info key raw in
      let sum = enc_length-sum (length raw) in
      let e : (length (ciphertext ++ mac) + 2 ^ 64 - 8) % 2 ^ 64 ≡ length ciphertext =
        omega (arith, length-envelope key raw) in
      rw (e, take-append ciphertext mac)
        (decrypt-opens p cbc hmac pickle_kdf_info key raw [] (length ciphertext) (omega arith))

  -- Over a CBC that is undone on whole blocks, an HMAC of 32 bytes and outputs that are bytes: a raw
  -- pickle of bytes that is sealed into an output of the announced length is read back with the same
  -- key, and no error is set. What is written has the announced length, which a `size_t` holds.
  pub enc_input-enc_pickle :
      (key output raw : Bytes) (last_error : OlmErrorCode)
      → All IsByte raw
      → enc_output_length p (length raw) ≤ length output
      → enc_length p (length raw) < 2 ^ 64
      → (enc_input p key (enc_pickle p key output raw) last_error ≡ (some raw, last_error))
        × (length (enc_pickle p key output raw) ≡ enc_output_length p (length raw))
  unfolding enc_input enc_decoded enc_opened enc_output_length
  enc_input-enc_pickle key output raw last_error h room fits =
      let written = enc_pickle-envelope key output raw (unfold enc_output_length in room) in
      (
        rw
            (
              written,
              decode_base64-encode_base64 (envelope key raw) (envelope-bytes key raw h),
              enc_decrypt-envelope key raw fits,
            )
            refl,
        rw (written, length-encode_base64 (envelope key raw), length-envelope key raw) refl,
      )
