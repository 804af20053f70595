-- ===== src/GroupSession/Sharing.antt =====
-- A session key is loaded as it was written.
use libce.Base.{
  ℕ, ◌≤◌, ◌≡◌, refl, ap, ◌∙◌, sym, append-nil, Bool, true, false, some, [], ◌∷◌, ◌++◌, append_assoc,
  arith, le→ltb_false,
}
use libce.Base.Lists.{length, All, All-append, length-append, take_front, drop_front, take_all}
use libce.Base.Bytes.{Bytes, IsByte}
use libce.Base64.{encode_base64, encode_base64_length}
use libce.Base64.RoundTrip.{decode_base64-encode_base64}
use libce.Crypto.{Primitives, ed25519_sign, ed25519_verify}
use libce.Crypto.Signing.{
  IsEd25519, IsPair, ed25519_verify-ed25519_sign, length-ed25519_sign, ed25519_sign-bytes,
}
use libce.Megolm.{Megolm, get_data, megolm_init}
use libce.Megolm.Pickled.{IsMegolm, split_parts-get_data, length-get_data}
use libce.GroupSession.{write_counter}
use libce.GroupSession.Counter.{
  write_counter-bytes, length-write_counter, read_counter-write_counter,
}
use libce.GroupSession.Outbound.{OutboundGroupSession, session_key_body, outbound_group_session_key}
use libce.GroupSession.Inbound.{
  InboundGroupSession, load_session_keys, init_group_session_keys, load_decoded_key,
  init_inbound_group_session, import_inbound_group_session,
}

-- A ratchet of bytes, and a public key of 32 bytes.
pub record IsShareable (m : Megolm) (public_key : Bytes) : Type 0 where
  pub is_megolm : IsMegolm m
  pub ratchet_bytes : All IsByte (get_data m)
  pub key_sized : length public_key ≡ 32
  pub key_bytes : All IsByte public_key

module _ (p : Primitives) (m : Megolm) (public_key : Bytes) (fit : IsShareable m public_key) where
  -- The raw key without a signature.
  abbrev body : ℕ → Bytes
  body version = version ∷ (write_counter 4 m.counter ++ (get_data m ++ public_key))

  length-body : (version : ℕ) → length (body version) ≡ 165
  length-body version = omega (
    arith,
    length-append (write_counter 4 m.counter) (get_data m ++ public_key),
    length-append (get_data m) public_key,
    length-write_counter m.counter,
    length-get_data m fit.is_megolm,
    fit.key_sized,
  )

  body-bytes : (version : ℕ) → IsByte version → All IsByte (body version)
  body-bytes version h = (
    h,
    All-append IsByte (write_counter 4 m.counter) _
        (write_counter-bytes m.counter fit.is_megolm.counter_fits)
        (All-append IsByte (get_data m) public_key fit.ratchet_bytes fit.key_bytes),
  )

  load-body :
      (session : InboundGroupSession) (version : ℕ) (rest : Bytes)
      → load_session_keys p session (body version ++ rest) ≡ record session {
        initial_ratchet = m;
        latest_ratchet = m;
        signing_key = record { public_key = public_key };
      }
  unfolding load_session_keys megolm_init
  load-body session version rest =
      let counter = write_counter 4 m.counter in
      let key = public_key ++ rest in
      rw
        (
          append_assoc counter (get_data m ++ public_key) rest,
          append_assoc (get_data m) public_key rest,
          read_counter-write_counter m.counter (get_data m ++ key) fit.is_megolm.counter_fits,
          drop_front counter (get_data m ++ key) 4 (length-write_counter m.counter),
          split_parts-get_data m key fit.is_megolm,
          drop_front (get_data m) key 128 (length-get_data m fit.is_megolm),
          take_front public_key rest 32 fit.key_sized,
        )
        refl

  -- What a session is after it has been given this ratchet and this key.
  abbrev given : InboundGroupSession → Bool → InboundGroupSession
  given session verified = record {
    initial_ratchet = m;
    latest_ratchet = m;
    signing_key = record { public_key = public_key };
    signing_key_verified = verified;
    last_error = session.last_error;
  }

  init-exported :
      (session : InboundGroupSession)
      → init_group_session_keys p session (body 1) true
        ≡ (some 0, given session session.signing_key_verified)
  unfolding init_group_session_keys
  init-exported session =
      rw (ap (load_session_keys p session) (sym (append-nil (body 1))) ∙ load-body session 1 [])
        refl

  init-signed :
      (session : InboundGroupSession) (signature : Bytes)
      → length signature ≡ 64
      → ed25519_verify p (record { public_key = public_key }) (body 2) signature ≡ true
      → init_group_session_keys p session (body 2 ++ signature) false ≡ (some 0, given session true)
  unfolding init_group_session_keys
  init-signed session signature hs accepted =
      rw
        (
          load-body session 2 signature,
          take_front (body 2) signature 165 (length-body 2),
          drop_front (body 2) signature 165 (length-body 2),
          take_all signature 64 hs,
          accepted,
        )
        refl

  -- Importing what was exported.
  pub import-exported :
      (session : InboundGroupSession)
      → import_inbound_group_session p session (encode_base64 (body 1))
        ≡ (some 0, given session session.signing_key_verified)
  unfolding import_inbound_group_session load_decoded_key
  import-exported session =
      rw (decode_base64-encode_base64 (body 1) (body-bytes 1 (omega arith)), length-body 1)
        (init-exported session)

-- Over the equation of Ed25519: the session key of an outbound session, of a ratchet of bytes and a
-- matching key pair, initialises any inbound session with that ratchet and that public key, and the
-- session counts as verified.
pub init_inbound-session_key :
    (p : Primitives) (ed25519 : IsEd25519 p) (out : OutboundGroupSession)
    (session : InboundGroupSession) (key_length : ℕ)
    → IsShareable out.ratchet out.signing_key.public_key
    → IsPair p out.signing_key
    → 306 ≤ key_length
    → (key : Bytes) × (outbound_group_session_key p out key_length ≡ (some key, out))
      × (init_inbound_group_session p session key ≡ (
        some 0,
        record {
          initial_ratchet = out.ratchet;
          latest_ratchet = out.ratchet;
          signing_key = record { public_key = out.signing_key.public_key };
          signing_key_verified = true;
          last_error = session.last_error;
        },
      ))
unfolding outbound_group_session_key session_key_body init_inbound_group_session load_decoded_key
    encode_base64_length
init_inbound-session_key p ed25519 out session key_length fit pair room =
    let m = out.ratchet in
    let public = out.signing_key.public_key in
    let raw = body p m public fit 2 in
    let signature = ed25519_sign p out.signing_key raw in
    let n = length-ed25519_sign p ed25519 out.signing_key raw in
    let bytes =
      All-append IsByte raw signature (body-bytes p m public fit 2 (omega arith))
        (ed25519_sign-bytes p ed25519 out.signing_key raw) in
    let sized : length (raw ++ signature) ≡ 229 =
      omega (arith, length-append raw signature, length-body p m public fit 2) in
    (
      encode_base64 (raw ++ signature),
      rw (le→ltb_false key_length 306 room, take_all public 32 fit.key_sized) refl,
      rw (decode_base64-encode_base64 (raw ++ signature) bytes, sized)
          (init-signed p m public fit session signature n
            (ed25519_verify-ed25519_sign p ed25519 out.signing_key raw pair)),
    )
