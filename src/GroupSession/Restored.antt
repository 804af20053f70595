-- ===== src/GroupSession/Restored.antt =====
-- A group session that is pickled is restored.
use libce.Base.{
  ◌≤◌, ◌≡◌, refl, ap, ◌∙◌, some, [], ◌++◌, inr, append_assoc, append-nil, arith, le→ltb_false,
}
use libce.Base.Lists.{length, All, All-append, length-append}
use libce.Base.Bytes.{Bytes, IsByte}
use libce.Error.{OlmErrorCode}
use libce.Pickle.{
  pickle_uint32, pickle_bool, pickle_ed25519_public_key_length, pickle_ed25519_public_key,
  pickle_ed25519_key_pair_length, pickle_ed25519_key_pair,
}
use libce.Pickle.RoundTrip.{uint32-IsCodec, bool-IsCodec}
use libce.Pickle.Written.{
  pickle_uint32-bytes, pickle_bool-bytes, pickle_ed25519_public_key-bytes,
  pickle_ed25519_key_pair-bytes,
}
use libce.Pickle.Keys.{
  IsEd25519PublicKey, IsEd25519KeyPair, IsEd25519PublicKey-IsCodec, IsEd25519KeyPair-IsCodec,
}
use libce.Crypto.{Primitives}
use libce.Crypto.Aes.{IsCbc}
use libce.Crypto.Outputs.{IsHmac, AreBytes}
use libce.Megolm.{get_data, megolm_pickle_length, megolm_pickle}
use libce.Megolm.Pickled.{IsMegolm, megolm-IsCodec, megolm_pickle-bytes}
use libce.PickleEncoding.{enc_output_length, enc_pickle}
use libce.PickleEncoding.RoundTrip.{enc_length-fits, enc_input-enc_pickle}
use libce.GroupSession.Outbound.{
  OutboundGroupSession, outbound_raw_pickle_length, outbound_raw_pickle, unpickle_outbound_fields,
  unpickle_outbound_version, unpickle_outbound_raw, pickle_outbound_group_session,
  unpickle_outbound_group_session,
}
use libce.GroupSession.Inbound.{InboundGroupSession}
use libce.GroupSession.Stored.{
  inbound_raw_pickle_length, inbound_raw_pickle, unpickle_inbound_end, unpickle_inbound_key,
  unpickle_inbound_latest, unpickle_inbound_initial, unpickle_inbound_version, unpickle_inbound_raw,
  pickle_inbound_group_session, unpickle_inbound_group_session,
}

-- The arrays of an inbound session have their sizes, and hold bytes.
pub record IsStorableInbound (session : InboundGroupSession) : Type 0 where
  pub initial : IsMegolm session.initial_ratchet
  pub latest : IsMegolm session.latest_ratchet
  pub key : IsEd25519PublicKey session.signing_key
  pub initial_bytes : All IsByte (get_data session.initial_ratchet)
  pub latest_bytes : All IsByte (get_data session.latest_ratchet)
  pub key_bytes : All IsByte session.signing_key.public_key

pub record IsStorableOutbound (session : OutboundGroupSession) : Type 0 where
  pub ratchet : IsMegolm session.ratchet
  pub key : IsEd25519KeyPair session.signing_key
  pub ratchet_bytes : All IsByte (get_data session.ratchet)
  pub public_bytes : All IsByte session.signing_key.public_key
  pub private_bytes : All IsByte session.signing_key.private_key

module _ (session : InboundGroupSession) (fit : IsStorableInbound session) where
  inbound-parts :
      inbound_raw_pickle session
      ≡ pickle_uint32 [] 2
        ++ (megolm_pickle [] session.initial_ratchet
            ++ (megolm_pickle [] session.latest_ratchet
                ++ (pickle_ed25519_public_key [] session.signing_key
                    ++ pickle_bool [] session.signing_key_verified)))
  unfolding inbound_raw_pickle
  inbound-parts =
      let at1 = pickle_uint32 [] 2 in
      let at2 = megolm_pickle at1 session.initial_ratchet in
      let at3 = megolm_pickle at2 session.latest_ratchet in
      let at4 = pickle_ed25519_public_key at3 session.signing_key in
      bool-IsCodec.appends at4 session.signing_key_verified
      ∙ rw
          (
            IsEd25519PublicKey-IsCodec.appends at3 session.signing_key,
            megolm-IsCodec.appends at2 session.latest_ratchet,
            megolm-IsCodec.appends at1 session.initial_ratchet,
          )
          (simp append_assoc)

  inbound_raw_pickle-bytes : All IsByte (inbound_raw_pickle session)
  inbound_raw_pickle-bytes = rw inbound-parts (
      All-append IsByte _ _ (pickle_uint32-bytes 2) (
        All-append IsByte _ _ (megolm_pickle-bytes session.initial_ratchet fit.initial_bytes) (
          All-append IsByte _ _ (megolm_pickle-bytes session.latest_ratchet fit.latest_bytes) (
            All-append IsByte _ _
              (pickle_ed25519_public_key-bytes session.signing_key fit.key_bytes)
              (pickle_bool-bytes session.signing_key_verified)))))

  length-inbound_raw_pickle :
      length (inbound_raw_pickle session) ≡ inbound_raw_pickle_length session
  unfolding inbound_raw_pickle_length
  length-inbound_raw_pickle =
      let flag = pickle_bool [] session.signing_key_verified in
      let key = pickle_ed25519_public_key [] session.signing_key in
      let latest = megolm_pickle [] session.latest_ratchet in
      let initial = megolm_pickle [] session.initial_ratchet in
      rw inbound-parts (
        omega (
          arith,
          length-append (pickle_uint32 [] 2) (initial ++ (latest ++ (key ++ flag))),
          length-append initial (latest ++ (key ++ flag)),
          length-append latest (key ++ flag),
          length-append key flag,
          uint32-IsCodec.measured 2 (omega arith),
          megolm-IsCodec.measured session.initial_ratchet fit.initial,
          megolm-IsCodec.measured session.latest_ratchet fit.latest,
          IsEd25519PublicKey-IsCodec.measured session.signing_key fit.key,
          bool-IsCodec.measured session.signing_key_verified tt,
        ))

  unpickle_inbound_raw-pickle :
      (other : InboundGroupSession) (error : OlmErrorCode)
      → unpickle_inbound_raw other (some (inbound_raw_pickle session), error)
        ≡ inr (record session { last_error = other.last_error })
  unfolding unpickle_inbound_raw unpickle_inbound_version unpickle_inbound_initial
      unpickle_inbound_latest unpickle_inbound_key unpickle_inbound_end
  unpickle_inbound_raw-pickle other error =
      let flag = pickle_bool [] session.signing_key_verified in
      rw
        (
          inbound-parts,
          uint32-IsCodec.restores 2 _ (omega arith),
          megolm-IsCodec.restores session.initial_ratchet _ fit.initial,
          megolm-IsCodec.restores session.latest_ratchet _ fit.latest,
          IsEd25519PublicKey-IsCodec.restores session.signing_key flag fit.key,
          ← append-nil flag,
          bool-IsCodec.restores session.signing_key_verified [] tt,
        )
        refl

module _ (session : OutboundGroupSession) (fit : IsStorableOutbound session) where
  outbound-parts :
      outbound_raw_pickle session
      ≡ pickle_uint32 [] 1
        ++ (megolm_pickle [] session.ratchet ++ pickle_ed25519_key_pair [] session.signing_key)
  unfolding outbound_raw_pickle
  outbound-parts =
      let at1 = pickle_uint32 [] 1 in
      let at2 = megolm_pickle at1 session.ratchet in
      IsEd25519KeyPair-IsCodec.appends at2 session.signing_key
      ∙ rw (megolm-IsCodec.appends at1 session.ratchet) (simp append_assoc)

  outbound_raw_pickle-bytes : All IsByte (outbound_raw_pickle session)
  outbound_raw_pickle-bytes = rw outbound-parts (
      All-append IsByte _ _ (pickle_uint32-bytes 1) (
        All-append IsByte _ _ (megolm_pickle-bytes session.ratchet fit.ratchet_bytes)
          (pickle_ed25519_key_pair-bytes session.signing_key fit.public_bytes fit.private_bytes)))

  length-outbound_raw_pickle :
      length (outbound_raw_pickle session) ≡ outbound_raw_pickle_length session
  unfolding outbound_raw_pickle_length
  length-outbound_raw_pickle =
      let key = pickle_ed25519_key_pair [] session.signing_key in
      let ratchet = megolm_pickle [] session.ratchet in
      rw outbound-parts (
        omega (
          arith,
          length-append (pickle_uint32 [] 1) (ratchet ++ key),
          length-append ratchet key,
          uint32-IsCodec.measured 1 (omega arith),
          megolm-IsCodec.measured session.ratchet fit.ratchet,
          IsEd25519KeyPair-IsCodec.measured session.signing_key fit.key,
        ))

  unpickle_outbound_raw-pickle :
      (other : OutboundGroupSession) (error : OlmErrorCode)
      → unpickle_outbound_raw other (some (outbound_raw_pickle session), error)
        ≡ inr (record session { last_error = other.last_error })
  unfolding unpickle_outbound_raw unpickle_outbound_version unpickle_outbound_fields
  unpickle_outbound_raw-pickle other error =
      let key = pickle_ed25519_key_pair [] session.signing_key in
      rw
        (
          outbound-parts,
          uint32-IsCodec.restores 1 _ (omega arith),
          megolm-IsCodec.restores session.ratchet _ fit.ratchet,
          ← append-nil key,
          IsEd25519KeyPair-IsCodec.restores session.signing_key [] fit.key,
        )
        refl

module _ (p : Primitives) (cbc : IsCbc p) (hmac : IsHmac p) (outputs : AreBytes p) where
  -- Over a CBC that is undone on whole blocks, an HMAC of 32 bytes and outputs that are bytes: an
  -- inbound session whose arrays have their sizes and hold bytes is pickled into an output of the
  -- announced length, and any session that is unpickled from it with the same key becomes it, with its
  -- own last error.
  pub unpickle_inbound-pickle :
      (session other : InboundGroupSession) (key output : Bytes)
      → IsStorableInbound session
      → enc_output_length p (inbound_raw_pickle_length session) ≤ length output
      → (pickled : Bytes) × (pickle_inbound_group_session p session key output
          ≡ (some pickled, session))
        × (unpickle_inbound_group_session p other key pickled
            ≡ inr (record session { last_error = other.last_error }))
        × (length pickled ≡ enc_output_length p (inbound_raw_pickle_length session))
  unfolding pickle_inbound_group_session unpickle_inbound_group_session inbound_raw_pickle_length
      megolm_pickle_length pickle_ed25519_public_key_length
  unpickle_inbound-pickle session other key output fit room =
      let raw = inbound_raw_pickle session in
      let sized = length-inbound_raw_pickle session fit in
      let (opened, n) =
        enc_input-enc_pickle p cbc hmac outputs key output raw other.last_error
          (inbound_raw_pickle-bytes session fit) (rw sized room)
          (enc_length-fits p _ (rw sized (omega arith))) in
      (
        enc_pickle p key output raw,
        rw
            (le→ltb_false (length output) (enc_output_length p (inbound_raw_pickle_length session))
              room)
            refl,
        rw opened (unpickle_inbound_raw-pickle session fit other other.last_error),
        rw n (ap (enc_output_length p) sized),
      )

  -- Over a CBC that is undone on whole blocks, an HMAC of 32 bytes and outputs that are bytes: an
  -- outbound session whose arrays have their sizes and hold bytes is pickled into an output of the
  -- announced length, and any session that is unpickled from it with the same key becomes it, with its
  -- own last error.
  pub unpickle_outbound-pickle :
      (session other : OutboundGroupSession) (key output : Bytes)
      → IsStorableOutbound session
      → enc_output_length p (outbound_raw_pickle_length session) ≤ length output
      → (pickled : Bytes) × (pickle_outbound_group_session p session key output
          ≡ (some pickled, session))
        × (unpickle_outbound_group_session p other key pickled
            ≡ inr (record session { last_error = other.last_error }))
        × (length pickled ≡ enc_output_length p (outbound_raw_pickle_length session))
  unfolding pickle_outbound_group_session unpickle_outbound_group_session outbound_raw_pickle_length
      megolm_pickle_length pickle_ed25519_key_pair_length
  unpickle_outbound-pickle session other key output fit room =
      let raw = outbound_raw_pickle session in
      let sized = length-outbound_raw_pickle session fit in
      let (opened, n) =
        enc_input-enc_pickle p cbc hmac outputs key output raw other.last_error
          (outbound_raw_pickle-bytes session fit) (rw sized room)
          (enc_length-fits p _ (rw sized (omega arith))) in
      (
        enc_pickle p key output raw,
        rw
            (le→ltb_false (length output) (enc_output_length p (outbound_raw_pickle_length session))
              room)
            refl,
        rw opened (unpickle_outbound_raw-pickle session fit other other.last_error),
        rw n (ap (enc_output_length p) sized),
      )
