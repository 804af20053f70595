-- ===== src/Session/Restored.antt =====
-- A session that is pickled is restored.
use libce.Base.{◌≡◌, refl, ◌∙◌, some, [], ◌++◌, inr, append_assoc, arith}
use libce.Base.Lists.{length, length-append}
use libce.Base.Bytes.{Bytes}
use libce.Pickle.{pickle_uint32, pickle_bool, pickle_curve25519_public_key}
use libce.Pickle.RoundTrip.{uint32-IsCodec, bool-IsCodec}
use libce.Pickle.Keys.{IsCurve25519PublicKey, IsCurve25519PublicKey-IsCodec}
use libce.Crypto.{Primitives}
use libce.Ratchet.Pickled.{ratchet_pickle}
use libce.Ratchet.Pickled.RoundTrip.{
  HasArrays, IsRatchet, SameKeys, ratchet_pickle-append, length-ratchet_pickle,
  ratchet_unpickle-ratchet_pickle,
}
use libce.Session.{Session, session_init}
use libce.Session.Stored.{
  pickle_session_length, pickle_session, unpickle_session_fields, unpickled_session,
  unpickle_session_version, unpickle_session,
}

pub record IsSession (s : Session) : Type 0 where
  pub ratchet_fits : IsRatchet s.ratchet
  pub identity_sized : IsCurve25519PublicKey s.alice_identity_key
  pub base_sized : IsCurve25519PublicKey s.alice_base_key
  pub one_time_sized : IsCurve25519PublicKey s.bob_one_time_key

-- The sessions have the same keys and the same flag, and their ratchets the same keys and chains.
pub record SameSession (new old : Session) : Type 0 where
  pub same_flag : new.received_message ≡ old.received_message
  pub same_identity : new.alice_identity_key ≡ old.alice_identity_key
  pub same_base : new.alice_base_key ≡ old.alice_base_key
  pub same_one_time : new.bob_one_time_key ≡ old.bob_one_time_key
  pub same_ratchet : SameKeys new.ratchet old.ratchet

module _ (s : Session) (fit : IsSession s) where
  abbrev keys : Bytes
  keys =
      pickle_curve25519_public_key [] s.alice_identity_key
      ++ (pickle_curve25519_public_key [] s.alice_base_key
          ++ (pickle_curve25519_public_key [] s.bob_one_time_key ++ ratchet_pickle [] s.ratchet))

  session-parts :
      pickle_session [] s ≡ pickle_uint32 [] 1 ++ (pickle_bool [] s.received_message ++ keys)
  unfolding pickle_session
  session-parts =
      let at1 = pickle_uint32 [] 1 in
      let at2 = pickle_bool at1 s.received_message in
      let at3 = pickle_curve25519_public_key at2 s.alice_identity_key in
      let at4 = pickle_curve25519_public_key at3 s.alice_base_key in
      let at5 = pickle_curve25519_public_key at4 s.bob_one_time_key in
      ratchet_pickle-append at5 s.ratchet
      ∙ rw
          (
            IsCurve25519PublicKey-IsCodec.appends at4 s.bob_one_time_key,
            IsCurve25519PublicKey-IsCodec.appends at3 s.alice_base_key,
            IsCurve25519PublicKey-IsCodec.appends at2 s.alice_identity_key,
            bool-IsCodec.appends at1 s.received_message,
          )
          (simp append_assoc)

  length-pickle_session : length (pickle_session [] s) ≡ pickle_session_length s
  unfolding pickle_session_length
  length-pickle_session =
      let codec = IsCurve25519PublicKey-IsCodec in
      let a = pickle_curve25519_public_key [] s.alice_identity_key in
      let b = pickle_curve25519_public_key [] s.alice_base_key in
      let o = pickle_curve25519_public_key [] s.bob_one_time_key in
      let r = ratchet_pickle [] s.ratchet in
      rw session-parts (
        omega (
          arith,
          length-append (pickle_uint32 [] 1) (pickle_bool [] s.received_message ++ keys),
          length-append (pickle_bool [] s.received_message) keys,
          length-append a (b ++ (o ++ r)),
          length-append b (o ++ r),
          length-append o r,
          uint32-IsCodec.measured 1 (omega arith),
          bool-IsCodec.measured s.received_message tt,
          codec.measured s.alice_identity_key fit.identity_sized,
          codec.measured s.alice_base_key fit.base_sized,
          codec.measured s.bob_one_time_key fit.one_time_sized,
          length-ratchet_pickle s.ratchet fit.ratchet_fits,
        ))

-- A session whose keys and ratchet fit their arrays is pickled in the announced length, and unpickled with
-- the same keys, flag and chains into any session whose ratchet has the arrays; the bytes behind the
-- pickle are left.
pub unpickle_session-pickle_session :
    (p : Primitives) (s other : Session) (rest : Bytes)
    → IsSession s
    → HasArrays (session_init p other).ratchet
    → (length (pickle_session [] s) ≡ pickle_session_length s)
      × ((new : Session) × (unpickle_session p other (some (pickle_session [] s ++ rest))
            ≡ inr (new, rest))
          × SameSession new s)
unfolding unpickle_session unpickle_session_version unpickle_session_fields unpickled_session
unpickle_session-pickle_session p s other rest fit arrays =
    let codec = IsCurve25519PublicKey-IsCodec in
    let a = pickle_curve25519_public_key [] s.alice_identity_key in
    let b = pickle_curve25519_public_key [] s.alice_base_key in
    let o = pickle_curve25519_public_key [] s.bob_one_time_key in
    let r = ratchet_pickle [] s.ratchet in
    let flag = pickle_bool [] s.received_message in
    let started = session_init p other in
    let (new, reads, same) =
      ratchet_unpickle-ratchet_pickle s.ratchet started.ratchet rest fit.ratchet_fits arrays in
    let restored : Session = record {
      last_error = started.last_error;
      ratchet = new;
      alice_identity_key = s.alice_identity_key;
      alice_base_key = s.alice_base_key;
      bob_one_time_key = s.bob_one_time_key;
      received_message = s.received_message;
    } in
    (
      length-pickle_session s fit,
      (
        restored,
        rw
            (
              session-parts s fit,
              append_assoc (pickle_uint32 [] 1) (flag ++ (a ++ (b ++ (o ++ r)))) rest,
              append_assoc flag (a ++ (b ++ (o ++ r))) rest,
              append_assoc a (b ++ (o ++ r)) rest,
              append_assoc b (o ++ r) rest,
              append_assoc o r rest,
              uint32-IsCodec.restores 1 (flag ++ (a ++ (b ++ (o ++ (r ++ rest))))) (omega arith),
              bool-IsCodec.restores s.received_message (a ++ (b ++ (o ++ (r ++ rest)))) tt,
              codec.restores s.alice_identity_key (b ++ (o ++ (r ++ rest))) fit.identity_sized,
              codec.restores s.alice_base_key (o ++ (r ++ rest)) fit.base_sized,
              codec.restores s.bob_one_time_key (r ++ rest) fit.one_time_sized,
              reads,
            )
            refl,
        record {
          same_flag = refl;
          same_identity = refl;
          same_base = refl;
          same_one_time = refl;
          same_ratchet = same;
        },
      ),
    )
