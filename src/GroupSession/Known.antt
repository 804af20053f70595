-- ===== src/GroupSession/Known.antt =====
-- What an inbound session knows of the ratchet: the latest ratchet is the initial one, some steps on.
use libce.Base.{
  ℕ, zero, suc, ◌+◌, ◌-◌, ◌%◌, ◌^◌, ◌<◌, ◌≤◌, ◌≡◌, ap, ◌∙◌, sym, true, false, some, ltb, arith,
  lt→ltb, le→ltb_false,
}
use native.Mathlib.Decide.{dec_le}
use libce.Base.Iterate.{iterate, iterate-zero, iterate-suc, iterate-add}
use libce.Crypto.{Primitives}
use libce.Megolm.{Megolm, megolm_advance, megolm_advance_to}
use libce.Megolm.Level.{counter-megolm_advance}
use libce.Megolm.AdvanceTo.{megolm_advance_to-iterate}
use libce.GroupSession.Inbound.{InboundGroupSession, get_megolm}

module _ (p : Primitives) where
  pub counter-iterate :
      (n : ℕ) (m : Megolm)
      → m.counter < 2 ^ 32
      → (iterate n (megolm_advance p) m).counter ≡ (m.counter + n) % 2 ^ 32
  counter-iterate zero m h = rw (iterate-zero (megolm_advance p) m) (omega arith)
  counter-iterate (suc n) m h =
      rw
        (
          iterate-suc n (megolm_advance p) m,
          counter-megolm_advance p (iterate n (megolm_advance p) m),
          counter-iterate n m h,
        )
        (omega arith)

  -- Jumping n steps ahead of a ratchet.
  pub megolm_advance_to-ahead :
      (n : ℕ) (m : Megolm)
      → m.counter < 2 ^ 32
      → n < 2 ^ 32
      → megolm_advance_to p ((m.counter + n) % 2 ^ 32) m ≡ iterate n (megolm_advance p) m
  megolm_advance_to-ahead n m h hn =
      let e : ((m.counter + n) % 2 ^ 32 + 2 ^ 32 - m.counter) % 2 ^ 32 ≡ n = omega arith in
      megolm_advance_to-iterate p ((m.counter + n) % 2 ^ 32) m (omega arith) h
      ∙ ap (λ k. iterate k (megolm_advance p) m) e

  -- The session knows the ratchet `first`, and has gone k steps from it.
  pub record Knows (session : InboundGroupSession) (first : Megolm) (k : ℕ) : Type 0 where
    pub counter_fits : first.counter < 2 ^ 32
    pub first_known : session.initial_ratchet ≡ first
    pub gone : session.latest_ratchet ≡ iterate k (megolm_advance p) first

  module _ (session : InboundGroupSession) (first : Megolm) (k n : ℕ)
      (knows : Knows session first k) (near_k : k < 2 ^ 31) (near_n : n < 2 ^ 31) where
    abbrev index : ℕ
    index = (first.counter + n) % 2 ^ 32

    latest_counter : session.latest_ratchet.counter ≡ (first.counter + k) % 2 ^ 32
    latest_counter =
        ap (λ (m : Megolm). m.counter) knows.gone ∙ counter-iterate k first knows.counter_fits

    latest_jump :
        k ≤ n
        → megolm_advance_to p index session.latest_ratchet ≡ iterate n (megolm_advance p) first
    latest_jump le =
        let fits = knows.counter_fits in
        let e : index ≡ ((first.counter + k) % 2 ^ 32 + (n - k)) % 2 ^ 32 = omega arith in
        let at = counter-iterate k first fits in
        let sum : n - k + k ≡ n = omega arith in
        ap (megolm_advance_to p index) knows.gone
        ∙ ap (λ t. megolm_advance_to p t (iterate k (megolm_advance p) first))
            (e ∙ ap (λ c. (c + (n - k)) % 2 ^ 32) (sym at))
        ∙ megolm_advance_to-ahead (n - k) (iterate k (megolm_advance p) first) (rw at (omega arith))
            (omega arith)
        ∙ sym (iterate-add (n - k) k (megolm_advance p) first)
        ∙ ap (λ t. iterate t (megolm_advance p) first) sum

    -- A message index up to 2^31 - 1 steps from the first ratchet: whether the session has gone past
    -- it or not, it computes the ratchet at that index, and keeps what it knows.
    pub get_megolm-known :
        (k' : ℕ) × ((get_megolm p session index).0 ≡ some (iterate n (megolm_advance p) first))
        × Knows (get_megolm p session index).1 first k'
        × (k ≤ k')
        × (k' < 2 ^ 31)
    unfolding get_megolm
    get_megolm-known = elim (dec_le k n) [
      | yes le ↦
          let fits = knows.counter_fits in
          let there = latest_jump le in
          let near : ltb ((index + 2 ^ 32 - session.latest_ratchet.counter) % 2 ^ 32) (2 ^ 31)
              ≡ true =
            lt→ltb _ (2 ^ 31) (omega (arith, latest_counter)) in
          (
            n,
            rw near (ap some there),
            rw near (record { counter_fits = fits; first_known = knows.first_known; gone = there }),
            le,
            near_n,
          )
      | no past ↦
          let fits = knows.counter_fits in
          let initial = ap (λ (m : Megolm). m.counter) knows.first_known in
          let early : ltb ((index + 2 ^ 32 - session.latest_ratchet.counter) % 2 ^ 32) (2 ^ 31)
              ≡ false =
            le→ltb_false _ (2 ^ 31) (omega (arith, latest_counter)) in
          let late : ltb ((index + 2 ^ 32 - session.initial_ratchet.counter) % 2 ^ 32) (2 ^ 31)
              ≡ true =
            lt→ltb _ (2 ^ 31) (omega (arith, initial)) in
          (
            k,
            rw (early, late)
                (ap some (
                  ap (megolm_advance_to p index) knows.first_known
                  ∙ megolm_advance_to-ahead n first fits (omega arith))),
            rw (early, late) knows,
            omega arith,
            near_k,
          )
    ]
