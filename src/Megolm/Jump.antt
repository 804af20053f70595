-- ===== src/Megolm/Jump.antt =====
-- Runs of steps between multiples of a block. Part j changes only at a multiple of its block, so a
-- run to the next multiple rekeys once, and n such runs are n - 1 rehashes of part j and a rekeying.
use libce.Base.{ℕ, zero, suc, ◌+◌, ◌-◌, ◌*◌, ◌%◌, ◌^◌, ◌<◌, ◌≤◌, ◌≡◌, ◌≢◌, ap, ◌∙◌, arith}
use libce.Base.Iterate.{iterate, iterate-zero, iterate-suc, iterate-add, iterate_shift}
use libce.Crypto.{Primitives}
use libce.Megolm.{Parts, Megolm, rehash_part, rehash_self, megolm_advance}
use libce.Megolm.Level.{
  block_size, Agree, Agree-trans, Agree-refl, IsLevel, rekey, rekey-Agree, rekey-rehash_part,
  counter-megolm_advance, megolm_advance-keeps, megolm_advance-rekeys,
}

-- Between two multiples of a block there is none.
no_multiple :
    (j q r i : ℕ)
    → r + suc i < block_size j
    → ((q * block_size j + r) % 2 ^ 32 + suc i) % 2 ^ 32 % block_size j ≢ 0
no_multiple zero q r i h = omega arith
no_multiple (suc zero) q r i h = omega arith
no_multiple (suc (suc zero)) q r i h = omega arith
no_multiple (suc (suc (suc j))) q r i h = absurd (omega arith)

next_multiple :
    (j q r k : ℕ)
    → r + suc k ≡ block_size j
    → (((q * block_size j + r) % 2 ^ 32 + k) % 2 ^ 32 + 1) % 2 ^ 32 ≡ suc q * block_size j % 2 ^ 32
next_multiple zero q r k h = omega arith
next_multiple (suc zero) q r k h = omega arith
next_multiple (suc (suc zero)) q r k h = omega arith
next_multiple (suc (suc (suc j))) q r k h = omega arith

pub block_size_pos : (j : ℕ) → 0 < block_size j
block_size_pos zero = omega arith
block_size_pos (suc zero) = omega arith
block_size_pos (suc (suc zero)) = omega arith
block_size_pos (suc (suc (suc j))) = omega arith

module _ (p : Primitives) (j : ℕ) (j_lt : j < 4) where
  -- Short of the next multiple nothing up to part j moves.
  run_within :
      (k q r : ℕ) (m : Megolm)
      → m.counter ≡ (q * block_size j + r) % 2 ^ 32
      → r + k < block_size j
      → Agree j m.parts (iterate k (megolm_advance p) m).parts
        × ((iterate k (megolm_advance p) m).counter ≡ (m.counter + k) % 2 ^ 32)
  run_within zero q r m c h = rw iterate-zero (Agree-refl j m.parts, omega arith)
  run_within (suc k) q r m c h =
      let ih = run_within k q r m c (omega arith) in
      let m' = iterate k (megolm_advance p) m in
      let at : (m'.counter + 1) % 2 ^ 32 ≡ ((q * block_size j + r) % 2 ^ 32 + suc k) % 2 ^ 32 =
        omega (arith, ih.1) in
      rw (iterate-suc k (megolm_advance p) m) (
        Agree-trans j m.parts m'.parts (megolm_advance p m').parts ih.0
            (megolm_advance-keeps p j m' j_lt (rw at (no_multiple j q r k h))),
        omega (arith, counter-megolm_advance p m', ih.1),
      )

  -- The run to the next multiple of the block.
  run_to_multiple :
      (k q r : ℕ) (m : Megolm)
      → m.counter ≡ (q * block_size j + r) % 2 ^ 32
      → r + suc k ≡ block_size j
      → IsLevel j (suc q * block_size j % 2 ^ 32)
      → iterate (suc k) (megolm_advance p) m
        ≡ record { parts = rekey p j m.parts; counter = suc q * block_size j % 2 ^ 32 }
  run_to_multiple k q r m c h l =
      let within = run_within k q r m c (omega arith) in
      let m' = iterate k (megolm_advance p) m in
      let at : (m'.counter + 1) % 2 ^ 32 ≡ suc q * block_size j % 2 ^ 32 =
        omega (arith, within.1, c, next_multiple j q r k h) in
      iterate-suc k (megolm_advance p) m
      ∙ megolm_advance-rekeys p j m' j_lt (rw at l)
      ∙ rw (at, rekey-Agree p j m.parts m'.parts j_lt within.0)

  -- Rekeying n + 1 times is rehashing part j n times, and rekeying once.
  pub rekey-rehash_self :
      (n : ℕ) (d d' : Parts)
      → Agree j d d'
      → rekey p j (iterate n (rekey p j) d) ≡ rekey p j (rehash_self p j (suc n) d')
  unfolding rehash_self iterate
  rekey-rehash_self zero d d' a = rekey-Agree p j d d' j_lt a
  rekey-rehash_self (suc n) d d' a =
      ap (rekey p j) (iterate_shift n (rekey p j) d)
      ∙ rekey-rehash_self n (rekey p j d) (rehash_part p d' j j)
          (rw (rekey-Agree p j d d' j_lt a) (rekey-rehash_part p j d' j_lt))

  -- Runs over n + 1 multiples.
  pub run_multiples :
      (n k q r : ℕ) (m : Megolm)
      → m.counter ≡ (q * block_size j + r) % 2 ^ 32
      → r + suc k ≡ block_size j
      → ((i : ℕ) → i ≤ n → IsLevel j ((suc q + i) * block_size j % 2 ^ 32))
      → iterate (n * block_size j + suc k) (megolm_advance p) m ≡ record {
        parts = iterate (suc n) (rekey p j) m.parts;
        counter = (suc q + n) * block_size j % 2 ^ 32;
      }
  run_multiples zero k q r m c h l =
      let steps : 0 * block_size j + suc k ≡ suc k = omega arith in
      let last : suc q + 0 ≡ suc q = omega arith in
      rw (steps, last, iterate-suc 0 (rekey p j) m.parts, iterate-zero (rekey p j) m.parts)
        (run_to_multiple k q r m c h (rw last at (l 0 (omega arith))))
  run_multiples (suc n) k q r m c h l =
      let b : block_size j ≡ suc (block_size j - 1) = omega (arith, block_size_pos j) in
      let steps : suc n * block_size j + suc k
          ≡ suc (block_size j - 1) + (n * block_size j + suc k) =
        omega (arith, b) in
      let last : suc q + suc n ≡ suc (suc q + n) = omega arith in
      let m' : Megolm = record {
        parts = iterate (suc n) (rekey p j) m.parts;
        counter = (suc q + n) * block_size j % 2 ^ 32;
      } in
      let ih = run_multiples n k q r m c h (λ i le. l i (omega arith)) in
      rw (steps, last, iterate-suc (suc n) (rekey p j) m.parts)
        (iterate-add (suc (block_size j - 1)) (n * block_size j + suc k) (megolm_advance p) m
          ∙ ap (iterate (suc (block_size j - 1)) (megolm_advance p)) ih
          ∙ run_to_multiple (block_size j - 1) (suc q + n) 0 m' (omega arith) (omega (arith, b))
              (rw last at (l (suc n) (omega arith))))
