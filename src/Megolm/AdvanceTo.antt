-- ===== src/Megolm/AdvanceTo.antt =====
-- `megolm_advance_to` against repeated steps of `megolm_advance`.
use libce.Base.{
  ℕ, zero, suc, ◌+◌, ◌-◌, ◌*◌, ◌/◌, ◌%◌, ◌^◌, ◌<◌, ◌≤◌, ◌≡◌, refl, sym, arith, ne→==_false,
}
use libce.Base.Iterate.{iterate, iterate-zero, iterate-add, iterate-suc}
use libce.Crypto.{Primitives}
use libce.Megolm.{Megolm, rehash_steps, megolm_advance, advance_part, megolm_advance_to}
use libce.Megolm.Level.{block_size, rekey, Agree-refl}
use libce.Megolm.Jump.{run_multiples, rekey-rehash_self}
use libce.Megolm.Steps.{
  mask_clears, Move, stay, ahead, steps_Move, Lands, first_Lands, next_Lands, Move-digit, stay_near,
}

module _ (p : Primitives) where
  advance_part-stays :
      (j t : ℕ) (m : Megolm)
      → rehash_steps ((4 - j - 1) * 8) t m.counter ≡ 0
      → advance_part p j t m ≡ m
  unfolding advance_part
  advance_part-stays j t m h = rw h

  advance_part-moves :
      (j t s : ℕ) (m : Megolm)
      → j < 4
      → t < 2 ^ 32
      → rehash_steps ((4 - j - 1) * 8) t m.counter ≡ suc s
      → advance_part p j t m ≡ record {
        parts = iterate (suc s) (rekey p j) m.parts;
        counter = t / block_size j * block_size j;
      }
  unfolding advance_part
  advance_part-moves j t s m h ht e =
      rw
        (
          e,
          ne→==_false (suc s) 0 (omega arith),
          mask_clears j t h ht,
          iterate-suc s (rekey p j) m.parts,
          rekey-rehash_self p j h s m.parts m.parts (Agree-refl j m.parts),
        )
        refl

  -- One round of the loop is a number of single steps, and brings the counter into the target's
  -- block; what is left to go is the rest of the way.
  record Round (j t : ℕ) (m m' : Megolm) : Type 0 where
    steps : ℕ
    runs : m' ≡ iterate steps (megolm_advance p) m
    below : m'.counter ≤ t
    near : m'.counter / block_size j ≡ t / block_size j
    distance : steps + (t - m'.counter) ≡ (t + 2 ^ 32 - m.counter) % 2 ^ 32

  moved-Round :
      (j t s : ℕ) (m : Megolm)
      → j < 4
      → t < 2 ^ 32
      → rehash_steps ((4 - j - 1) * 8) t m.counter ≡ suc s
      → Lands j t m.counter s
      → Round j t m (advance_part p j t m)
  moved-Round j t s m h ht e lands =
      let b = block_size j in
      let c = m.counter in
      rw (advance_part-moves j t s m h ht e) (record {
        steps = s * b + suc (b - 1 - c % b);
        runs = rw (← lands.stop) (
            sym (
              run_multiples p j h s (b - 1 - c % b) (c / b) (c % b) m lands.start lands.inside
                lands.levels));
        below = lands.below;
        near = lands.near;
        distance = lands.distance;
      })

  stayed-Round :
      (j t : ℕ) (m : Megolm)
      → rehash_steps ((4 - j - 1) * 8) t m.counter ≡ 0
      → m.counter ≤ t
      → t < 2 ^ 32
      → m.counter / block_size j ≡ t / block_size j
      → Round j t m (advance_part p j t m)
  stayed-Round j t m e le ht near = rw (advance_part-stays j t m e) (record {
    steps = 0;
    runs = sym (iterate-zero (megolm_advance p) m);
    below = le;
    near = near;
    distance = omega arith;
  })

  first_Round :
      (t : ℕ) (m : Megolm) → t < 2 ^ 32 → m.counter < 2 ^ 32 → Round 0 t m (advance_part p 0 t m)
  first_Round t m ht hc =
      by_steps (rehash_steps 24 t m.counter) refl (steps_Move 0 t m.counter (omega arith))
    where
      by_steps :
          (n : ℕ)
          → rehash_steps 24 t m.counter ≡ n
          → Move 0 t m.counter n
          → Round 0 t m (advance_part p 0 t m)
      by_steps zero e (stay h k) = stayed-Round 0 t m e k ht (omega arith)
      by_steps zero e (ahead _ h k) = absurd (omega arith)
      by_steps (suc s) e move =
          moved-Round 0 t s m (omega arith) ht e (first_Lands t m.counter s ht hc move)

  next_Round :
      (i t : ℕ) (m : Megolm)
      → suc i < 4
      → t < 2 ^ 32
      → m.counter ≤ t
      → m.counter / block_size i ≡ t / block_size i
      → Round (suc i) t m (advance_part p (suc i) t m)
  next_Round i t m h ht le near =
      by_steps (rehash_steps ((4 - suc i - 1) * 8) t m.counter) refl
        (steps_Move (suc i) t m.counter h)
    where
      by_steps :
          (n : ℕ)
          → rehash_steps ((4 - suc i - 1) * 8) t m.counter ≡ n
          → Move (suc i) t m.counter n
          → Round (suc i) t m (advance_part p (suc i) t m)
      by_steps zero e move =
          stayed-Round (suc i) t m e le ht
            (stay_near i t m.counter h ht le near (Move-digit move le))
      by_steps (suc s) e move =
          moved-Round (suc i) t s m h ht e (next_Lands i t m.counter s h ht le near move)

  -- For 32-bit counters, jumping to a counter is stepping to it, once for each number in between;
  -- the counters wrap.
  pub megolm_advance_to-iterate :
      (t : ℕ) (m : Megolm)
      → t < 2 ^ 32
      → m.counter < 2 ^ 32
      → megolm_advance_to p t m ≡ iterate ((t + 2 ^ 32 - m.counter) % 2 ^ 32) (megolm_advance p) m
  unfolding megolm_advance_to
  megolm_advance_to-iterate t m ht hc =
      let m1 = advance_part p 0 t m in
      let m2 = advance_part p 1 t m1 in
      let m3 = advance_part p 2 t m2 in
      let r0 = first_Round t m ht hc in
      let r1 = next_Round 0 t m1 (omega arith) ht r0.below r0.near in
      let r2 = next_Round 1 t m2 (omega arith) ht r1.below r1.near in
      let r3 = next_Round 2 t m3 (omega arith) ht r2.below r2.near in
      let total : (t + 2 ^ 32 - m.counter) % 2 ^ 32
          ≡ r3.steps + (r2.steps + (r1.steps + r0.steps)) =
        omega (
          arith, r0.distance, r1.distance, r2.distance, r3.distance, r0.below, r1.below, r2.below,
          r3.below, r3.near,
        ) in
      rw
        (
          total,
          iterate-add r3.steps (r2.steps + (r1.steps + r0.steps)) (megolm_advance p) m,
          iterate-add r2.steps (r1.steps + r0.steps) (megolm_advance p) m,
          iterate-add r1.steps r0.steps (megolm_advance p) m,
          ← r0.runs,
          ← r1.runs,
          ← r2.runs,
        )
        r3.runs
