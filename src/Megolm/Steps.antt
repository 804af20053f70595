-- ===== src/Megolm/Steps.antt =====
-- How far `megolm_advance_to` moves each part: the arithmetic of shifts and masks.
use libce.Base.{
  ℕ, zero, suc, ◌+◌, ◌-◌, ◌*◌, ◌/◌, ◌%◌, ◌^◌, ◌<◌, ◌≤◌, ◌≡◌, refl, ◌⊎◌, inl, inr, arith, Bool-cases,
  ==→eq, ==_false→ne, ltb→lt, ltb_false→le, bit_and, ltb, ◌==◌, if◌then◌else◌,
}
use libce.Base.Bits.{bit_and_mask, bit_and_high}
use libce.Megolm.{rehash_steps}
use libce.Megolm.Level.{block_size, IsLevel}

-- `advance_to & mask` clears the part of the number inside the block.
pub mask_clears :
    (j t : ℕ)
    → j < 4
    → t < 2 ^ 32
    → bit_and t ((2 ^ 32 - 1) * 2 ^ ((4 - j - 1) * 8) % 2 ^ 32) ≡ t / block_size j * block_size j
mask_clears zero t h k = bit_and_high 24 8 t (omega arith)
mask_clears (suc zero) t h k = bit_and_high 16 16 t (omega arith)
mask_clears (suc (suc zero)) t h k = bit_and_high 8 24 t (omega arith)
mask_clears (suc (suc (suc zero))) t h k = bit_and_high 0 32 t (omega arith)
mask_clears (suc (suc (suc (suc j)))) t h k = absurd (omega arith)

-- How many blocks lie between the two counters, modulo 256.
abbrev pub digit : ℕ → ℕ → ℕ → ℕ
digit j t c = (t / block_size j + 2 ^ 32 - c / block_size j) % 2 ^ 32 % 2 ^ 8

pub data Move (j t c : ℕ) : ℕ → Type 0 where
  stay : digit j t c ≡ 0 → c ≤ t → Move j t c 0
  around : digit j t c ≡ 0 → t < c → Move j t c 256
  ahead : (s : ℕ) → digit j t c ≡ s → 0 < s → Move j t c s

Move-from : (j shift t c : ℕ) → 2 ^ shift ≡ block_size j → Move j t c (rehash_steps shift t c)
unfolding rehash_steps
Move-from j shift t c e = rw (bit_and_mask 8, e) (move (digit j t c) refl)
  where
    move :
        (d : ℕ)
        → digit j t c ≡ d
        → Move j t c (if d == 0 then (if ltb t c then 0x100 else 0) else d)
    move d h = elim (Bool-cases (d == 0)) [
      | inl z ↦
          let none_left : digit j t c ≡ 0 = omega (arith, ==→eq d 0 z) in
          rw z (elim (Bool-cases (ltb t c)) [
            | inl a ↦ rw a (around none_left (ltb→lt t c a))
            | inr b ↦ rw b (stay none_left (ltb_false→le t c b))
          ])
      | inr nz ↦ rw nz (ahead d h (omega (arith, ==_false→ne d 0 nz)))
    ]

pub steps_Move : (j t c : ℕ) → j < 4 → Move j t c (rehash_steps ((4 - j - 1) * 8) t c)
steps_Move zero t c h = Move-from 0 24 t c refl
steps_Move (suc zero) t c h = Move-from 1 16 t c refl
steps_Move (suc (suc zero)) t c h = Move-from 2 8 t c refl
steps_Move (suc (suc (suc zero))) t c h = Move-from 3 0 t c refl
steps_Move (suc (suc (suc (suc j)))) t c h = absurd (omega arith)

-- The number of single steps that s + 1 rehashes of part j stand for, and where they end.
pub record Lands (j t c s : ℕ) : Type 0 where
  pub start : c ≡ (c / block_size j * block_size j + c % block_size j) % 2 ^ 32
  pub inside : c % block_size j + suc (block_size j - 1 - c % block_size j) ≡ block_size j
  pub levels : (i : ℕ) → i ≤ s → IsLevel j ((suc (c / block_size j) + i) * block_size j % 2 ^ 32)
  pub stop : (suc (c / block_size j) + s) * block_size j % 2 ^ 32 ≡ t / block_size j * block_size j
  pub distance :
      s * block_size j
        + suc (block_size j - 1 - c % block_size j)
        + (t - t / block_size j * block_size j)
      ≡ (t + 2 ^ 32 - c) % 2 ^ 32
  pub below : t / block_size j * block_size j ≤ t
  pub near : t / block_size j * block_size j / block_size j ≡ t / block_size j

-- For part 0 the counters may wrap.
pub first_Lands : (t c s : ℕ) → t < 2 ^ 32 → c < 2 ^ 32 → Move 0 t c (suc s) → Lands 0 t c s
first_Lands t c s ht hc m = record {
  start = omega arith;
  inside = omega arith;
  levels = λ i h. omega arith;
  stop = omega (arith, facts m);
  distance = omega (arith, facts m);
  below = omega arith;
  near = omega arith;
}
  where
    facts :
        {n : ℕ}
        → Move 0 t c n
        → ((n ≡ 256) × (digit 0 t c ≡ 0) × (t < c)) ⊎ ((digit 0 t c ≡ n) ⊎ (n ≡ 0))
    facts (stay h k) = inr (inr refl)
    facts (around h k) = inl (refl, h, k)
    facts (ahead s h k) = inr (inl h)

-- Where the target is not behind, the digit is the number of rehashes.
pub Move-digit : {j t c n : ℕ} → Move j t c n → c ≤ t → digit j t c ≡ n
Move-digit (stay h k) le = h
Move-digit (around h k) le = absurd (omega arith)
Move-digit (ahead s h k) le = h

-- For the others, the part before has brought the counters into one block.
pub next_Lands :
    (i t c s : ℕ)
    → suc i < 4
    → t < 2 ^ 32
    → c ≤ t
    → c / block_size i ≡ t / block_size i
    → Move (suc i) t c (suc s)
    → Lands (suc i) t c s
next_Lands zero t c s h ht le near m =
    let d = Move-digit m le in
    record {
      start = omega arith;
      inside = omega arith;
      levels = λ i k. omega arith;
      stop = omega arith;
      distance = omega arith;
      below = omega arith;
      near = omega arith;
    }
next_Lands (suc zero) t c s h ht le near m =
    let d = Move-digit m le in
    record {
      start = omega arith;
      inside = omega arith;
      levels = λ i k. omega arith;
      stop = omega arith;
      distance = omega arith;
      below = omega arith;
      near = omega arith;
    }
next_Lands (suc (suc zero)) t c s h ht le near m =
    let d = Move-digit m le in
    record {
      start = omega arith;
      inside = omega arith;
      levels = λ i k. omega arith;
      stop = omega arith;
      distance = omega arith;
      below = omega arith;
      near = omega arith;
    }
next_Lands (suc (suc (suc i))) t c s h ht le near m = absurd (omega arith)

pub stay_near :
    (i t c : ℕ)
    → suc i < 4
    → t < 2 ^ 32
    → c ≤ t
    → c / block_size i ≡ t / block_size i
    → digit (suc i) t c ≡ 0
    → c / block_size (suc i) ≡ t / block_size (suc i)
stay_near zero t c h ht le near d = omega arith
stay_near (suc zero) t c h ht le near d = omega arith
stay_near (suc (suc zero)) t c h ht le near d = omega arith
stay_near (suc (suc (suc i))) t c h ht le near d = absurd (omega arith)
