-- ===== src/Megolm/Level.antt =====
-- One step of the ratchet: which parts it rekeys, and which it leaves alone.
use libce.Base.{
  ℕ, zero, suc, ◌+◌, ◌-◌, ◌%◌, ◌^◌, ◌<◌, ◌≡◌, ◌≢◌, refl, ◌∙◌, arith, ◌==◌, if◌then◌else◌,
}
use libce.Base.Bits.{bit_and_mask}
use libce.Crypto.{Primitives}
use libce.Megolm.{
  Parts, Megolm, get_part, set_part, rekey_from, rehash_part, rehash_down, megolm_advance,
}

-- The part from which a step to `counter` rekeys.
pub level_of : ℕ → ℕ
level_of c =
    if c % 2 ^ 24 == 0 then 0 else if c % 2 ^ 16 == 0 then 1 else if c % 2 ^ 8 == 0 then 2 else 3

rekey_from-level_of : (c : ℕ) → rekey_from 4 c 0 0x00ff_ffff ≡ level_of c
unfolding rekey_from level_of
rekey_from-level_of c =
    rw (bit_and_mask 24 c)
      (rw (bit_and_mask 16 c) (rw (bit_and_mask 8 c) (rw (bit_and_mask 0 c) (ground arith))))

-- How many steps lie between two rehashes of part j.
abbrev pub block_size : ℕ → ℕ
block_size zero = 2 ^ 24
block_size (suc zero) = 2 ^ 16
block_size (suc (suc zero)) = 2 ^ 8
block_size (suc (suc (suc j))) = 1

-- The parts up to part j are the same.
abbrev pub Agree : ℕ → Parts → Parts → Type 0
Agree zero d d' = d.part0 ≡ d'.part0
Agree (suc zero) d d' = (d.part0 ≡ d'.part0) × (d.part1 ≡ d'.part1)
Agree (suc (suc zero)) d d' = (d.part0 ≡ d'.part0) × (d.part1 ≡ d'.part1) × (d.part2 ≡ d'.part2)
Agree (suc (suc (suc j))) d d' = d ≡ d'

pub Agree-trans : (j : ℕ) (a b c : Parts) → Agree j a b → Agree j b c → Agree j a c
Agree-trans zero a b c p q = p ∙ q
Agree-trans (suc zero) a b c p q = (p.0 ∙ q.0, p.1 ∙ q.1)
Agree-trans (suc (suc zero)) a b c p q = (p.0 ∙ q.0, p.1 ∙ q.1, p.2 ∙ q.2)
Agree-trans (suc (suc (suc j))) a b c p q = p ∙ q

pub Agree-refl : (j : ℕ) (a : Parts) → Agree j a a
Agree-refl zero a = refl
Agree-refl (suc zero) a = (refl, refl)
Agree-refl (suc (suc zero)) a = (refl, refl, refl)
Agree-refl (suc (suc (suc j))) a = refl

level_of-above : (j c : ℕ) → j < 4 → c % block_size j ≢ 0 → j < level_of c
unfolding level_of
level_of-above zero c h n = ground arith
level_of-above (suc zero) c h n = ground arith
level_of-above (suc (suc zero)) c h n = ground arith
level_of-above (suc (suc (suc j))) c h n = absurd (n (omega arith))

level_of-le_three : (c : ℕ) → level_of c < 4
unfolding level_of
level_of-le_three c = ground arith

-- A multiple of block j, and of no larger block.
abbrev pub IsLevel : ℕ → ℕ → Type 0
IsLevel zero c = c % 2 ^ 24 ≡ 0
IsLevel (suc zero) c = (c % 2 ^ 16 ≡ 0) × (c % 2 ^ 24 ≢ 0)
IsLevel (suc (suc zero)) c = (c % 2 ^ 8 ≡ 0) × (c % 2 ^ 16 ≢ 0)
IsLevel (suc (suc (suc j))) c = c % 2 ^ 8 ≢ 0

level_of-IsLevel : (j c : ℕ) → j < 4 → IsLevel j c → level_of c ≡ j
unfolding level_of
level_of-IsLevel zero c h n = ground arith
level_of-IsLevel (suc zero) c h n = ground arith
level_of-IsLevel (suc (suc zero)) c h n = ground arith
level_of-IsLevel (suc (suc (suc zero))) c h n = ground arith
level_of-IsLevel (suc (suc (suc (suc j)))) c h n = absurd (omega arith)

module _ (p : Primitives) where
  -- Rekeying from part j: it and the parts after it.
  abbrev pub rekey : ℕ → Parts → Parts
  rekey j d = rehash_down p j (4 - j) d

  rekey-keeps : (j h : ℕ) (d : Parts) → j < h → h < 4 → Agree j d (rekey h d)
  unfolding rehash_down get_part set_part
  rekey-keeps zero (suc zero) d k l = refl
  rekey-keeps zero (suc (suc zero)) d k l = refl
  rekey-keeps zero (suc (suc (suc zero))) d k l = refl
  rekey-keeps (suc zero) (suc (suc zero)) d k l = (refl, refl)
  rekey-keeps (suc zero) (suc (suc (suc zero))) d k l = (refl, refl)
  rekey-keeps (suc (suc zero)) (suc (suc (suc zero))) d k l = (refl, refl, refl)
  rekey-keeps _ _ d k l = absurd (omega arith)

  -- What rekeying from part j gives depends on the parts up to j only.
  pub rekey-Agree : (j : ℕ) (d d' : Parts) → j < 4 → Agree j d d' → rekey j d ≡ rekey j d'
  unfolding rehash_down get_part set_part
  rekey-Agree zero d d' h a = cc
  rekey-Agree (suc zero) d d' h (a, b) = cc
  rekey-Agree (suc (suc zero)) d d' h (a, b, c) = cc
  rekey-Agree (suc (suc (suc zero))) d d' h a = cc
  rekey-Agree (suc (suc (suc (suc j)))) d d' h a = absurd (omega arith)

  -- Up to part j, rekeying from j is rehashing part j.
  pub rekey-rehash_part : (j : ℕ) (d : Parts) → j < 4 → Agree j (rekey j d) (rehash_part p d j j)
  unfolding rehash_down get_part set_part
  rekey-rehash_part zero d h = refl
  rekey-rehash_part (suc zero) d h = (refl, refl)
  rekey-rehash_part (suc (suc zero)) d h = (refl, refl, refl)
  rekey-rehash_part (suc (suc (suc zero))) d h = refl
  rekey-rehash_part (suc (suc (suc (suc j)))) d h = absurd (omega arith)

  pub counter-megolm_advance :
      (m : Megolm) → (megolm_advance p m).counter ≡ (m.counter + 1) % 2 ^ 32
  unfolding megolm_advance
  counter-megolm_advance m = refl

  parts-megolm_advance :
      (m : Megolm)
      → (megolm_advance p m).parts ≡ rekey (level_of ((m.counter + 1) % 2 ^ 32)) m.parts
  unfolding megolm_advance
  parts-megolm_advance m = rw (rekey_from-level_of ((m.counter + 1) % 2 ^ 32))

  -- A step to a number that is no multiple of block j leaves the parts up to j alone.
  pub megolm_advance-keeps :
      (j : ℕ) (m : Megolm)
      → j < 4
      → (m.counter + 1) % 2 ^ 32 % block_size j ≢ 0
      → Agree j m.parts (megolm_advance p m).parts
  megolm_advance-keeps j m h n =
      let c = (m.counter + 1) % 2 ^ 32 in
      rw (parts-megolm_advance m)
        (rekey-keeps j (level_of c) m.parts (level_of-above j c h n) (level_of-le_three c))

  -- A step to a multiple of block j, and of no larger block, rekeys from part j.
  pub megolm_advance-rekeys :
      (j : ℕ) (m : Megolm)
      → j < 4
      → IsLevel j ((m.counter + 1) % 2 ^ 32)
      → megolm_advance p m ≡ record { parts = rekey j m.parts; counter = (m.counter + 1) % 2 ^ 32 }
  unfolding megolm_advance
  megolm_advance-rekeys j m h l =
      rw (rekey_from-level_of ((m.counter + 1) % 2 ^ 32), level_of-IsLevel j _ h l)
