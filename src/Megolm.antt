-- ===== src/Megolm.antt =====
-- src/megolm.c: the hash ratchet of group sessions. The ratchet is four parts of 32 bytes and a
-- counter of 32 bits; HMAC-SHA-256 comes from Crypto.
pub mod Level
pub mod Jump
pub mod Steps
pub mod AdvanceTo
pub mod Pickled
mod Runs
use libce.Base.{
  ℕ, zero, suc, ◌+◌, ◌-◌, ◌*◌, ◌/◌, ◌%◌, ◌^◌, ◌<◌, ◌≡◌, Bool, Option, none, some, List, [], ◌∷◌,
  ◌++◌, bit_and, ltb, ◌==◌, if◌then◌else◌,
}
use libce.Base.Lists.{length, take, drop}
use libce.Base.Maybe.{◌>>=◌}
use libce.Base.Bytes.{Bytes}
use libce.Crypto.{Primitives, hmac_sha256}
use libce.Pickle.{pickle_bytes, pickle_uint32, unpickle_bytes, unpickle_uint32}

abbrev pub megolm_ratchet_parts : ℕ
megolm_ratchet_parts = 4

abbrev pub megolm_ratchet_part_length : ℕ
megolm_ratchet_part_length = 32

abbrev pub megolm_ratchet_length : ℕ
megolm_ratchet_length = 128

-- `uint8_t data[4][32]`
pub record Parts : Type 0 where
  pub part0 : Bytes
  pub part1 : Bytes
  pub part2 : Bytes
  pub part3 : Bytes

pub record Megolm : Type 0 where
  pub parts : Parts
  pub counter : ℕ

unfoldable pub get_part : Parts → ℕ → Bytes
get_part d zero = d.part0
get_part d (suc zero) = d.part1
get_part d (suc (suc zero)) = d.part2
get_part d (suc (suc (suc i))) = d.part3

unfoldable pub set_part : Parts → ℕ → Bytes → Parts
set_part d zero v = record d { part0 = v }
set_part d (suc zero) v = record d { part1 = v }
set_part d (suc (suc zero)) v = record d { part2 = v }
set_part d (suc (suc (suc i))) v = record d { part3 = v }

-- `megolm_get_data`: the 128 bytes; and the four parts of such bytes.
unfoldable pub get_data : Megolm → Bytes
get_data m = m.parts.part0 ++ (m.parts.part1 ++ (m.parts.part2 ++ m.parts.part3))

unfoldable pub split_parts : Bytes → Parts
split_parts bytes = record {
  part0 = take 32 bytes;
  part1 = take 32 (drop 32 bytes);
  part2 = take 32 (drop 64 bytes);
  part3 = take 32 (drop 96 bytes);
}

unfoldable pub megolm_init : Bytes → ℕ → Megolm
megolm_init random_data counter = record { parts = split_parts random_data; counter = counter }

unfoldable pub megolm_pickle_length : Megolm → ℕ
megolm_pickle_length m = megolm_ratchet_length + 4

unfoldable pub megolm_pickle : Bytes → Megolm → Bytes
megolm_pickle out m =
    let pos = pickle_bytes out (get_data m) megolm_ratchet_length in pickle_uint32 pos m.counter

unfoldable pub megolm_unpickle : Option Bytes → Option (Megolm × Bytes)
megolm_unpickle pos = do
  (bytes, pos1) ← unpickle_bytes pos megolm_ratchet_length
  (counter, pos2) ← unpickle_uint32 (some pos1)
  some (record { parts = split_parts bytes; counter = counter }, pos2)

-- The loop that looks for the part to rekey from; `n` parts are left.
unfoldable pub rekey_from : ℕ → ℕ → ℕ → ℕ → ℕ
rekey_from zero counter h mask = h
rekey_from (suc n) counter h mask =
    if bit_and counter mask == 0 then h else rekey_from n counter (suc h) (mask / 2 ^ 8)

-- How often part j is rehashed: 0 stands for the `continue`.
unfoldable pub rehash_steps : ℕ → ℕ → ℕ → ℕ
rehash_steps shift advance_to counter =
    let steps = bit_and ((advance_to / 2 ^ shift + 2 ^ 32 - counter / 2 ^ shift) % 2 ^ 32) 0xff in
    if steps == 0 then (if ltb advance_to counter then 0x100 else 0) else steps

module _ (p : Primitives) where
  -- `HASH_KEY_SEEDS[i]` is the one byte i.
  unfoldable pub rehash_part : Parts → ℕ → ℕ → Parts
  rehash_part d rehash_from_part rehash_to_part =
      set_part d rehash_to_part (hmac_sha256 p (get_part d rehash_from_part) (rehash_to_part ∷ []))

  -- `for (k = h + n - 1; k >= h; k--) rehash_part(data, h, k)`
  unfoldable pub rehash_down : ℕ → ℕ → Parts → Parts
  unfolding rehash_part
  rehash_down h zero d = d
  rehash_down h (suc n) d = rehash_down h n (rehash_part d h (h + n))

  unfoldable pub megolm_advance : Megolm → Megolm
  megolm_advance m =
      let counter = (m.counter + 1) % 2 ^ 32 in
      let h = rekey_from megolm_ratchet_parts counter 0 0x00ff_ffff in
      record { parts = rehash_down h (megolm_ratchet_parts - h) m.parts; counter = counter }

  -- `while (steps > 1) rehash_part(data, j, j)`
  unfoldable pub rehash_self : ℕ → ℕ → Parts → Parts
  rehash_self j zero d = d
  rehash_self j (suc zero) d = d
  rehash_self j (suc (suc n)) d = rehash_self j (suc n) (rehash_part d j j)

  -- One round of the loop over the parts.
  unfoldable pub advance_part : ℕ → ℕ → Megolm → Megolm
  advance_part j advance_to m =
      let shift = (megolm_ratchet_parts - j - 1) * 8 in
      let mask = (2 ^ 32 - 1) * 2 ^ shift % 2 ^ 32 in
      let steps = rehash_steps shift advance_to m.counter in
      if steps == 0 then m else record {
        parts = rehash_down j (megolm_ratchet_parts - j) (rehash_self j steps m.parts);
        counter = bit_and advance_to mask;
      }

  unfoldable pub megolm_advance_to : ℕ → Megolm → Megolm
  megolm_advance_to advance_to m =
      advance_part 3 advance_to
        (advance_part 2 advance_to (advance_part 1 advance_to (advance_part 0 advance_to m)))
