-- ===== src/Megolm/Runs.antt =====
-- A ratchet just before its counter wraps.
use libce.Base.{refl, some, [], ◌∷◌, ◌++◌, ◌+◌, ◌-◌, ◌%◌, ◌^◌, ◌≡◌, arith}
use libce.Base.Lists.{length, replicate}
use libce.Base.Iterate.{iterate}
use libce.Crypto.Example.{example_primitives}
use libce.Megolm.Pickled.{IsMegolm, megolm_unpickle-megolm_pickle}
use libce.Megolm.{
  megolm_unpickle, megolm_pickle, megolm_pickle_length, Megolm, megolm_advance, megolm_advance_to,
}
use libce.Megolm.AdvanceTo.{megolm_advance_to-iterate}

abbrev last_ratchet : Megolm
last_ratchet = record {
  parts = record {
    part0 = replicate 32 1;
    part1 = replicate 32 2;
    part2 = replicate 32 3;
    part3 = replicate 32 4;
  };
  counter = 0xffff_fffe;
}

-- Three steps, over the wrap.
megolm_advance_to_example :
    megolm_advance_to example_primitives 1 last_ratchet
    ≡ iterate ((1 + 2 ^ 32 - 0xffff_fffe) % 2 ^ 32) (megolm_advance example_primitives) last_ratchet
megolm_advance_to_example =
    megolm_advance_to-iterate example_primitives 1 last_ratchet (omega arith) (omega arith)

abbrev last_ratchet-IsMegolm : IsMegolm last_ratchet
last_ratchet-IsMegolm = record {
  sized0 = refl;
  sized1 = refl;
  sized2 = refl;
  sized3 = refl;
  counter_fits = omega arith;
}

megolm_unpickle_example :
    (megolm_unpickle (some (megolm_pickle [] last_ratchet ++ (1 ∷ [])))
      ≡ some (last_ratchet, 1 ∷ []))
    × (length (megolm_pickle [] last_ratchet) ≡ megolm_pickle_length last_ratchet)
megolm_unpickle_example = megolm_unpickle-megolm_pickle last_ratchet (1 ∷ []) last_ratchet-IsMegolm
