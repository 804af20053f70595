-- ===== src/Megolm/Pickled.antt =====
-- The pickle of a Megolm ratchet.
use libce.Base.{
  append-nil, ℕ, zero, suc, ◌+◌, ◌≡◌, refl, ap, ◌∙◌, sym, some, [], ◌∷◌, ◌++◌, append_assoc, arith,
}
use libce.Base.Lists.{All, All-append, take_front, length, drop, length-append}
use libce.Base.Bytes.{Bytes, IsByte, IsU32}
use libce.Pickle.Written.{pickle_uint32-bytes, pickle_bytes-bytes}
use libce.Pickle.{pickle_bytes, pickle_uint32}
use libce.Pickle.Codec.{IsCodec}
use libce.Pickle.RoundTrip.{bytes-append, uint32-IsCodec, pickle_bytes-all, unpickle_bytes-append}
use libce.Megolm.{
  Megolm, get_data, split_parts, megolm_pickle_length, megolm_pickle, megolm_unpickle,
}

-- The parts have 32 bytes, and the counter 32 bits.
pub record IsMegolm (m : Megolm) : Type 0 where
  pub sized0 : length m.parts.part0 ≡ 32
  pub sized1 : length m.parts.part1 ≡ 32
  pub sized2 : length m.parts.part2 ≡ 32
  pub sized3 : length m.parts.part3 ≡ 32
  pub counter_fits : IsU32 m.counter

drop_past : (xs ys : Bytes) (m n : ℕ) → m ≡ length xs + n → drop m (xs ++ ys) ≡ drop n ys
drop_past [] ys m n h = let e : m ≡ n = omega arith in rw e refl
drop_past (x ∷ xs) ys zero n h = absurd (omega arith)
drop_past (x ∷ xs) ys (suc m) n h = drop_past xs ys m n (omega arith)

-- The parts of the bytes of a ratchet, whatever follows them.
pub split_parts-get_data :
    (m : Megolm) (rest : Bytes) → IsMegolm m → split_parts (get_data m ++ rest) ≡ m.parts
unfolding split_parts get_data
split_parts-get_data m rest h =
    let a = m.parts.part0 in
    let b = m.parts.part1 in
    let c = m.parts.part2 in
    let d = m.parts.part3 in
    let h0 = h.sized0 in
    let h1 = h.sized1 in
    let h2 = h.sized2 in
    let cd = c ++ (d ++ rest) in
    let bcd = b ++ cd in
    rw
      (
        append_assoc a (b ++ (c ++ d)) rest,
        append_assoc b (c ++ d) rest,
        append_assoc c d rest,
        take_front a bcd 32 h0,
        drop_past a bcd 32 0 (omega arith),
        drop_past a bcd 64 32 (omega arith),
        drop_past a bcd 96 64 (omega arith),
        take_front b cd 32 h1,
        drop_past b cd 32 0 (omega arith),
        drop_past b cd 64 32 (omega arith),
        take_front c (d ++ rest) 32 h2,
        drop_past c (d ++ rest) 32 0 (omega arith),
        take_front d rest 32 h.sized3,
      )
      refl

pub length-get_data : (m : Megolm) → IsMegolm m → length (get_data m) ≡ 128
unfolding get_data
length-get_data m h = omega (
  arith,
  h.sized0,
  h.sized1,
  h.sized2,
  h.sized3,
  length-append m.parts.part0 (m.parts.part1 ++ (m.parts.part2 ++ m.parts.part3)),
  length-append m.parts.part1 (m.parts.part2 ++ m.parts.part3),
  length-append m.parts.part2 m.parts.part3,
)

-- A ratchet of the right sizes has a pickle of the announced length, and is read back from it; the
-- bytes behind it are left.
pub megolm_unpickle-megolm_pickle :
    (m : Megolm) (rest : Bytes)
    → IsMegolm m
    → (megolm_unpickle (some (megolm_pickle [] m ++ rest)) ≡ some (m, rest))
      × (length (megolm_pickle [] m) ≡ megolm_pickle_length m)
unfolding megolm_unpickle megolm_pickle megolm_pickle_length
megolm_unpickle-megolm_pickle m rest h =
    let contents = get_data m in
    let n = length-get_data m h in
    let counter = pickle_uint32 [] m.counter in
    rw (pickle_bytes-all contents 128 n, uint32-IsCodec.appends contents m.counter)
      (
        rw
            (
              append_assoc contents counter rest,
              unpickle_bytes-append contents (counter ++ rest) 128 n,
              uint32-IsCodec.restores m.counter rest h.counter_fits,
              ap split_parts (sym (append-nil contents)) ∙ split_parts-get_data m [] h,
            )
            refl,
        omega (
          arith,
          n,
          length-append contents counter,
          uint32-IsCodec.measured m.counter h.counter_fits,
        ),
      )

pub megolm-IsCodec : IsCodec IsMegolm megolm_pickle_length megolm_pickle megolm_unpickle
unfolding megolm_pickle
megolm-IsCodec = record {
  appends = λ out m.
      rw
        (
          bytes-append out (get_data m) 128,
          uint32-IsCodec.appends (out ++ pickle_bytes [] (get_data m) 128),
          uint32-IsCodec.appends (pickle_bytes [] (get_data m) 128),
        )
        (append_assoc out _ _);
  measured = λ m h. (megolm_unpickle-megolm_pickle m [] h).1;
  restores = λ m rest h. (megolm_unpickle-megolm_pickle m rest h).0;
}

pub megolm_pickle-bytes : (m : Megolm) → All IsByte (get_data m) → All IsByte (megolm_pickle [] m)
unfolding megolm_pickle
megolm_pickle-bytes m h =
    rw (uint32-IsCodec.appends (pickle_bytes [] (get_data m) 128)) (
      All-append IsByte _ _ (pickle_bytes-bytes (get_data m) 128 h) (pickle_uint32-bytes m.counter))
