-- ===== src/Varint/Runs.antt =====
-- A varint of two groups.
use libce.Base.{◌≡◌, [], ◌∷◌, ◌++◌, arith}
use libce.Base.Lists.{length}
use libce.Varint.{varint_encode_bytes, varint_skip, varint_decode, varint_length_bytes, between}
use libce.Varint.RoundTrip.{varint_round_trip}

varint_example :
    (varint_skip (varint_encode_bytes [] 300 ++ (7 ∷ [])) ≡ 7 ∷ [])
    × (varint_decode 64 (between (varint_encode_bytes [] 300 ++ (7 ∷ [])) (7 ∷ [])) ≡ 300)
    × (varint_length_bytes 300 ≡ length (varint_encode_bytes [] 300))
varint_example = varint_round_trip 300 (7 ∷ []) (omega arith)
