-- ===== src/Base64/Runs.antt =====
-- Base64 on concrete bytes.
use libce.Base.{◌%◌, ◌*◌, ◌/◌, ◌≡◌, ◌≢◌, ◌⊎◌, none, some, [], ◌∷◌, arith}
use libce.Base.Lists.{length}
use libce.Base.Bytes.{Bytes}
use libce.Base64.{encode_base64, decode_base64}
use libce.Base64.RoundTrip.{decode_base64-encode_base64, decode_base64_total}

abbrev four_bytes : Bytes
four_bytes = 77 ∷ 0 ∷ 255 ∷ 1 ∷ []

decode_base64_example : decode_base64 (encode_base64 four_bytes) ≡ some (4, four_bytes)
decode_base64_example = decode_base64-encode_base64 four_bytes (ground arith)

-- Five characters, the length that is refused.
decode_base64_total_example :
    ((length (65 ∷ four_bytes) % 4 ≡ 1) × (decode_base64 (65 ∷ four_bytes) ≡ none))
    ⊎ ((out : Bytes) × (decode_base64 (65 ∷ four_bytes) ≡ some (length out, out))
        × (length out ≡ length (65 ∷ four_bytes) * 3 / 4)
        × (length (65 ∷ four_bytes) % 4 ≢ 1))
decode_base64_total_example = decode_base64_total (65 ∷ four_bytes)
