-- ===== src/Base64/RoundTrip.antt =====
-- Base64 decoding after encoding, and the announced lengths.
use libce.Base.{
  ℕ, ◌+◌, ◌*◌, ◌/◌, ◌%◌, ◌<◌, ◌≡◌, refl, ap, ◌∙◌, none, some, [], ◌∷◌, ◌++◌, arith, eq→==, ◌≢◌, ◌⊎◌,
  inl, inr,
}
use native.Mathlib.Decide.{ℕ_discrete}
use libce.Base.Lists.{length, All}
use libce.Base.Bytes.{Bytes, IsByte}
use libce.Base64.{
  encode_char, encode_base64_length, encode_base64, decode_base64_length, decode_loop,
  decode_base64,
}
use libce.Base64.Groups.{
  encode_group-sixes, encode_two-sixes, encode_one-sixes, decode_group-sixes, decode_three-sixes,
  decode_two-sixes,
}

encode_base64-group :
    (b0 b1 b2 : ℕ) (rest : Bytes)
    → IsByte b0
    → IsByte b1
    → IsByte b2
    → encode_base64 (b0 ∷ b1 ∷ b2 ∷ rest)
      ≡ encode_char (b0 / 4)
        ∷ encode_char (b0 % 4 * 16 + b1 / 16)
        ∷ encode_char (b1 % 16 * 4 + b2 / 64)
        ∷ encode_char (b2 % 64)
        ∷ encode_base64 rest
unfolding encode_base64
encode_base64-group b0 b1 b2 rest h0 h1 h2 =
    ap (λ (g : Bytes). g ++ encode_base64 rest) (encode_group-sixes b0 b1 b2 h0 h1 h2)

decode_loop-group :
    (x0 x1 x2 x3 : ℕ) (rest : Bytes)
    → x0 < 64
    → x1 < 64
    → x2 < 64
    → x3 < 64
    → decode_loop (encode_char x0 ∷ encode_char x1 ∷ encode_char x2 ∷ encode_char x3 ∷ rest)
      ≡ (x0 * 4 + x1 / 16) ∷ (x1 % 16 * 16 + x2 / 4) ∷ (x2 % 4 * 64 + x3) ∷ decode_loop rest
unfolding decode_loop
decode_loop-group x0 x1 x2 x3 rest h0 h1 h2 h3 =
    ap (λ (g : Bytes). g ++ decode_loop rest) (decode_group-sixes x0 x1 x2 x3 h0 h1 h2 h3)

same_three :
    {a a' b b' c c' : ℕ} {r r' : Bytes}
    → a ≡ a'
    → b ≡ b'
    → c ≡ c'
    → r ≡ r'
    → ◌≡◌ {A = Bytes} (a ∷ b ∷ c ∷ r) (a' ∷ b' ∷ c' ∷ r')
same_three p q s t = cc

encode_base64-two :
    (b0 b1 : ℕ)
    → IsByte b0
    → IsByte b1
    → encode_base64 (b0 ∷ b1 ∷ [])
      ≡ encode_char (b0 / 4) ∷ encode_char (b0 % 4 * 16 + b1 / 16) ∷ encode_char (b1 % 16 * 4) ∷ []
unfolding encode_base64
encode_base64-two b0 b1 h0 h1 = encode_two-sixes b0 b1 h0 h1

encode_base64-one :
    (b0 : ℕ)
    → IsByte b0
    → encode_base64 (b0 ∷ []) ≡ encode_char (b0 / 4) ∷ encode_char (b0 % 4 * 16) ∷ []
unfolding encode_base64
encode_base64-one b0 h0 = encode_one-sixes b0 h0

decode_loop-three :
    (x0 x1 x2 : ℕ)
    → x0 < 64
    → x1 < 64
    → x2 < 64
    → decode_loop (encode_char x0 ∷ encode_char x1 ∷ encode_char x2 ∷ [])
      ≡ (x0 * 4 + x1 / 16) ∷ (x1 % 16 * 16 + x2 / 4) ∷ []
unfolding decode_loop
decode_loop-three x0 x1 x2 h0 h1 h2 = decode_three-sixes x0 x1 x2 h0 h1 h2

decode_loop-two :
    (x0 x1 : ℕ)
    → x0 < 64
    → x1 < 64
    → decode_loop (encode_char x0 ∷ encode_char x1 ∷ []) ≡ (x0 * 4 + x1 / 16) ∷ []
unfolding decode_loop
decode_loop-two x0 x1 h0 h1 = decode_two-sixes x0 x1 h0 h1

decode_loop-encode_two :
    (b0 b1 : ℕ) → IsByte b0 → IsByte b1 → decode_loop (encode_base64 (b0 ∷ b1 ∷ [])) ≡ b0 ∷ b1 ∷ []
decode_loop-encode_two b0 b1 h0 h1 =
    ap decode_loop (encode_base64-two b0 b1 h0 h1)
    ∙ decode_loop-three (b0 / 4) (b0 % 4 * 16 + b1 / 16) (b1 % 16 * 4) (omega arith) (omega arith)
        (omega arith)
    ∙ ground arith

decode_loop-encode_one : (b0 : ℕ) → IsByte b0 → decode_loop (encode_base64 (b0 ∷ [])) ≡ b0 ∷ []
decode_loop-encode_one b0 h0 =
    ap decode_loop (encode_base64-one b0 h0)
    ∙ decode_loop-two (b0 / 4) (b0 % 4 * 16) (omega arith) (omega arith)
    ∙ ground arith

pub decode_loop-encode_base64 :
    (input : Bytes) → All IsByte input → decode_loop (encode_base64 input) ≡ input
decode_loop-encode_base64 (b0 ∷ b1 ∷ b2 ∷ rest) (h0, (h1, (h2, h))) =
    ap decode_loop (encode_base64-group b0 b1 b2 rest h0 h1 h2)
    ∙ decode_loop-group (b0 / 4) (b0 % 4 * 16 + b1 / 16) (b1 % 16 * 4 + b2 / 64) (b2 % 64)
        (encode_base64 rest) (omega arith) (omega arith) (omega arith) (omega arith)
    ∙ same_three (omega arith) (omega arith) (omega arith) (decode_loop-encode_base64 rest h)
decode_loop-encode_base64 (b0 ∷ b1 ∷ []) (h0, (h1, h)) = decode_loop-encode_two b0 b1 h0 h1
decode_loop-encode_base64 (b0 ∷ []) (h0, h) = decode_loop-encode_one b0 h0
decode_loop-encode_base64 [] h = unfold decode_loop encode_base64 in refl

-- `_olm_encode_base64` writes as many characters as announced.
pub length-encode_base64 :
    (input : Bytes) → length (encode_base64 input) ≡ encode_base64_length (length input)
unfolding encode_base64 encode_base64_length
length-encode_base64 (b0 ∷ b1 ∷ b2 ∷ rest) = omega (arith, length-encode_base64 rest)
length-encode_base64 (b0 ∷ b1 ∷ []) = refl
length-encode_base64 (b0 ∷ []) = refl
length-encode_base64 [] = refl

pub decode-encode_length : (n : ℕ) → decode_base64_length (encode_base64_length n) ≡ some n
unfolding decode_base64_length encode_base64_length
decode-encode_length n = ground arith

-- Decoding what was encoded from bytes gives them back, with their number.
pub decode_base64-encode_base64 :
    (input : Bytes)
    → All IsByte input
    → decode_base64 (encode_base64 input) ≡ some (length input, input)
unfolding decode_base64
decode_base64-encode_base64 input h =
    let e =
      ap decode_base64_length (length-encode_base64 input) ∙ decode-encode_length (length input) in
    rw (e, decode_base64, decode_loop-encode_base64 input h)

pub length-decode_loop :
    (input : Bytes) → length input % 4 ≢ 1 → length (decode_loop input) ≡ length input * 3 / 4
unfolding decode_loop
length-decode_loop (c0 ∷ c1 ∷ c2 ∷ c3 ∷ rest) h =
    omega (arith, length-decode_loop rest (omega arith))
length-decode_loop (c0 ∷ c1 ∷ c2 ∷ []) h = refl
length-decode_loop (c0 ∷ c1 ∷ []) h = refl
length-decode_loop (c0 ∷ []) h = absurd (h refl)
length-decode_loop [] h = refl

decode_base64_length-floor : (n : ℕ) → n % 4 ≢ 1 → decode_base64_length n ≡ some (n * 3 / 4)
unfolding decode_base64_length
decode_base64_length-floor n h = ground arith

-- On any input: a length of 1 modulo 4 is refused; otherwise the returned length is three quarters
-- of the input's, rounded down, and as many bytes are written.
pub decode_base64_total :
    (input : Bytes)
    → ((length input % 4 ≡ 1) × (decode_base64 input ≡ none))
      ⊎ ((out : Bytes) × (decode_base64 input ≡ some (length out, out))
          × (length out ≡ length input * 3 / 4)
          × (length input % 4 ≢ 1))
unfolding decode_base64
decode_base64_total input = elim (ℕ_discrete (length input % 4) 1) [
  | yes h ↦ inl (
    h,
    (let q : decode_base64_length (length input) ≡ none =
          unfold decode_base64_length in rw (eq→== _ _ h) in
        rw (q, decode_base64)),
  )
  | no h ↦ inr (
    decode_loop input,
    (let q = decode_base64_length-floor (length input) h in
        rw (q, decode_base64, length-decode_loop input h)),
    length-decode_loop input h,
    h,
  )
]

-- The announced length of the encoding is four thirds of the input's, rounded up.
pub encode_base64_length-ceiling : (n : ℕ) → encode_base64_length n ≡ (n * 4 + 2) / 3
unfolding encode_base64_length
encode_base64_length-ceiling n = omega arith
