-- ===== src/Percent.antt =====
-- The percent-encoding of query values: `percent_encode` of apps/server/src/auth/routes.rs and
-- `urlencode` of apps/client/src/auth.rs, and what reads them again. Texts are their bytes.
use remotekvm.Base.{
  ℕ, ◌+◌, ◌/◌, ◌%◌, ◌<◌, ◌≡◌, refl, ap, ◌∙◌, List, [], ◌∷◌, ◌++◌, Bool, true, ◌&&◌, ◌||◌, arith,
  ◌==◌, ltb, leb, if◌then◌else◌, All, Bool-cases, inl, inr,
}
use remotekvm.Base.Bytes.{Bytes}

-- `b'A'..=b'Z' | b'a'..=b'z' | b'0'..=b'9' | b'-' | b'_' | b'.' | b'~'`.
unfoldable pub is_unreserved : ℕ → Bool
is_unreserved b =
    (leb b'A' b && leb b b'Z')
    || (leb b'a' b && leb b b'z')
    || (leb b'0' b && leb b b'9')
    || b == b'-'
    || b == b'_'
    || b == b'.'
    || b == b'~'

-- A digit of `{byte:02X}`.
unfoldable pub hex_digit : ℕ → ℕ
hex_digit n = if ltb n 10 then b'0' + n else 55 + n

unfoldable pub percent_encode : Bytes → Bytes
percent_encode [] = []
percent_encode (b ∷ bs) =
    let rest = percent_encode bs in
    if is_unreserved b then b ∷ rest else b'%' ∷ hex_digit (b / 16) ∷ hex_digit (b % 16) ∷ rest

-- The client's function has the same body.
abbrev pub urlencode : Bytes → Bytes
urlencode = percent_encode

-- What an encoded value consists of.
abbrev pub IsEncoded : ℕ → Type 0
IsEncoded b = (is_unreserved b || b == b'%') ≡ true

abbrev pub IsAscii : ℕ → Type 0
IsAscii b = b < 128

-- `application/x-www-form-urlencoded` as the `url` crate reads it.
pub record FormUrlencoded : Type 0 where
  pub query_pairs : Bytes → List (Bytes × Bytes)
  pub decode : Bytes → Bytes
  pub decode_nil : decode [] ≡ []
  pub decode_plain :
      (b : ℕ) (rest : Bytes) → is_unreserved b ≡ true → decode (b ∷ rest) ≡ b ∷ decode rest
  pub decode_escape :
      (b : ℕ) (rest : Bytes)
      → IsAscii b
      → decode (b'%' ∷ hex_digit (b / 16) ∷ hex_digit (b % 16) ∷ rest) ≡ b ∷ decode rest
  pub query_pairs_lem :
      (name value : Bytes)
      → All (λ b. is_unreserved b ≡ true) name
      → All IsEncoded value
      → query_pairs (name ++ b'=' ∷ value) ≡ (decode name, decode value) ∷ []

pub decode-percent_encode :
    (form : FormUrlencoded) (text : Bytes)
    → All IsAscii text
    → form.decode (percent_encode text) ≡ text
unfolding percent_encode
decode-percent_encode form [] ascii = form.decode_nil
decode-percent_encode form (b ∷ bs) ascii =
    let later = decode-percent_encode form bs ascii.1 in
    elim (Bool-cases (is_unreserved b)) [
      | inl plain ↦
          rw plain (form.decode_plain b (percent_encode bs) plain ∙ ap (λ xs. b ∷ xs) later)
      | inr escaped ↦
          rw escaped (form.decode_escape b (percent_encode bs) ascii.0 ∙ ap (λ xs. b ∷ xs) later)
    ]

pub decode-unreserved :
    (form : FormUrlencoded) (text : Bytes)
    → All (λ b. is_unreserved b ≡ true) text
    → form.decode text ≡ text
decode-unreserved form [] plain = form.decode_nil
decode-unreserved form (b ∷ bs) plain =
    form.decode_plain b bs plain.0 ∙ ap (λ xs. b ∷ xs) (decode-unreserved form bs plain.1)

hex_digit-IsEncoded : (n : ℕ) → n < 16 → IsEncoded (hex_digit n)
unfolding hex_digit is_unreserved
hex_digit-IsEncoded n h = ground arith

pub percent_encode-IsEncoded :
    (text : Bytes) → All IsAscii text → All IsEncoded (percent_encode text)
unfolding percent_encode is_unreserved
percent_encode-IsEncoded [] ascii = tt
percent_encode-IsEncoded (b ∷ bs) ascii =
    let later = percent_encode-IsEncoded bs ascii.1 in
    elim (Bool-cases (is_unreserved b)) [
      | inl plain ↦ rw plain (ground arith, later)
      | inr escaped ↦
          let small = ascii.0 in
          let high = hex_digit-IsEncoded (b / 16) (omega arith) in
          let low = hex_digit-IsEncoded (b % 16) (omega arith) in
          rw escaped (refl, (high, (low, later)))
    ]
