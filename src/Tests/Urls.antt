-- ===== src/Tests/Urls.antt =====
-- A small reader of URLs, for which the laws of the `url` crate hold.
use remotekvm.Base.{
  ℕ, ◌+◌, ◌-◌, ◌*◌, ◌/◌, ◌%◌, ◌<◌, ◌≡◌, refl, ap, List, [], ◌∷◌, ◌++◌, true, false, Option, none,
  some, arith, ◌==◌, ltb, if◌then◌else◌, All,
}
use remotekvm.Base.Bytes.{Bytes}
use remotekvm.Percent.{is_unreserved, hex_digit, IsAscii, FormUrlencoded}
use remotekvm.Server.Routes.{query}
use remotekvm.Server.Login.{}
use remotekvm.Server.Login.Callback.{}
use remotekvm.Client.Auth.{Url}
use remotekvm.Client.Auth.Requests.{UrlLaws}

abbrev hex_value : ℕ → ℕ
hex_value c = if ltb c 58 then c - 48 else c - 55

unfoldable pub decode : Bytes → Bytes
decode [] = []
decode (b ∷ []) = b ∷ []
decode (b ∷ h ∷ []) = b ∷ decode (h ∷ [])
decode (b ∷ h ∷ l ∷ rest) =
    let plain = decode (h ∷ l ∷ rest) in
    let escaped = decode rest in
    if b == b'%' then (hex_value h * 16 + hex_value l) ∷ escaped else b ∷ plain

decode_plain : (b : ℕ) (rest : Bytes) → is_unreserved b ≡ true → decode (b ∷ rest) ≡ b ∷ decode rest
unfolding decode is_unreserved
decode_plain b [] h = refl
decode_plain b (c ∷ []) h = refl
decode_plain b (c ∷ d ∷ rest) h = let e : (b == b'%') ≡ false = ground arith in rw e refl

hex_value_lem : (n : ℕ) → n < 16 → hex_value (hex_digit n) ≡ n
unfolding hex_digit
hex_value_lem n h = ground arith

decode_escape :
    (b : ℕ) (rest : Bytes)
    → IsAscii b
    → decode (b'%' ∷ hex_digit (b / 16) ∷ hex_digit (b % 16) ∷ rest) ≡ b ∷ decode rest
unfolding decode
decode_escape b rest h =
    let e : b / 16 * 16 + b % 16 ≡ b = omega arith in
    rw (hex_value_lem (b / 16) (omega arith), hex_value_lem (b % 16) (omega arith))
      (ap (λ c. c ∷ decode rest) e)

-- What is behind the first separator.
unfoldable pub behind : ℕ → Bytes → Bytes
behind sep [] = []
behind sep (c ∷ text) = let rest = behind sep text in if c == sep then text else rest

unfoldable before : ℕ → Bytes → Bytes
before sep [] = []
before sep (c ∷ text) = let rest = before sep text in if c == sep then [] else c ∷ rest

behind_lem :
    (sep : ℕ) (text rest : Bytes)
    → All (λ c. (c == sep) ≡ false) text
    → behind sep (text ++ sep ∷ rest) ≡ rest
unfolding behind
behind_lem sep [] rest h = let e : (sep == sep) ≡ true = ground arith in rw e refl
behind_lem sep (c ∷ text) rest h = rw (h.0, behind_lem sep text rest h.1) refl

before_lem :
    (sep : ℕ) (text rest : Bytes)
    → All (λ c. (c == sep) ≡ false) text
    → before sep (text ++ sep ∷ rest) ≡ text
unfolding before
before_lem sep [] rest h = let e : (sep == sep) ≡ true = ground arith in rw e refl
before_lem sep (c ∷ text) rest h = rw (h.0, before_lem sep text rest h.1) refl

unreserved_apart :
    (text : Bytes)
    → All (λ c. is_unreserved c ≡ true) text
    → All (λ c. (c == b'=') ≡ false) text × All (λ c. (c == b'?') ≡ false) text
unfolding is_unreserved
unreserved_apart [] h = (tt, tt)
unreserved_apart (c ∷ text) h =
    let plain = h.0 in
    let later = unreserved_apart text h.1 in ((ground arith, later.0), (ground arith, later.1))

abbrev one_pair : Bytes → List (Bytes × Bytes)
one_pair query = (decode (before b'=' query), decode (behind b'=' query)) ∷ []

pub form : FormUrlencoded
unfolding decode
form = record {
  query_pairs = one_pair;
  decode = decode;
  decode_nil = refl;
  decode_plain = decode_plain;
  decode_escape = decode_escape;
  query_pairs_lem = λ name value plain encoded.
      let apart = (unreserved_apart name plain).0 in
      rw (before_lem b'=' name value apart, behind_lem b'=' name value apart) refl;
}

pub parse : Bytes → Option Url
parse text =
    some (record {
      scheme = [];
      host_str = none;
      path = [];
      query_pairs = one_pair (behind b'?' text);
    })

pub laws : UrlLaws parse form
unfolding form parse behind
laws = record {
  parse_query = λ path query plain separated. (
    record { scheme = []; host_str = none; path = []; query_pairs = one_pair query },
    ap (λ q. some (record { scheme = []; host_str = none; path = []; query_pairs = one_pair q }))
        (behind_lem b'?' path query (unreserved_apart path plain).1),
    refl,
  );
}
