-- ===== src/Client/Auth/Receiver.antt =====
-- The receiver of the callback, from the reads of its socket on.
use remotekvm.Base.{
  ℕ, ◌≤◌, ◌≡◌, refl, sym, ap, ◌∙◌, List, [], ◌∷◌, ◌++◌, append_assoc, Bool, true, not, ltb, ◌&&◌,
  ◌==◌, Option, some, arith, length, All, map,
}
use remotekvm.Base.Bytes.{Bytes}
use remotekvm.Base.Exec.{ok}
use remotekvm.Base.Rows.{concat}
use remotekvm.Percent.{
  is_unreserved, percent_encode, IsEncoded, IsAscii, FormUrlencoded, percent_encode-IsEncoded,
}
use remotekvm.Client.Auth.{Url, callback, token_name, buffer_size, on_request, handle_callback}
use remotekvm.Client.Auth.Reads.{InLine, IsSome, read_request_lem}
use remotekvm.Client.Auth.Requests.{get, target, request, UrlLaws, answer_request-request}

-- What is neither a line break nor beyond ASCII.
abbrev IsPrintable : ℕ → Type 0
IsPrintable c = InLine c × IsAscii c

encoded-IsPrintable : (text : Bytes) → All IsEncoded text → All IsPrintable text
unfolding is_unreserved
encoded-IsPrintable [] h = tt
encoded-IsPrintable (c ∷ text) h =
    let e = h.0 in ((ground arith, ground arith), encoded-IsPrintable text h.1)

All-last : (P : ℕ → Type 0) (text : Bytes) (c : ℕ) → All P text → P c → All P (text ++ c ∷ [])
All-last P [] c h p = (p, tt)
All-last P (d ∷ text) c h p = (h.0, All-last P text c h.1 p)

All-first : (text : Bytes) → All IsPrintable text → All InLine text
All-first [] h = tt
All-first (c ∷ text) h = (h.0.0, All-first text h.1)

All-second : (text : Bytes) → All IsPrintable text → All IsAscii text
All-second [] h = tt
All-second (c ∷ text) h = (h.0.1, All-second text h.1)

abbrev all_printable : Bytes → Bool
all_printable [] = true
all_printable (c ∷ text) = not (c == 10) && ltb c 128 && all_printable text

-- A test of a text that is given.
IsPrintable-before :
    (text rest : Bytes)
    → all_printable text ≡ true
    → All IsPrintable rest
    → All IsPrintable (text ++ rest)
IsPrintable-before [] rest h r = r
IsPrintable-before (c ∷ text) rest h r =
    ((ground arith, ground arith), IsPrintable-before text rest (ground arith) r)

-- All that stands before the token.
abbrev before_token : Bytes
before_token = get ++ b' ' ∷ b'/' ∷ (callback ++ b'?' ∷ (token_name ++ b'=' ∷ []))

request_line-IsPrintable :
    (token : Bytes) → All IsAscii token → All IsPrintable (request (target token) [])
request_line-IsPrintable token ascii =
    let encoded =
      encoded-IsPrintable (percent_encode token) (percent_encode-IsEncoded token ascii) in
    IsPrintable-before before_token (percent_encode token ++ b' ' ∷ []) refl
      (All-last IsPrintable (percent_encode token) b' ' encoded (refl, omega arith))

request-append : (path rest : Bytes) → request path rest ≡ request path [] ++ rest
request-append path rest =
    ap (λ t. b'G' ∷ b'E' ∷ b'T' ∷ b' ' ∷ t) (sym (append_assoc path (b' ' ∷ []) rest))

module _ (parse : Bytes → Option Url) (form : FormUrlencoded) (laws : UrlLaws parse form)
    (from_utf8_lossy : Bytes → Bytes) where
  -- Whatever the pieces that the request comes in, the receiver finds the token in it.
  pub handle_callback-request :
      ((text rest : Bytes)
        → All IsAscii text
        → from_utf8_lossy (text ++ rest) ≡ text ++ from_utf8_lossy rest)
      → (token rest : Bytes) (chunks : List Bytes) → All IsAscii token
      → length (request (target token) []) ≤ buffer_size
      → concat chunks ≡ request (target token) rest
      → All IsSome chunks
      → handle_callback parse from_utf8_lossy (map some chunks) ≡ (ok token, some 200)
  unfolding handle_callback
  handle_callback-request keeps token rest chunks ascii small whole all =
      let line = request_line-IsPrintable token ascii in
      let (r, read) =
        read_request_lem chunks [] (request (target token) []) rest
          (whole ∙ request-append (target token) rest) (All-first (request (target token) []) line)
          small (omega arith) all in
      ap (on_request parse from_utf8_lossy) read
      ∙ ap (λ t. on_request parse (λ b. t) (some []))
          (keeps (request (target token) []) r (All-second (request (target token) []) line)
            ∙ sym (request-append (target token) (from_utf8_lossy r)))
      ∙ answer_request-request parse form laws token (from_utf8_lossy r) ascii
