-- ===== src/Client/Auth/Requests.antt =====
-- What the receiver of the callback reads out of the browser's request.
use remotekvm.Base.{
  ℕ, ◌≡◌, refl, sym, ap, ◌∙◌, [], ◌∷◌, ◌++◌, append-nil, append_assoc, true, false, ◌||◌, some,
  arith, ◌==◌, Option, All, Option,
}
use remotekvm.Base.Bytes.{Bytes}
use remotekvm.Base.Exec.{ok}
use remotekvm.Percent.{
  is_unreserved, percent_encode, IsEncoded, IsAscii, FormUrlencoded, decode-percent_encode,
  decode-unreserved, percent_encode-IsEncoded,
}
use remotekvm.Agent.Service.CommandLine.{is_whitespace}
use remotekvm.Client.Auth.{
  Url, at_break, before_break, push_word, words_from, callback, localhost, token_name,
  auth_token_from, extract_token, token_of, answer_request,
}

abbrev pub IsVisible : ℕ → Type 0
IsVisible c = is_whitespace c ≡ false

visible_at : (c : ℕ) (text : Bytes) → IsVisible c → at_break (c ∷ text) ≡ false
unfolding is_whitespace
visible_at c [] h = ground arith
visible_at c (d ∷ text) h = ground arith

before_break-append :
    (text rest : Bytes)
    → All IsVisible text
    → before_break (text ++ rest) ≡ text ++ before_break rest
unfolding before_break
before_break-append [] rest visible = refl
before_break-append (c ∷ text) rest visible =
    rw (visible_at c (text ++ rest) visible.0, before_break-append text rest visible.1) refl

before_break-space : (rest : Bytes) → before_break (b' ' ∷ rest) ≡ b' ' ∷ before_break rest
unfolding before_break
before_break-space [] = refl
before_break-space (c ∷ rest) = refl

words_from-append :
    (word text rest : Bytes)
    → All IsVisible text
    → words_from word (text ++ b' ' ∷ rest) ≡ push_word (word ++ text) (words_from [] rest)
unfolding words_from is_whitespace
words_from-append word [] rest visible =
    ap (λ w. push_word w (words_from [] rest)) (sym (append-nil word))
words_from-append word (c ∷ text) rest visible =
    rw (visible.0, words_from-append (word ++ c ∷ []) text rest visible.1)
      (ap (λ w. push_word w (words_from [] rest)) (append_assoc word (c ∷ []) text))

encoded-IsVisible : (c : ℕ) → IsEncoded c → IsVisible c
unfolding is_unreserved is_whitespace
encoded-IsVisible c h = ground arith

pub All-encoded-IsVisible : (text : Bytes) → All IsEncoded text → All IsVisible text
All-encoded-IsVisible [] h = tt
All-encoded-IsVisible (c ∷ text) h = (encoded-IsVisible c h.0, All-encoded-IsVisible text h.1)

-- `GET`.
abbrev pub get : Bytes
get = b'G' ∷ b'E' ∷ b'T' ∷ []

-- The query of a callback that carries a token.
abbrev pub token_query : Bytes → Bytes
token_query token = token_name ++ b'=' ∷ percent_encode token

-- `/callback?token=…`.
abbrev pub target : Bytes → Bytes
target token = b'/' ∷ (callback ++ b'?' ∷ token_query token)

abbrev pub request : Bytes → Bytes → Bytes
request path rest = get ++ b' ' ∷ (path ++ b' ' ∷ rest)

-- The `url` crate on a query of unreserved characters, escapes and separators, behind a path of
-- unreserved characters.
pub record UrlLaws (parse : Bytes → Option Url) (form : FormUrlencoded) : Type 0 where
  pub parse_query :
      (path query : Bytes)
      → All (λ c. is_unreserved c ≡ true) path
      → All (λ c. (is_unreserved c || c == b'%' || c == b'=' || c == b'&') ≡ true) query
      → (url : Url) × (parse (localhost ++ b'/' ∷ (path ++ b'?' ∷ query)) ≡ some url)
        × (url.query_pairs ≡ form.query_pairs query)

module _ (parse : Bytes → Option Url) (form : FormUrlencoded) (laws : UrlLaws parse form) where
  token_found :
      (token : Bytes) (url : Url)
      → All IsAscii token
      → url.query_pairs ≡ form.query_pairs (token_query token)
      → token_of parse (some url) ≡ ok token
  unfolding is_unreserved auth_token_from
  token_found token url ascii pairs =
      rw
        (
          pairs,
          form.query_pairs_lem token_name (percent_encode token)
              (refl, (refl, (refl, (refl, (refl, tt))))) (percent_encode-IsEncoded token ascii),
          decode-unreserved form token_name (refl, (refl, (refl, (refl, (refl, tt))))),
          decode-percent_encode form token ascii,
        )
        refl

  separated :
      (text : Bytes)
      → All IsEncoded text
      → All (λ c. (is_unreserved c || c == b'%' || c == b'=' || c == b'&') ≡ true) text
  separated [] h = tt
  separated (c ∷ text) h = (let e = h.0 in ground arith, separated text h.1)

  extract_token-target :
      (token : Bytes) → All IsAscii token → extract_token parse (target token) ≡ ok token
  unfolding extract_token is_unreserved
  extract_token-target token ascii =
      let parsed =
        laws.parse_query callback (token_query token)
          (refl, (refl, (refl, (refl, (refl, (refl, (refl, (refl, tt))))))))
          (
            refl,
            (
              refl,
              (
                refl,
                (
                  refl,
                  (
                    refl,
                    (refl, separated (percent_encode token) (percent_encode-IsEncoded token ascii)),
                  ),
                ),
              ),
            ),
          ) in
      ap (token_of parse) parsed.1 ∙ token_found token parsed.0 ascii parsed.2

  pub IsVisible-target : (token : Bytes) → All IsAscii token → All IsVisible (target token)
  unfolding is_whitespace
  IsVisible-target token ascii = (
    refl,
    (
      refl,
      (
        refl,
        (
          refl,
          (
            refl,
            (
              refl,
              (
                refl,
                (
                  refl,
                  (
                    refl,
                    (
                      refl,
                      (
                        refl,
                        (
                          refl,
                          (
                            refl,
                            (
                              refl,
                              (
                                refl,
                                (
                                  refl,
                                  All-encoded-IsVisible (percent_encode token)
                                      (percent_encode-IsEncoded token ascii),
                                ),
                              ),
                            ),
                          ),
                        ),
                      ),
                    ),
                  ),
                ),
              ),
            ),
          ),
        ),
      ),
    ),
  )

  -- The receiver finds the token in the request for its target.
  pub answer_request-request :
      (token rest : Bytes)
      → All IsAscii token
      → answer_request parse (request (target token) rest) ≡ (ok token, some 200)
  unfolding answer_request is_whitespace
  answer_request-request token rest ascii =
      let path = target token in
      let visible = IsVisible-target token ascii in
      rw
        (
          before_break-append get (b' ' ∷ (path ++ b' ' ∷ rest)) (refl, (refl, (refl, tt))),
          before_break-space (path ++ b' ' ∷ rest),
          before_break-append path (b' ' ∷ rest) visible,
          before_break-space rest,
          words_from-append [] get (path ++ b' ' ∷ before_break rest) (refl, (refl, (refl, tt))),
          words_from-append [] path (before_break rest) visible,
          extract_token-target token ascii,
        )
        refl
