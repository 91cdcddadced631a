-- ===== src/Client/Auth.antt =====
-- The client's side of a login, apps/client/src/auth.rs: the page that it opens, the redirect target
-- that it offers, the callback request, and the deep links. A request line is its code points. The
-- parser of URLs is that of the `url` crate.
pub mod Receiver
pub mod Reads
pub mod Requests
use remotekvm.Base.{
  ℕ, ◌+◌, ◌-◌, ◌/◌, ◌%◌, ◌≡◌, List, [], ◌∷◌, ◌++◌, Bool, true, false, not, ◌&&◌, ◌||◌, Option, none,
  some, ◌==◌, ltb, if◌then◌else◌, filter, any, take, length,
}
use remotekvm.Base.Bytes.{Bytes}
use remotekvm.Base.Exec.{Result, ok, err}
use remotekvm.Percent.{urlencode}
use remotekvm.Server.Login.{strip_prefix, same, http, loopback_v4}
use remotekvm.Agent.Service.CommandLine.{is_whitespace}

pub data AuthError : Type 0 where
  empty_request malformed_request bad_url missing_token unsupported_scheme unsupported_route
        read_failed :
      AuthError
  login_failed : Bytes → AuthError

-- A parsed URL, as far as the code reads it.
pub record Url : Type 0 where
  pub scheme : Bytes
  pub host_str : Option Bytes
  pub path : Bytes
  pub query_pairs : List (Bytes × Bytes)

-- `trim_end_matches('/')`.
unfoldable pub trim_end_slashes : Bytes → Bytes
trim_end_slashes [] = []
trim_end_slashes (c ∷ cs) =
    let rest = trim_end_slashes cs in if c == b'/' && same rest [] then [] else c ∷ rest

pub record AuthFlow : Type 0 where
  pub server_url : Bytes

unfoldable pub AuthFlow_new : Bytes → AuthFlow
AuthFlow_new server_url = record { server_url = trim_end_slashes server_url }

-- `/auth/login?redirect_uri=`.
abbrev pub login_path : Bytes
login_path = b'/' ∷ b'a' ∷ b'u' ∷ b't' ∷ b'h' ∷ b'/' ∷ b'l' ∷ b'o' ∷ b'g' ∷ b'i' ∷ b'n' ∷ b'?' ∷ []

abbrev pub redirect_uri_name : Bytes
redirect_uri_name =
    b'r' ∷ b'e' ∷ b'd' ∷ b'i' ∷ b'r' ∷ b'e' ∷ b'c' ∷ b't' ∷ b'_' ∷ b'u' ∷ b'r' ∷ b'i' ∷ []

-- The query of the page, behind `login_path`.
abbrev pub login_query : Bytes → Bytes
login_query redirect_uri = redirect_uri_name ++ b'=' ∷ urlencode redirect_uri

unfoldable pub login_url : AuthFlow → Bytes → Bytes
login_url flow redirect_uri = flow.server_url ++ (login_path ++ login_query redirect_uri)

abbrev digit : ℕ → ℕ
digit n = b'0' + n % 10

-- A `u16` in decimal.
unfoldable pub print_port : ℕ → Bytes
print_port port =
    let ones = digit port ∷ [] in
    let tens = digit (port / 10) ∷ ones in
    let hundreds = digit (port / 100) ∷ tens in
    let thousands = digit (port / 1000) ∷ hundreds in
    if ltb port 10
    then ones
    else if ltb port 100
    then tens
    else if ltb port 1000
    then hundreds
    else if ltb port 10000
    then thousands
    else digit (port / 10000) ∷ thousands

-- `callback`.
abbrev pub callback : Bytes
callback = b'c' ∷ b'a' ∷ b'l' ∷ b'l' ∷ b'b' ∷ b'a' ∷ b'c' ∷ b'k' ∷ []

unfoldable pub redirect_uri : ℕ → Bytes
redirect_uri port = http ++ (loopback_v4 ++ b':' ∷ (print_port port ++ b'/' ∷ callback))

abbrev pub error_name : Bytes
error_name = b'e' ∷ b'r' ∷ b'r' ∷ b'o' ∷ b'r' ∷ []

abbrev pub token_name : Bytes
token_name = b't' ∷ b'o' ∷ b'k' ∷ b'e' ∷ b'n' ∷ []

abbrev token_or : Option Bytes → Result AuthError Bytes
token_or none = err missing_token
token_or (some token) = ok token

-- The scan of the pairs, with the token that was found so far: an `error` ends it.
unfoldable pub auth_token_from : Option Bytes → List (Bytes × Bytes) → Result AuthError Bytes
auth_token_from token [] = token_or token
auth_token_from token ((k, v) ∷ pairs) =
    let replaced = auth_token_from (some v) pairs in
    let rest = auth_token_from token pairs in
    if same k error_name then err (login_failed v) else if same k token_name then replaced else rest

abbrev pub extract_auth_token_from_pairs : List (Bytes × Bytes) → Result AuthError Bytes
extract_auth_token_from_pairs pairs = auth_token_from none pairs

-- `http://localhost`.
abbrev pub localhost : Bytes
localhost = http ++ (b'l' ∷ b'o' ∷ b'c' ∷ b'a' ∷ b'l' ∷ b'h' ∷ b'o' ∷ b's' ∷ b't' ∷ [])

-- The text begins with a line break.
abbrev pub at_break : Bytes → Bool
at_break [] = false
at_break (c ∷ []) = c == 10
at_break (c ∷ d ∷ text) = c == 10 || (c == 13 && d == 10)

unfoldable pub before_break : Bytes → Bytes
before_break [] = []
before_break (c ∷ text) =
    let rest = before_break text in if at_break (c ∷ text) then [] else c ∷ rest

-- `lines().next()`.
abbrev pub first_line : Bytes → Option Bytes
first_line [] = none
first_line (c ∷ text) = some (before_break (c ∷ text))

abbrev pub push_word : Bytes → List Bytes → List Bytes
push_word [] words = words
push_word (c ∷ word) words = (c ∷ word) ∷ words

-- `split_whitespace`, with the word that was read so far.
unfoldable pub words_from : Bytes → Bytes → List Bytes
words_from word [] = push_word word []
words_from word (c ∷ text) =
    let ended = push_word word (words_from [] text) in
    let longer = words_from (word ++ c ∷ []) text in if is_whitespace c then ended else longer

-- `nth(1)`.
abbrev pub second : List Bytes → Option Bytes
second [] = none
second (word ∷ []) = none
second (word ∷ path ∷ words) = some path

abbrev pub bad_request_status : ℕ
bad_request_status = 400

abbrev pub buffer_size : ℕ
buffer_size = 8192

-- What one `read` puts into the free part of the buffer.
abbrev pub received : Bytes → Bytes → Bytes
received filled chunk = take (buffer_size - length filled) chunk

-- The loop over `stream.read`, with what is in the buffer: each read gives what has come in on the
-- socket, or fails, and the end of the list is the end of the stream.
unfoldable pub read_request : Bytes → List (Option Bytes) → Option Bytes
read_request filled [] = some filled
read_request filled (none ∷ reads) = none
read_request filled (some chunk ∷ reads) =
    let n = received filled chunk in
    let rest = read_request (filled ++ n) reads in
    if same n []
    then some filled
    else if any (λ c. c == 10) (filled ++ n) || length (filled ++ n) == buffer_size
    then some (filled ++ n)
    else rest

module _ (parse : Bytes → Option Url) where
  abbrev pub token_of : Option Url → Result AuthError Bytes
  token_of none = err bad_url
  token_of (some url) = extract_auth_token_from_pairs url.query_pairs

  unfoldable pub extract_token : Bytes → Result AuthError Bytes
  extract_token path = token_of (parse (localhost ++ path))

  -- The status of the page that answers the browser.
  abbrev pub status_of : Result AuthError Bytes → ℕ
  status_of (ok token) = 200
  status_of (err e) = bad_request_status

  abbrev pub Answer : Type 0
  Answer = Result AuthError Bytes × Option ℕ

  abbrev pub on_path : Option Bytes → Answer
  on_path none = (err malformed_request, none)
  on_path (some path) = let result = extract_token path in (result, some (status_of result))

  abbrev pub on_line : Option Bytes → Answer
  on_line none = (err empty_request, none)
  on_line (some line) = on_path (second (words_from [] line))

  -- `handle_callback` once the request is read and is a text.
  unfoldable pub answer_request : Bytes → Answer
  answer_request request = on_line (first_line request)

  abbrev pub on_request : (Bytes → Bytes) → Option Bytes → Answer
  on_request from_utf8_lossy none = (err read_failed, none)
  on_request from_utf8_lossy (some bytes) = answer_request (from_utf8_lossy bytes)

  -- Its result, and the status that it answers with, if it answers.
  unfoldable pub handle_callback : (Bytes → Bytes) → List (Option Bytes) → Answer
  handle_callback from_utf8_lossy reads = on_request from_utf8_lossy (read_request [] reads)

  abbrev deep_link_scheme : Bytes
  deep_link_scheme = b'r' ∷ b'e' ∷ b'm' ∷ b'o' ∷ b't' ∷ b'e' ∷ b'k' ∷ b'v' ∷ b'm' ∷ []

  abbrev auth : Bytes
  auth = b'a' ∷ b'u' ∷ b't' ∷ b'h' ∷ []

  -- The route that the host and the path of a link name.
  unfoldable pub is_auth_route : Option Bytes → Bytes → Bool
  is_auth_route (some host) path = same host auth && (same path [] || same path (b'/' ∷ []))
  is_auth_route none path = same path (b'/' ∷ auth)

  abbrev pub linked : Option Url → Result AuthError Bytes
  linked none = err bad_url
  linked (some url) =
      if not (same url.scheme deep_link_scheme)
      then err unsupported_scheme
      else if is_auth_route url.host_str url.path
      then extract_auth_token_from_pairs url.query_pairs
      else err unsupported_route

  -- The token of the `DeepLink::AuthToken`, the only constructor.
  unfoldable pub parse_deep_link : Bytes → Result AuthError Bytes
  parse_deep_link raw = linked (parse raw)

  abbrev is_some : Option Bytes → Bool
  is_some none = false
  is_some (some rest) = true

  unfoldable pub deep_link_args : List Bytes → List Bytes
  deep_link_args args =
      filter (λ arg. is_some (strip_prefix (deep_link_scheme ++ b':' ∷ []) arg)) args
