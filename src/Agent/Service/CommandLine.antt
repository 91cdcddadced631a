-- ===== src/Agent/Service/CommandLine.antt =====
-- The command line of a session's agent: `quote_command_arg` and `session_agent_command_line` of
-- apps/agent/src/windows/service.rs, on code points. How Windows splits a command line is a
-- parameter, with the rules that its documentation gives.
pub mod Quoting
use remotekvm.Base.{
  ℕ, suc, ◌+◌, ◌*◌, ◌≡◌, ◌≢◌, List, [], ◌∷◌, ◌++◌, Bool, true, false, not, ◌&&◌, ◌||◌, ◌==◌, leb,
  any, if◌then◌else◌,
}
use remotekvm.Base.Chunks.{replicate}

abbrev pub quote : ℕ
quote = b'"'

abbrev pub backslash : ℕ
backslash = 92

abbrev pub space : ℕ
space = 32

-- `char::is_whitespace`.
unfoldable pub is_whitespace : ℕ → Bool
is_whitespace c =
    (leb 9 c && leb c 13)
    || c == 32
    || c == 0x85
    || c == 0xa0
    || c == 0x1680
    || (leb 0x2000 c && leb c 0x200a)
    || c == 0x2028
    || c == 0x2029
    || c == 0x202f
    || c == 0x205f
    || c == 0x3000

-- The loop of `quote_command_arg`, with the backslashes that wait for the next character.
unfoldable pub quote_from : ℕ → List ℕ → List ℕ
quote_from backslashes [] = replicate (backslashes * 2) backslash ++ (quote ∷ [])
quote_from backslashes (ch ∷ chars) =
    let counted = quote_from (suc backslashes) chars in
    let rest = quote_from 0 chars in
    let escaped = replicate (backslashes * 2 + 1) backslash ++ (quote ∷ rest) in
    let plain = replicate backslashes backslash ++ (ch ∷ rest) in
    if ch == backslash then counted else if ch == quote then escaped else plain

abbrev pub special : ℕ → Bool
special ch = is_whitespace ch || ch == quote || ch == backslash

unfoldable pub quote_command_arg : List ℕ → List ℕ
quote_command_arg [] = quote ∷ quote ∷ []
quote_command_arg (ch ∷ chars) =
    let quoted = quote ∷ quote_from 0 (ch ∷ chars) in
    if any special (ch ∷ chars) then quoted else ch ∷ chars

-- "--server-url" and "--token".
abbrev pub server_url_flag : List ℕ
server_url_flag = 45 ∷ 45 ∷ 115 ∷ 101 ∷ 114 ∷ 118 ∷ 101 ∷ 114 ∷ 45 ∷ 117 ∷ 114 ∷ 108 ∷ []

abbrev pub token_flag : List ℕ
token_flag = 45 ∷ 45 ∷ 116 ∷ 111 ∷ 107 ∷ 101 ∷ 110 ∷ []

unfoldable pub session_agent_command_line : List ℕ → List ℕ → List ℕ → List ℕ
session_agent_command_line exe server_url token =
    quote_command_arg exe
    ++ (space ∷ server_url_flag
        ++ (space ∷ quote_command_arg server_url
            ++ (space ∷ token_flag ++ (space ∷ quote_command_arg token))))

-- What comes before the rest of an argument.
abbrev pub prepend : List ℕ → List ℕ × List ℕ → List ℕ × List ℕ
prepend chars (argument, line) = (chars ++ argument, line)

-- The rest of an argument and the line behind it, inside quotes or not: Windows' rules for every
-- argument but the first. Backslashes are literal unless a quote follows; before one, two of them
-- stand for one, and an odd one makes the quote literal.
pub record ArgvRules : Type 0 where
  pub next : Bool → List ℕ → List ℕ × List ℕ
  pub opens : (s : List ℕ) → next false (quote ∷ s) ≡ next true s
  pub closes :
      (n : ℕ) (s : List ℕ)
      → next true (replicate (n * 2) backslash ++ (quote ∷ space ∷ s)) ≡ (replicate n backslash, s)
  pub closes_line :
      (n : ℕ)
      → next true (replicate (n * 2) backslash ++ (quote ∷ [])) ≡ (replicate n backslash, [])
  pub literal_quote :
      (n : ℕ) (s : List ℕ)
      → next true (replicate (n * 2 + 1) backslash ++ (quote ∷ s))
        ≡ prepend (replicate n backslash ++ (quote ∷ [])) (next true s)
  pub quoted :
      (n c : ℕ) (s : List ℕ)
      → c ≢ quote
      → c ≢ backslash
      → next true (replicate n backslash ++ (c ∷ s))
        ≡ prepend (replicate n backslash ++ (c ∷ [])) (next true s)
  pub unquoted :
      (c : ℕ) (s : List ℕ)
      → c ≢ quote
      → c ≢ backslash
      → is_whitespace c ≡ false
      → next false (c ∷ s) ≡ prepend (c ∷ []) (next false s)
  pub blank : (s : List ℕ) → next false (space ∷ s) ≡ ([], s)
  pub line_end : next false [] ≡ ([], [])
