-- ===== src/Agent/Service/CommandLine/Quoting.antt =====
-- The arguments that a session's agent gets from apps/agent/src/windows/service.rs.
use remotekvm.Base.{
  ℕ, suc, ◌+◌, ◌*◌, ◌≡◌, refl, sym, ap, ◌∙◌, List, [], ◌∷◌, ◌++◌, append-nil, append_assoc, true,
  false, ◌==◌, ==→eq, any, inl, inr, Bool-cases, arith,
}
use remotekvm.Base.Chunks.{replicate, replicate-append}
use remotekvm.Agent.Service.CommandLine.{
  quote, backslash, space, is_whitespace, quote_from, special, quote_command_arg, server_url_flag,
  token_flag, session_agent_command_line, prepend, ArgvRules,
}

module _ (rules : ArgvRules) where
  open rules use {
    next, opens, closes, closes_line, literal_quote, quoted, unquoted, blank, line_end,
  }

  -- `tail` ends an argument: it is a space and the line behind it, or the end of the line.
  module _ (tail line : List ℕ)
      (closing : (n : ℕ)
        → next true (replicate (n * 2) backslash ++ (quote ∷ tail)) ≡ (replicate n backslash, line))
      (ending : next false tail ≡ ([], line)) where
    joined :
        (n c : ℕ) (chars : List ℕ)
        → prepend (replicate n backslash ++ (c ∷ [])) (replicate 0 backslash ++ chars, line)
          ≡ (replicate n backslash ++ (c ∷ chars), line)
    unfolding replicate
    joined n c chars = ap (λ t. (t, line)) (append_assoc (replicate n backslash) (c ∷ []) chars)

    quote_from_lem :
        (chars : List ℕ) (n : ℕ)
        → next true (quote_from n chars ++ tail) ≡ (replicate n backslash ++ chars, line)
    unfolding quote_from
    quote_from_lem [] n =
        rw
          (
            append_assoc (replicate (n * 2) backslash) (quote ∷ []) tail,
            append-nil (replicate n backslash),
          )
          (closing n)
    quote_from_lem (ch ∷ chars) n = elim (Bool-cases (ch == backslash)) [
      | inl slash ↦
          rw (slash, ==→eq ch backslash slash)
            (quote_from_lem chars (suc n)
              ∙ ap (λ t. (t, line)) (sym (replicate-append n backslash chars)))
      | inr other ↦ elim (Bool-cases (ch == quote)) [
        | inl is_quote ↦
            rw
              (
                other,
                is_quote,
                ==→eq ch quote is_quote,
                append_assoc (replicate (n * 2 + 1) backslash) (quote ∷ quote_from 0 chars) tail,
                literal_quote n (quote_from 0 chars ++ tail),
                quote_from_lem chars 0,
              )
              (joined n quote chars)
        | inr plain ↦
            rw
              (
                other,
                plain,
                append_assoc (replicate n backslash) (ch ∷ quote_from 0 chars) tail,
                quoted n ch (quote_from 0 chars ++ tail) (λ e. absurd (ground arith))
                    (λ e. absurd (ground arith)),
                quote_from_lem chars 0,
              )
              (joined n ch chars)
      ]
    ]

    plain_lem : (arg : List ℕ) → any special arg ≡ false → next false (arg ++ tail) ≡ (arg, line)
    plain_lem [] h = ending
    plain_lem (ch ∷ chars) h =
        rw
          (
            unquoted ch (chars ++ tail) (λ e. absurd (ground (arith, e)))
                (λ e. absurd (ground (arith, e))) (ground arith),
            plain_lem chars (ground arith),
          )
          refl

    -- The argument comes back, whatever its characters are.
    pub quote_command_arg_lem :
        (arg : List ℕ) → next false (quote_command_arg arg ++ tail) ≡ (arg, line)
    unfolding quote_command_arg replicate
    quote_command_arg_lem [] = opens (quote ∷ tail) ∙ closing 0
    quote_command_arg_lem (ch ∷ chars) = elim (Bool-cases (any special (ch ∷ chars))) [
      | inl some_special ↦
          rw some_special
            (opens (quote_from 0 (ch ∷ chars) ++ tail) ∙ quote_from_lem (ch ∷ chars) 0)
      | inr none_special ↦ rw none_special (plain_lem (ch ∷ chars) none_special)
    ]

  spaced : (arg line : List ℕ) → next false (quote_command_arg arg ++ (space ∷ line)) ≡ (arg, line)
  spaced arg line = quote_command_arg_lem (space ∷ line) line (λ n. closes n line) (blank line) arg

  flag :
      (arg line : List ℕ)
      → any special arg ≡ false
      → next false (arg ++ (space ∷ line)) ≡ (arg, line)
  flag arg line h = plain_lem (space ∷ line) line (λ n. closes n line) (blank line) arg h

  last : (arg : List ℕ) → next false (quote_command_arg arg) ≡ (arg, [])
  last arg =
      ap (next false) (sym (append-nil (quote_command_arg arg)))
      ∙ quote_command_arg_lem [] [] closes_line line_end arg

  -- The command line is the quoted path of the program and four arguments. By the rules with which
  -- Windows splits a command line, the agent gets exactly these four, and nothing behind them: each
  -- flag, and behind it the URL of the server and the token as they are in the configuration,
  -- whatever characters they hold.
  pub command_line_arguments :
      (exe server_url token : List ℕ)
      → (line0 : List ℕ) × (line1 : List ℕ) × (line2 : List ℕ) × (line3 : List ℕ)
        × (session_agent_command_line exe server_url token
            ≡ quote_command_arg exe ++ (space ∷ line0))
        × (next false line0 ≡ (server_url_flag, line1))
        × (next false line1 ≡ (server_url, line2))
        × (next false line2 ≡ (token_flag, line3))
        × (next false line3 ≡ (token, []))
  unfolding session_agent_command_line
  command_line_arguments exe server_url token = (
    _,
    _,
    _,
    _,
    refl,
    flag server_url_flag _ url_plain,
    spaced server_url _,
    flag token_flag _ token_plain,
    last token,
  )
    where
      url_plain : any special server_url_flag ≡ false
      url_plain = unfold is_whitespace in refl

      token_plain : any special token_flag ≡ false
      token_plain = unfold is_whitespace in refl
