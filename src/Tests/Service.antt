-- ===== src/Tests/Service.antt =====
-- The agent's Windows service and its input at concrete inputs.
use remotekvm.Base.{
  ℕ, zero, suc, ◌+◌, ◌*◌, ◌/◌, ◌%◌, ◌≡◌, ◌≢◌, inl, inr, refl, ap, ◌∙◌, List, [], ◌∷◌, ◌++◌,
  append-nil, Bool, true, false, not, ◌&&◌, Option, none, some, String, arith, ◌==◌, ne→==,
  if◌then◌else◌, Bool-cases,
}
use remotekvm.Base.Exec.{ok}
use remotekvm.Base.Chunks.{replicate}
use remotekvm.Base.Maps.{lookup}
use remotekvm.Protocol.{InputEvent}
use remotekvm.Client.Input.{egui_key_to_hid, egui_event_to_input}
use remotekvm.Agent.Input.Windows.{WinNumbers}
use remotekvm.Keyboard.{keys_apart}
use remotekvm.Agent.Service.{
  System, SessionAgents, Event, Run, agent_of, control_loop, reconcile_active_sessions,
}
use remotekvm.Agent.Service.Reconcile.{reconcile_lem}
use remotekvm.Agent.Service.Controller.{controller_failure}
use remotekvm.Agent.Service.CommandLine.{
  quote, backslash, space, is_whitespace, prepend, ArgvRules, quote_command_arg,
  session_agent_command_line, server_url_flag, token_flag,
}
use remotekvm.Agent.Service.CommandLine.Quoting.{command_line_arguments}

-- A splitter with these rules: `n` backslashes wait.
argv : Bool → ℕ → List ℕ → List ℕ × List ℕ
argv quoted n [] = (replicate n backslash, [])
argv quoted n (c ∷ s) =
    let counted = argv quoted (suc n) s in
    let turned = prepend (replicate (n / 2) backslash) (argv (not quoted) 0 s) in
    let escaped = prepend (replicate (n / 2) backslash ++ (quote ∷ [])) (argv quoted 0 s) in
    let plain = prepend (replicate n backslash ++ (c ∷ [])) (argv quoted 0 s) in
    if c == backslash
    then counted
    else if c == quote
    then (if n % 2 == 0 then turned else escaped)
    else if c == space && not quoted
    then (replicate n backslash, s)
    else plain

counts :
    (quoted : Bool) (n m : ℕ) (s : List ℕ)
    → argv quoted n (replicate m backslash ++ s) ≡ argv quoted (n + m) s
unfolding argv replicate
counts quoted n zero s = ap (λ k. argv quoted k s) (omega arith)
counts quoted n (suc m) s = counts quoted (suc n) m s ∙ ap (λ k. argv quoted k s) (omega arith)

from_zero :
    (quoted : Bool) (m : ℕ) (s : List ℕ)
    → argv quoted 0 (replicate m backslash ++ s) ≡ argv quoted m s
from_zero quoted m s = counts quoted 0 m s ∙ ap (λ k. argv quoted k s) (omega arith)

closes_rule :
    (n : ℕ) (s : List ℕ)
    → argv true 0 (replicate (n * 2) backslash ++ (quote ∷ space ∷ s)) ≡ (replicate n backslash, s)
unfolding argv replicate
closes_rule n s =
    let half : n * 2 / 2 ≡ n = omega arith in
    let even : n * 2 % 2 ≡ 0 = omega arith in
    from_zero true (n * 2) (quote ∷ space ∷ s)
    ∙ rw (even, half) (ap (λ t. (t, s)) (append-nil (replicate n backslash)))

closes_line_rule :
    (n : ℕ)
    → argv true 0 (replicate (n * 2) backslash ++ (quote ∷ [])) ≡ (replicate n backslash, [])
unfolding argv replicate
closes_line_rule n =
    let half : n * 2 / 2 ≡ n = omega arith in
    let even : n * 2 % 2 ≡ 0 = omega arith in
    from_zero true (n * 2) (quote ∷ [])
    ∙ rw (even, half) (ap (λ t. (t, [])) (append-nil (replicate n backslash)))

literal_quote_rule :
    (n : ℕ) (s : List ℕ)
    → argv true 0 (replicate (n * 2 + 1) backslash ++ (quote ∷ s))
      ≡ prepend (replicate n backslash ++ (quote ∷ [])) (argv true 0 s)
unfolding argv
literal_quote_rule n s =
    let half : (n * 2 + 1) / 2 ≡ n = omega arith in
    let odd : (n * 2 + 1) % 2 ≡ 1 = omega arith in
    from_zero true (n * 2 + 1) (quote ∷ s) ∙ rw (odd, half) refl

quoted_rule :
    (n c : ℕ) (s : List ℕ)
    → c ≢ quote
    → c ≢ backslash
    → argv true 0 (replicate n backslash ++ (c ∷ s))
      ≡ prepend (replicate n backslash ++ (c ∷ [])) (argv true 0 s)
unfolding argv
quoted_rule n c s hq hb = from_zero true n (c ∷ s) ∙ elim (Bool-cases (c == space)) [
  | inl blank ↦ rw (ne→== c backslash hb, ne→== c quote hq, blank) refl
  | inr solid ↦ rw (ne→== c backslash hb, ne→== c quote hq, solid) refl
]

unquoted_rule :
    (c : ℕ) (s : List ℕ)
    → c ≢ quote
    → c ≢ backslash
    → is_whitespace c ≡ false
    → argv false 0 (c ∷ s) ≡ prepend (c ∷ []) (argv false 0 s)
unfolding argv is_whitespace replicate
unquoted_rule c s hq hb solid =
    let no_space : (c == space) ≡ false = ground arith in
    rw (ne→== c backslash hb, ne→== c quote hq, no_space) refl

abbrev splitter : ArgvRules
unfolding argv replicate
splitter = record {
  next = λ quoted s. argv quoted 0 s;
  opens = λ s. refl;
  closes = closes_rule;
  closes_line = closes_line_rule;
  literal_quote = literal_quote_rule;
  quoted = quoted_rule;
  unquoted = unquoted_rule;
  blank = λ s. refl;
  line_end = refl;
}

abbrev program : List ℕ
program = b'C' ∷ b':' ∷ backslash ∷ b'a' ∷ []

-- A quote in the URL, and a backslash at the end of the token.
abbrev url : List ℕ
url = b'u' ∷ quote ∷ space ∷ []

abbrev token : List ℕ
token = b't' ∷ backslash ∷ []

command_line_arguments_example :
    (line0 : List ℕ) × (line1 : List ℕ) × (line2 : List ℕ) × (line3 : List ℕ)
    × (session_agent_command_line program url token ≡ quote_command_arg program ++ (space ∷ line0))
    × (splitter.next false line0 ≡ (server_url_flag, line1))
    × (splitter.next false line1 ≡ (url, line2))
    × (splitter.next false line2 ≡ (token_flag, line3))
    × (splitter.next false line3 ≡ (token, []))
command_line_arguments_example = command_line_arguments splitter program url token

abbrev system : Option (List ℕ) → System ℕ
system listed = record {
  active_sessions = listed;
  spawn_session_agent = λ id. some (id * 10);
  is_running = λ process. true;
}

abbrev three_agents : SessionAgents ℕ
three_agents = record { agents = (1, 11) ∷ (2, 12) ∷ []; terminated = [] }

reconcile_lem_example :
    ((reconcile_active_sessions (system (some (2 ∷ 3 ∷ []))) three_agents).0 ≡ ok tt)
    × (agent_of 3 (reconcile_active_sessions (system (some (2 ∷ 3 ∷ []))) three_agents).1.agents
        ≡ some 30)
unfolding agent_of
reconcile_lem_example = reconcile_lem (system (some (2 ∷ 3 ∷ []))) (2 ∷ 3 ∷ []) three_agents 3 refl

controller_failure_example :
    (s : SessionAgents ℕ) × (control_loop false
        (Event.tick (system none) ∷ Event.stop (system none) ∷ [])
        three_agents
      ≡ Run.failed s)
    × (agent_of 2 s.agents ≡ some 12)
    × (s.terminated ≡ [])
unfolding agent_of
controller_failure_example =
    controller_failure false (system none) (Event.stop (system none) ∷ []) three_agents 2 12 refl
      refl refl

abbrev numbers : WinNumbers ℕ ℕ
numbers = record {
  literal = λ n. n;
  to_absolute_x = λ x. some x;
  to_absolute_y = λ y. some y;
  wheel_delta = λ d. d;
  is_small = λ d. false;
}

known_enter : egui_key_to_hid "Enter" ≡ some 0x28
unfolding egui_key_to_hid lookup
known_enter = refl

keys_apart_example : (◌≡◌ {A = String} "Enter" "Enter") × (◌≡◌ {A = Bool} true true)
unfolding egui_event_to_input egui_key_to_hid lookup
keys_apart_example =
    keys_apart numbers (3, 4) "Enter" "Enter" 0x28 0x28 true true (InputEvent.key_down 0x28)
      (InputEvent.key_down 0x28) known_enter known_enter refl refl (inl refl)
