-- ===== src/Server/Relay/Access.antt =====
-- Who may use a session over the relay of apps/server/src/websocket.rs.
use remotekvm.Base.{
  ℕ, ◌≡◌, ◌≢◌, refl, ap, ◌∙◌, ◌⊎◌, inl, inr, Option, none, some, String, arith, str_eq, Bool-cases,
  Option-cases, str_eq→eq,
}
use remotekvm.Base.Exec.{pure, ◌>>=◌}
use remotekvm.Server.Schema.{Uuid, Session}
use remotekvm.Server.Messages.{
  SignalingMessage, connect_request, signaling_offer, ice_candidate, heartbeat,
}
use remotekvm.Server.App.{AppState, map_err}
use remotekvm.Server.App.Selects.{SameButFaults, run_sql-select}
use remotekvm.Server.Relay.{
  Wire, ClientTask, ClientHandler, or_fail, execute, on_app, on_session, session_owner, if_owner,
  for_owner, client_message, handle_client_message, agent_message, handle_agent_message,
}

-- Nothing has changed but which of the coming statements fail.
pub record Untouched (t u : ClientTask) : Type 0 where
  pub app : SameButFaults t.app u.app
  pub owned : u.owned_sessions ≡ t.owned_sessions

-- The session that a client's message is about.
abbrev pub subject : SignalingMessage → Option String
subject (connect_request session_id client_id offer) = some session_id
subject (signaling_offer session_id offer) = some session_id
subject (ice_candidate session_id candidate) = some session_id
subject _ = none

-- The row of the session belongs to the user.
abbrev pub Owns : Wire → String → String → AppState → Type 0
Owns wire user_id session_id s =
    (id : Uuid) × (row : Session) × (wire.parse_str session_id ≡ some id)
    × (session_owner id s.db ≡ some row)
    × (wire.to_string row.user_id ≡ user_id)

module _ (wire : Wire) (user_id : String) where
  -- The handler goes on only behind the check.
  for_owner-Untouched :
      (session_id : String) (k : Session → ClientHandler) (t : ClientTask)
      → Untouched t (for_owner wire session_id user_id k t).1 ⊎ Owns wire user_id session_id t.app
  unfolding for_owner on_session or_fail execute map_err on_app if_owner ◌>>=◌
  for_owner-Untouched session_id k t = elim (Option-cases (wire.parse_str session_id)) [
    | inl e ↦ inl (ground arith)
    | inr (id, e) ↦ elim (Option-cases (session_owner id t.app.db)) [
      | inl absent ↦ inl (ground (arith, run_sql-select (session_owner id) t.app))
      | inr (row, found) ↦ elim (Bool-cases (str_eq (wire.to_string row.user_id) user_id)) [
        | inl own ↦ inr (id, row, e, found, str_eq→eq _ _ own)
        | inr foreign ↦ inl (ground (arith, run_sql-select (session_owner id) t.app))
      ]
    ]
  ]

  about :
      {o : Option String} {t u : ClientTask} (session_id : String)
      → o ≡ some session_id
      → Untouched t u ⊎ Owns wire user_id session_id t.app
      → Untouched t u
        ⊎ ((session_id : String) × (o ≡ some session_id) × Owns wire user_id session_id t.app)
  about session_id e (inl same) = inl same
  about session_id e (inr owns) = inr (session_id, e, owns)

  client_message-Untouched :
      (text : String) (tx : ℕ) (msg : SignalingMessage) (t : ClientTask)
      → Untouched t (client_message wire text user_id tx msg t).1
        ⊎ ((session_id : String) × (subject msg ≡ some session_id)
            × Owns wire user_id session_id t.app)
  unfolding client_message pure
  client_message-Untouched text tx (connect_request session_id client_id offer) t =
      about session_id refl (for_owner-Untouched session_id _ t)
  client_message-Untouched text tx (signaling_offer session_id offer) t =
      about session_id refl (for_owner-Untouched session_id _ t)
  client_message-Untouched text tx (ice_candidate session_id candidate) t =
      about session_id refl (for_owner-Untouched session_id _ t)
  client_message-Untouched text tx _ t =
      inl (record { app = record { db = refl; signaling = refl }; owned = refl })

  -- Whatever text a client sends: either the tables, the signaling state with every channel, and the
  -- sessions that the socket owns are as they were, or the text is a message about a session whose
  -- row belongs to the user of the socket.
  pub client_needs_ownership :
      (text : String) (tx : ℕ) (t : ClientTask)
      → Untouched t (handle_client_message wire text user_id tx t).1
        ⊎ ((msg : SignalingMessage) × (session_id : String) × (wire.from_str text ≡ some msg)
            × (subject msg ≡ some session_id)
            × Owns wire user_id session_id t.app)
  unfolding handle_client_message or_fail ◌>>=◌
  client_needs_ownership text tx t = elim (Option-cases (wire.from_str text)) [
    | inl e ↦ inl (ground arith)
    | inr (msg, e) ↦ elim (client_message-Untouched text tx msg t) [
      | inl same ↦ inl (rw (e, or_fail) same)
      | inr (session_id, names, owns) ↦ inr (msg, session_id, e, names, owns)
    ]
  ]

module _ (wire : Wire) where
  agent_message_any_machine :
      (text m n : String) (c d : ℕ) (msg : SignalingMessage) (s : AppState)
      → msg ≢ heartbeat
      → agent_message wire text m c msg s ≡ agent_message wire text n d msg s
  unfolding agent_message
  agent_message_any_machine text m n c d heartbeat s h = absurd (h refl)
  agent_message_any_machine text m n c d _ s h = refl

  -- The handler of an agent's texts does not ask whose agent it is: apart from heartbeats, a text
  -- does the same to the state and returns the same over the socket of any machine, also one that
  -- the session of the text does not belong to.
  pub agent_not_checked :
      (text m n : String) (c d : ℕ) (s : AppState)
      → wire.from_str text ≢ some heartbeat
      → handle_agent_message wire text m c s ≡ handle_agent_message wire text n d s
  unfolding handle_agent_message or_fail ◌>>=◌
  agent_not_checked text m n c d s h = elim (Option-cases (wire.from_str text)) [
    | inl e ↦ rw (e, or_fail) refl
    | inr (msg, e) ↦
        rw (e, or_fail) (agent_message_any_machine text m n c d msg s (λ p. h (e ∙ ap some p)))
  ]
