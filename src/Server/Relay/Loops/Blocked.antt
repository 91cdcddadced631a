-- ===== src/Server/Relay/Loops/Blocked.antt =====
-- A text for a full channel, in the loops of apps/server/src/websocket.rs.
use Prim.Native.String.{len}
use remotekvm.Base.{
  ℕ, ◌≡◌, refl, ap, ◌∙◌, [], true, false, none, some, String, arith, inl, inr, length, eq_iff,
  str_eq,
}
use remotekvm.Base.Exec.{ok, ◌>>=◌}
use remotekvm.Base.Maps.{lookup}
use remotekvm.Server.Schema.{Uuid, Session}
use remotekvm.Server.Messages.{SignalingMessage, ice_candidate}
use remotekvm.Server.Channels.{Channels, awaiting, ws_channel_size, send}
use remotekvm.Server.Registry.{AgentEntry, notify_agent, send_to_client}
use remotekvm.Server.Sessions.{on_sessions, add_usage, usage_overflows, record_session_usage}
use remotekvm.Server.App.{AppState, map_err, run_sql}
use remotekvm.Server.Relay.{
  Wire, ClientTask, or_fail, execute, relay, on_app, on_session, session_owner, if_owner, for_owner,
  client_message, handle_client_message, agent_message, handle_agent_message,
}
use remotekvm.Server.Relay.Rooms.{with_usage, find-add_usage}
use remotekvm.Server.Relay.Loops.{
  Sockets, Loops, waits_in, after_agent_text, after_client_text, agent_text, client_text,
  agent_forward, client_forward, agent_tick, agent_resume, client_resume, agent_finish,
  client_finish, Steps, stay, then, IsStuck,
}

-- A channel that takes no message, and whose loop still runs.
pub record IsFull (cs : Channels) (c : ℕ) : Type 0 where
  pub full : length (cs.at c).queue ≡ ws_channel_size
  pub open_end : (cs.at c).is_open ≡ true

-- A loop that waits is neither idle nor able to go on.
module _ (wire : Wire) (sockets : Sockets) (l : Loops) (c d : ℕ) (msg msg' : SignalingMessage)
    (agent_waits : l.agent_waits ≡ some (c, msg)) (client_waits : l.client_waits ≡ some (d, msg'))
    (full_c : IsFull l.app.signaling.channels c) (full_d : IsFull l.app.signaling.channels d) where
  waiting-IsStuck : IsStuck wire sockets l
  waiting-IsStuck _ (agent_text _ _ _ idle) = ground arith
  waiting-IsStuck _ (client_text _ _ _ idle) = ground arith
  waiting-IsStuck _ (agent_forward _ _ _ _ idle _) = ground arith
  waiting-IsStuck _ (client_forward _ _ _ _ idle _) = ground arith
  waiting-IsStuck _ (agent_tick _ _ idle) = ground arith
  waiting-IsStuck _ (agent_resume _ e m _ waits (inl room)) = let full = full_c.full in ground arith
  waiting-IsStuck _ (agent_resume _ e m _ waits (inr closed)) =
      let open_end = full_c.open_end in ground arith
  waiting-IsStuck _ (client_resume _ e m _ waits (inl room)) =
      let full = full_d.full in ground arith
  waiting-IsStuck _ (client_resume _ e m _ waits (inr closed)) =
      let open_end = full_d.open_end in ground arith
  waiting-IsStuck _ (agent_finish _ _ idle) = ground arith
  waiting-IsStuck _ (client_finish _ _ idle) = ground arith

send_full :
    (c : ℕ) (msg : SignalingMessage) (cs : Channels)
    → IsFull cs c
    → send c msg cs ≡ (awaiting c msg, cs)
unfolding send
send_full c msg cs is_full = rw (is_full.open_end, is_full.full) refl

module _ (wire : Wire) (id : Uuid) (session_id : String)
    (known : wire.parse_str session_id ≡ some id) where
  -- The agent's candidate, for a client whose channel is full.
  agent_candidate :
      (text machine_id candidate : String) (conn_id c : ℕ) (s : AppState)
      → wire.from_str text ≡ some (ice_candidate session_id candidate)
      → s.faults ≡ []
      → usage_overflows id (len text) 0 s.db.sessions ≡ false
      → lookup session_id s.signaling.clients ≡ some c
      → IsFull s.signaling.channels c
      → handle_agent_message wire text machine_id conn_id s ≡ (
        ok (some (awaiting c (ice_candidate session_id candidate))),
        record s { db = on_sessions (add_usage id (len text) 0) s.db },
      )
  unfolding handle_agent_message agent_message on_session or_fail execute map_err run_sql relay
      record_session_usage send_to_client ◌>>=◌
  agent_candidate text machine_id candidate conn_id c s parsed quiet fits route is_full =
      ground (arith, send_full c (ice_candidate session_id candidate) s.signaling.channels is_full)

  -- The client's candidate, for an agent whose channel is full.
  client_candidate :
      (text user_id candidate : String) (tx : ℕ) (t : ClientTask) (row : Session)
      (agent : AgentEntry)
      → wire.from_str text ≡ some (ice_candidate session_id candidate)
      → session_owner id t.app.db ≡ some row
      → str_eq (wire.to_string row.user_id) user_id ≡ true
      → t.app.faults ≡ []
      → usage_overflows id 0 (len text) t.app.db.sessions ≡ false
      → lookup (wire.to_string row.machine_id) t.app.signaling.agents ≡ some agent
      → IsFull t.app.signaling.channels agent.tx
      → handle_client_message wire text user_id tx t ≡ (
        ok (some (awaiting agent.tx (ice_candidate session_id candidate))),
        record t { app = record t.app { db = on_sessions (add_usage id 0 (len text)) t.app.db } },
      )
  unfolding handle_client_message client_message for_owner on_session or_fail execute map_err on_app
      if_owner run_sql relay record_session_usage notify_agent ◌>>=◌
  client_candidate text user_id candidate tx t row agent parsed found own quiet fits route is_full =
      ground (
        arith,
        send_full agent.tx (ice_candidate session_id candidate) t.app.signaling.channels is_full,
      )

abbrev pub Waits : Loops → ℕ → SignalingMessage → ℕ → SignalingMessage → Type 0
Waits l c msg d msg' = (l.agent_waits ≡ some (c, msg)) × (l.client_waits ≡ some (d, msg'))

module _ (wire : Wire) (sockets : Sockets) (id : Uuid) (session_id to_client to_agent : String)
    (candidate candidate' : String) (l : Loops) (row : Session) (agent : AgentEntry) where
  -- With full channels, one text on each socket is enough.
  pub last_texts :
      wire.parse_str session_id ≡ some id
      → wire.from_str to_client ≡ some (ice_candidate session_id candidate)
      → wire.from_str to_agent ≡ some (ice_candidate session_id candidate')
      → session_owner id l.app.db ≡ some row
      → wire.to_string row.user_id ≡ sockets.user_id
      → lookup (wire.to_string row.machine_id) l.app.signaling.agents ≡ some agent
      → agent.tx ≡ sockets.agent_rx
      → lookup session_id l.app.signaling.clients ≡ some sockets.client_rx
      → l.app.faults ≡ []
      → usage_overflows id (len to_client) 0 l.app.db.sessions ≡ false
      → usage_overflows id 0 (len to_agent) (add_usage id (len to_client) 0 l.app.db.sessions)
        ≡ false
      → (l.agent_runs ≡ true) × (l.agent_waits ≡ none)
      → (l.client_runs ≡ true) × (l.client_waits ≡ none)
      → IsFull l.app.signaling.channels sockets.agent_rx
      → IsFull l.app.signaling.channels sockets.client_rx
      → let l' =
          after_client_text wire sockets to_agent (after_agent_text wire sockets to_client l) in
        Steps wire sockets l l'
        × Waits l' sockets.client_rx
            (ice_candidate session_id candidate)
            agent.tx
            (ice_candidate session_id candidate')
        × IsStuck wire sockets l'
  unfolding session_owner
  last_texts known p q found own online same route quiet fits fits' agent_idle client_idle full_a
        full_c =
      let full_a' : IsFull l.app.signaling.channels agent.tx = rw same full_a in
      let l₁ = after_agent_text wire sockets to_client l in
      let l₂ = after_client_text wire sockets to_agent l₁ in
      let s : AppState = record l.app {
        db = on_sessions (add_usage id (len to_client) 0) l.app.db;
      } in
      let first : handle_agent_message wire to_client (wire.to_string sockets.machine_id)
            sockets.conn_id l.app
          ≡ (ok (some (awaiting sockets.client_rx (ice_candidate session_id candidate))), s) =
        agent_candidate wire id session_id known to_client (wire.to_string sockets.machine_id)
          candidate sockets.conn_id sockets.client_rx l.app p quiet fits route full_c in
      let found' : session_owner id s.db ≡ some (with_usage row (len to_client) 0) =
        find-add_usage id (len to_client) 0 l.app.db.sessions row found in
      let second =
        client_candidate wire id session_id known to_agent sockets.user_id candidate'
          sockets.client_rx (record { app = s; owned_sessions = l.owned_sessions })
          (with_usage row (len to_client) 0) agent q found' ((eq_iff _ sockets.user_id).1 own) quiet
          fits' online full_a' in
      let both =
        ap
          (λ r.
            handle_client_message wire to_agent sockets.user_id sockets.client_rx
              (record { app = r.1; owned_sessions = l.owned_sessions }))
          first
        ∙ second in
      let waits : Waits l₂ sockets.client_rx (ice_candidate session_id candidate) agent.tx
          (ice_candidate session_id candidate') =
        (ap (λ r. waits_in r.0) first, ap (λ r. waits_in r.0) both) in
      let kept : l₂.app.signaling.channels ≡ l.app.signaling.channels =
        ap (λ r. r.1.app.signaling.channels) both in
      (
        then l l₁ l₂ (agent_text l to_client agent_idle.0 agent_idle.1)
            (then l₁ l₂ l₂ (client_text l₁ to_agent client_idle.0 client_idle.1) (stay l₂)),
        waits,
        waiting-IsStuck wire sockets l₂ sockets.client_rx agent.tx
            (ice_candidate session_id candidate) (ice_candidate session_id candidate') waits.0
            waits.1 (rw kept full_c) (rw kept full_a'),
      )
