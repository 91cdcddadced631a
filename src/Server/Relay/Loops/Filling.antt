-- ===== src/Server/Relay/Loops/Filling.antt =====
-- How texts fill the channels of the two loops of apps/server/src/websocket.rs.
use Prim.Native.String.{len}
use remotekvm.Base.{
  ℕ, ◌+◌, ◌<◌, ◌≤◌, ◌≡◌, refl, List, [], ◌∷◌, ◌++◌, true, false, some, String, arith, length,
  str_eq, lt→ltb,
}
use remotekvm.Base.Exec.{ok, ◌>>=◌}
use remotekvm.Base.Maps.{lookup}
use remotekvm.Server.Schema.{Uuid, Session}
use remotekvm.Server.Messages.{SignalingMessage, ice_candidate}
use remotekvm.Server.Channels.{Channels, delivered, ws_channel_size, send, set_channel}
use remotekvm.Server.Registry.{AgentEntry, notify_agent, send_to_client}
use remotekvm.Server.Sessions.{on_sessions, add_usage, usage_overflows, record_session_usage}
use remotekvm.Server.App.{AppState, map_err, run_sql}
use remotekvm.Server.Relay.{
  Wire, ClientTask, or_fail, execute, relay, on_app, on_session, session_owner, if_owner, for_owner,
  client_message, handle_client_message, agent_message, handle_agent_message,
}
use remotekvm.Server.Relay.Loops.{with_channels}

pub add_usage_twice :
    (id : Uuid) (a b c d : ℕ) (ss : List Session)
    → add_usage id c d (add_usage id a b ss) ≡ add_usage id (a + c) (b + d) ss
unfolding add_usage
add_usage_twice id a b c d [] = refl
add_usage_twice id a b c d (s ∷ ss) = ground (arith, add_usage_twice id a b c d ss)

pub add_usage_none : (id : Uuid) (ss : List Session) → add_usage id 0 0 ss ≡ ss
unfolding add_usage
add_usage_none id [] = refl
add_usage_none id (s ∷ ss) = ground (arith, add_usage_none id ss)

-- A smaller amount fits where a larger one does.
pub fits_below :
    (id : Uuid) (a b c d m n : ℕ) (ss : List Session)
    → usage_overflows id m n ss ≡ false
    → a + c ≤ m
    → b + d ≤ n
    → usage_overflows id c d (add_usage id a b ss) ≡ false
unfolding add_usage usage_overflows
fits_below id a b c d m n [] h hm hn = refl
fits_below id a b c d m n (s ∷ ss) h hm hn = ground (arith, fits_below id a b c d m n ss)

abbrev pub pushed : ℕ → SignalingMessage → Channels → Channels
pushed c msg cs = set_channel cs c (record (cs.at c) { queue = (cs.at c).queue ++ msg ∷ [] })

send_room :
    (c : ℕ) (msg : SignalingMessage) (cs : Channels)
    → (cs.at c).is_open ≡ true
    → length (cs.at c).queue < ws_channel_size
    → send c msg cs ≡ (delivered, pushed c msg cs)
unfolding send
send_room c msg cs is_open room =
    rw (is_open, lt→ltb (length (cs.at c).queue) ws_channel_size room) refl

module _ (wire : Wire) (id : Uuid) (session_id : String)
    (known : wire.parse_str session_id ≡ some id) where
  pub agent_delivers :
      (text machine_id candidate : String) (conn_id c : ℕ) (s : AppState)
      → wire.from_str text ≡ some (ice_candidate session_id candidate)
      → s.faults ≡ []
      → usage_overflows id (len text) 0 s.db.sessions ≡ false
      → lookup session_id s.signaling.clients ≡ some c
      → (s.signaling.channels.at c).is_open ≡ true
      → length (s.signaling.channels.at c).queue < ws_channel_size
      → handle_agent_message wire text machine_id conn_id s ≡ (
        ok (some delivered),
        with_channels
            (pushed c (ice_candidate session_id candidate) s.signaling.channels)
            (record s { db = on_sessions (add_usage id (len text) 0) s.db }),
      )
  unfolding handle_agent_message agent_message on_session or_fail execute map_err run_sql relay
      record_session_usage send_to_client ◌>>=◌
  agent_delivers text machine_id candidate conn_id c s parsed quiet fits route is_open room =
      ground
        (arith, send_room c (ice_candidate session_id candidate) s.signaling.channels is_open room)

  pub client_delivers :
      (text user_id candidate : String) (tx : ℕ) (t : ClientTask) (row : Session)
      (agent : AgentEntry)
      → wire.from_str text ≡ some (ice_candidate session_id candidate)
      → session_owner id t.app.db ≡ some row
      → str_eq (wire.to_string row.user_id) user_id ≡ true
      → t.app.faults ≡ []
      → usage_overflows id 0 (len text) t.app.db.sessions ≡ false
      → lookup (wire.to_string row.machine_id) t.app.signaling.agents ≡ some agent
      → (t.app.signaling.channels.at agent.tx).is_open ≡ true
      → length (t.app.signaling.channels.at agent.tx).queue < ws_channel_size
      → handle_client_message wire text user_id tx t ≡ (
        ok (some delivered),
        record t {
          app =
              with_channels
                (pushed agent.tx (ice_candidate session_id candidate) t.app.signaling.channels)
                (record t.app { db = on_sessions (add_usage id 0 (len text)) t.app.db });
        },
      )
  unfolding handle_client_message client_message for_owner on_session or_fail execute map_err on_app
      if_owner run_sql relay record_session_usage notify_agent ◌>>=◌
  client_delivers text user_id candidate tx t row agent parsed found own quiet fits route is_open
        room =
      ground (
        arith,
        send_room agent.tx (ice_candidate session_id candidate) t.app.signaling.channels is_open
            room,
      )
