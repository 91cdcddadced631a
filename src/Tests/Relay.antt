-- ===== src/Tests/Relay.antt =====
-- The relay at a small server: machine 2 is registered, and session 1 on it belongs to user 3.
use remotekvm.Base.{◌≡◌, refl, ◌⊎◌, List, [], ◌∷◌, true, none, some, String, arith, All}
use remotekvm.Base.Maps.{lookup}
use remotekvm.Server.Schema.{Session, Machine, empty_database}
use remotekvm.Server.Messages.{SignalingMessage, connect_request, ice_candidate}
use remotekvm.Server.Channels.{Channels, open_channel, dropped}
use remotekvm.Server.Registry.{
  AgentEntry, new, next_conn_id, send_to_client, register_client_session,
}
use remotekvm.Server.Sessions.{new_session, usage_overflows, set_active, add_usage}
use remotekvm.Server.Sessions.Lifecycle.{Advances, IsConsistent}
use remotekvm.Server.App.{AppState, run_sql, map_err}
use remotekvm.Server.Relay.{
  ClientTask, session_owner, handle_agent_message, handle_client_message, agent_connected,
  client_disconnected,
}
use remotekvm.Server.Relay.Events.{
  Event, agent_connect, agent_text, agent_disconnect, client_text, client_disconnect, run,
}
use remotekvm.Server.Relay.Lifecycle.{run_sessions}
use remotekvm.Server.Relay.Access.{
  Untouched, Owns, subject, client_needs_ownership, agent_not_checked,
}
use remotekvm.Server.Relay.Forwarding.{handshake}
use remotekvm.Server.Relay.Cleanup.{newer_socket_dropped}
use remotekvm.Server.Relay.Registration.{stays_registered}
use remotekvm.Tests.Wires.{wire, print, parse}

abbrev open_channels : Channels
open_channels = record { next = 2; at = λ _. record { queue = []; is_open = true } }

abbrev entry : AgentEntry
entry = record { conn_id = 1; tx = 0 }

abbrev row : Session
row = new_session 1 3 2 100

abbrev machine : Machine
machine = record {
  id = 2;
  user_id = some 3;
  organization_id = none;
  name = "desk";
  hostname = "desk.local";
  tailscale_ip = none;
  platform = "windows";
  registration_token_hash = "hash";
  online = true;
  last_seen = none;
}

abbrev server : AppState
server = record {
  db = record empty_database { sessions = row ∷ []; machines = machine ∷ [] };
  faults = [];
  signaling = record (new "local" open_channels) { agents = ("uu", entry) ∷ []; next_conn_id = 2 };
}

abbrev task : ClientTask
task = record { app = server; owned_sessions = [] }

abbrev history : List Event
history =
    client_text "offer" "uuu" 1 []
    ∷ agent_text "answer" 2 1
    ∷ agent_disconnect 2 1 0
    ∷ client_disconnect 1 ("u" ∷ [])
    ∷ []

run_sessions_example :
    Advances (row ∷ []) (run wire server history).db.sessions
    × All IsConsistent (run wire server history).db.sessions
run_sessions_example =
    run_sessions wire server history
      (record { closed = λ e. cc; opened = λ ne. absurd (ne refl) }, tt)

-- A user that the session does not belong to.
client_needs_ownership_example :
    Untouched task (handle_client_message wire "offer" "u" 1 task).1
    ⊎ ((msg : SignalingMessage) × (session_id : String) × (wire.from_str "offer" ≡ some msg)
        × (subject msg ≡ some session_id)
        × Owns wire "u" session_id server)
client_needs_ownership_example = client_needs_ownership wire "u" "offer" 1 task

agent_not_checked_example :
    handle_agent_message wire "answer" "uu" 1 server
    ≡ handle_agent_message wire "answer" "uuuuu" 7 server
agent_not_checked_example = agent_not_checked wire "answer" "uu" "uuuuu" 1 7 server (λ e. cc)

handshake_example :
    ((handle_client_message wire "offer" "uuu" 1 task).1.app.signaling.channels.at 0).queue
    ≡ connect_request "u" "uuu" "sdp-offer" ∷ []
unfolding print parse session_owner lookup usage_overflows set_active add_usage
handshake_example =
    (handshake wire 1 "u" refl "offer" "answer" "uuu" "someone" "sdp-offer" "sdp-answer" 1 task row
      entry refl refl refl refl refl refl refl refl (omega arith)
      (record { open_end = refl; room = omega arith })
      (record { open_end = refl; room = omega arith })).0

newer_socket_dropped_example :
    (send_to_client "u"
      (ice_candidate "u" "c")
      (client_disconnected wire 1 ("u" ∷ []) (record server {
        signaling = register_client_session "u" "uu" "uuu" 4 server.signaling;
      })).signaling).0
    ≡ dropped
newer_socket_dropped_example =
    newer_socket_dropped wire 1 4 ("u" ∷ []) server "u" "uu" "uuu" (ice_candidate "u" "c") refl

-- The socket with connection id 1 ends after the newer one has connected.
stays_registered_example :
    lookup "uu"
      (run wire
        (agent_connected wire 2 server).1
        (agent_disconnect 2 1 0 ∷ agent_connect 5 ∷ [])).signaling.agents
    ≡ some (record { conn_id = 2; tx = 2 })
unfolding print agent_connected run_sql map_err next_conn_id open_channel
stays_registered_example =
    stays_registered wire 2 server (agent_disconnect 2 1 0 ∷ agent_connect 5 ∷ []) (omega arith)
