-- ===== src/Server/Relay/Events.antt =====
-- The relay as a whole: the events of its sockets, one after another. A handler runs as one step;
-- the sequence of the events is arbitrary.
use remotekvm.Base.{ℕ, List, [], ◌∷◌, String}
use remotekvm.Server.Schema.{Uuid}
use remotekvm.Server.App.{AppState}
use remotekvm.Server.Relay.{
  Wire, handle_agent_message, handle_client_message, agent_connected, agent_disconnected,
  client_connected, client_disconnected,
}

pub data Event : Type 0 where
  agent_connect : Uuid → Event
  agent_text : (text : String) (machine_id : Uuid) (conn_id : ℕ) → Event
  agent_disconnect : (machine_id : Uuid) (conn_id tx : ℕ) → Event
  client_connect : Event
  client_text : (text user_id : String) (tx : ℕ) (owned : List String) → Event
  client_disconnect : (tx : ℕ) (owned : List String) → Event

module _ (wire : Wire) where
  unfoldable pub step : AppState → Event → AppState
  step s (agent_connect m) = (agent_connected wire m s).1
  step s (agent_text text m c) = (handle_agent_message wire text (wire.to_string m) c s).1
  step s (agent_disconnect m c tx) = agent_disconnected wire m c tx s
  step s client_connect = (client_connected s).1
  step s (client_text text user_id tx owned) =
      (handle_client_message wire text user_id tx
        (record { app = s; owned_sessions = owned })).1.app
  step s (client_disconnect tx owned) = client_disconnected wire tx owned s

  unfoldable pub run : AppState → List Event → AppState
  unfolding step
  run s [] = s
  run s (e ∷ es) = run (step s e) es
