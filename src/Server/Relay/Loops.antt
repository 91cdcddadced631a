-- ===== src/Server/Relay/Loops.antt =====
-- The loops of handle_agent_socket and handle_client_socket in apps/server/src/websocket.rs, for an
-- agent and a client, as a step relation over the shared state. A loop is between two turns of its
-- `select!`, or within the handler of a text, where it waits for room in another socket's channel: the
-- send is the last thing that a handler does, and until it returns the loop reads neither its
-- socket nor its own channel. A frame that is neither text nor close changes nothing.
pub mod Filling
pub mod Ready
pub mod Blocked
pub mod Deadlock
use remotekvm.Base.{
  ℕ, ◌<◌, ◌≡◌, ◌⊎◌, List, ◌∷◌, Bool, true, false, Option, none, some, String, length,
}
use remotekvm.Base.Exec.{Result, ok}
use remotekvm.Server.Schema.{Uuid}
use remotekvm.Server.Messages.{SignalingMessage}
use remotekvm.Server.Channels.{Channels, Delivery, awaiting, ws_channel_size, send, set_channel}
use remotekvm.Server.Registry.{refresh_agent}
use remotekvm.Server.App.{AppState}
use remotekvm.Server.Relay.{
  Wire, RelayError, ClientTask, handle_agent_message, handle_client_message, agent_disconnected,
  client_disconnected,
}

-- What the two tasks hold for as long as they run.
pub record Sockets : Type 0 where
  pub machine_id : Uuid
  pub conn_id : ℕ
  pub agent_rx : ℕ
  pub user_id : String
  pub client_rx : ℕ

-- The message that a loop waits to send, with the channel.
abbrev pub Waiting : Type 0
Waiting = Option (ℕ × SignalingMessage)

pub record Loops : Type 0 where
  pub app : AppState
  pub owned_sessions : List String
  pub agent_waits : Waiting
  pub client_waits : Waiting
  pub agent_runs : Bool
  pub client_runs : Bool

-- Where the handler of a text is when it comes to a halt.
abbrev pub waits_in : Result RelayError (Option Delivery) → Waiting
waits_in (ok (some (awaiting c msg))) = some (c, msg)
waits_in _ = none

-- A send goes on when there is room, or when the receiver is gone.
abbrev pub CanGoOn : Channels → ℕ → Type 0
CanGoOn cs c = (length (cs.at c).queue < ws_channel_size) ⊎ ((cs.at c).is_open ≡ false)

abbrev pub with_channels : Channels → AppState → AppState
with_channels cs s = record s { signaling = record s.signaling { channels = cs } }

-- `rx.recv()` takes the first message.
abbrev pub take_first : ℕ → List SignalingMessage → AppState → AppState
take_first rx rest s =
    let cs = s.signaling.channels in
    with_channels (set_channel cs rx (record (cs.at rx) { queue = rest })) s

module _ (wire : Wire) (sockets : Sockets) where
  open sockets use {machine_id, conn_id, agent_rx, user_id, client_rx}

  -- The client's state, as its handler takes it.
  abbrev pub client_task : Loops → ClientTask
  client_task l = record { app = l.app; owned_sessions = l.owned_sessions }

  -- `socket.recv()` gives a text to the agent's loop, or to the client's.
  abbrev pub after_agent_text : String → Loops → Loops
  after_agent_text text l =
      let r = handle_agent_message wire text (wire.to_string machine_id) conn_id l.app in
      record l { app = r.1; agent_waits = waits_in r.0 }

  abbrev pub after_client_text : String → Loops → Loops
  after_client_text text l =
      let r = handle_client_message wire text user_id client_rx (client_task l) in
      record l { app = r.1.app; owned_sessions = r.1.owned_sessions; client_waits = waits_in r.0 }

  pub data Step : Loops → Loops → Type 0 where
    agent_text :
        (l : Loops) (text : String)
        → l.agent_runs ≡ true
        → l.agent_waits ≡ none
        → Step l (after_agent_text text l)
    client_text :
        (l : Loops) (text : String)
        → l.client_runs ≡ true
        → l.client_waits ≡ none
        → Step l (after_client_text text l)
    -- `rx.recv()` gives a message, which goes out on the socket.
    agent_forward :
        (l : Loops) (msg : SignalingMessage) (rest : List SignalingMessage)
        → l.agent_runs ≡ true
        → l.agent_waits ≡ none
        → (l.app.signaling.channels.at agent_rx).queue ≡ msg ∷ rest
        → Step l (record l { app = take_first agent_rx rest l.app })
    client_forward :
        (l : Loops) (msg : SignalingMessage) (rest : List SignalingMessage)
        → l.client_runs ≡ true
        → l.client_waits ≡ none
        → (l.app.signaling.channels.at client_rx).queue ≡ msg ∷ rest
        → Step l (record l { app = take_first client_rx rest l.app })
    -- `presence_refresh.tick()`.
    agent_tick :
        (l : Loops)
        → l.agent_runs ≡ true
        → l.agent_waits ≡ none
        → Step l (record l {
          app = record l.app {
            signaling = refresh_agent (wire.to_string machine_id) conn_id l.app.signaling;
          };
        })
    -- `tx.send(msg).await` returns, and with it the handler.
    agent_resume :
        (l : Loops) (c : ℕ) (msg : SignalingMessage)
        → l.agent_runs ≡ true
        → l.agent_waits ≡ some (c, msg)
        → CanGoOn l.app.signaling.channels c
        → Step l (record l {
          app = with_channels (send c msg l.app.signaling.channels).1 l.app;
          agent_waits = none;
        })
    client_resume :
        (l : Loops) (c : ℕ) (msg : SignalingMessage)
        → l.client_runs ≡ true
        → l.client_waits ≡ some (c, msg)
        → CanGoOn l.app.signaling.channels c
        → Step l (record l {
          app = with_channels (send c msg l.app.signaling.channels).1 l.app;
          client_waits = none;
        })
    -- `socket.recv()` gives the close of the socket, or an error, or a write fails.
    agent_finish :
        (l : Loops)
        → l.agent_runs ≡ true
        → l.agent_waits ≡ none
        → Step l (record l {
          app = agent_disconnected wire machine_id conn_id agent_rx l.app;
          agent_runs = false;
        })
    client_finish :
        (l : Loops)
        → l.client_runs ≡ true
        → l.client_waits ≡ none
        → Step l (record l {
          app = client_disconnected wire client_rx l.owned_sessions l.app;
          client_runs = false;
        })

  pub data Steps : Loops → Loops → Type 0 where
    stay : (l : Loops) → Steps l l
    then : (l l₁ l₂ : Loops) → Step l l₁ → Steps l₁ l₂ → Steps l l₂

  -- Neither loop can do anything.
  abbrev pub IsStuck : Loops → Type 0
  IsStuck l = (l' : Loops) → ¬ (Step l l')
