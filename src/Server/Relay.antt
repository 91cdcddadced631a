-- ===== src/Server/Relay.antt =====
-- The relay of apps/server/src/websocket.rs: what the server does with each text of an agent's or a
-- client's WebSocket, and at the two ends of a connection. `serde_json` and `uuid` are not code of
-- this repository: they enter as the record `Wire`.
pub mod Events
pub mod Keeps
pub mod Tables
pub mod Lifecycle
pub mod Access
pub mod Rooms
pub mod Forwarding
pub mod Cleanup
pub mod Registration
pub mod Loops
use Prim.Native.String.{len}
use remotekvm.Base.{
  ℕ, ◌≡◌, List, [], ◌∷◌, ◌++◌, Bool, true, false, Option, none, some, String, str_eq, ◌==◌,
  if◌then◌else◌, find, update_where,
}
use remotekvm.Base.Exec.{Result, ok, err, Exec, pure, raise, modify, ◌>>=◌, ◌>>◌}
use remotekvm.Server.Schema.{Uuid, Session, Machine, Database}
use remotekvm.Server.Messages.{
  SignalingMessage, connect_request, connect_response, signaling_offer, signaling_answer,
  ice_candidate, heartbeat,
}
use remotekvm.Server.Channels.{Channels, Delivery, open_channel, close_channel}
use remotekvm.Server.Registry.{
  SignalingState, next_conn_id, register_agent, refresh_agent, unregister_agent_if_current,
  register_client_session, unregister_client_sessions, notify_agent, send_to_client,
}
use remotekvm.Server.Sessions.{
  mark_session_active, mark_session_ended, end_machine_sessions, record_session_usage,
}
use remotekvm.Server.App.{AppState, SqlError, Statement, run_sql, map_err, select, update}

pub record Wire : Type 0 where
  -- `serde_json::from_str`.
  pub from_str : String → Option SignalingMessage
  -- `Uuid::parse_str` and `Uuid::to_string`.
  pub parse_str : String → Option Uuid
  pub to_string : Uuid → String
  pub parse_str-to_string : (u : Uuid) → parse_str (to_string u) ≡ some u

-- What `?` returns from the handlers, for the caller to log.
pub data RelayError : Type 0 where
  bad_json bad_uuid : RelayError
  database : SqlError → RelayError

-- The outcome of the one message that a text may set off: nothing was sent, or its delivery.
abbrev pub Handler : Type 0
Handler = Exec AppState RelayError (Option Delivery)

unfoldable pub or_fail : {S A : Type 0} → Option A → RelayError → Exec S RelayError A
or_fail o e s = elim o [ none ↦ (err e, s) | some a ↦ (ok a, s) ]

unfoldable pub execute : {A : Type 0} → Statement A → Exec AppState RelayError A
execute f = map_err database (run_sql f)

-- A call that may send.
unfoldable pub relay : (SignalingState → Delivery × SignalingState) → Handler
relay f s = let (d, st) = f s.signaling in (ok (some d), record s { signaling = st })

unfoldable pub signal : (SignalingState → SignalingState) → Exec AppState RelayError (Unit {0})
unfolding modify
signal f = modify (λ s. record s { signaling = f s.signaling })

-- `SELECT user_id, machine_id FROM sessions WHERE id = $1`.
unfoldable pub session_owner : Uuid → Database → Option Session
session_owner id db = find (λ s. s.id == id) db.sessions

-- The task of a client's socket: the shared state, and the sessions that it registered.
pub record ClientTask : Type 0 where
  pub app : AppState
  pub owned_sessions : List String

abbrev pub ClientHandler : Type 0
ClientHandler = Exec ClientTask RelayError (Option Delivery)

unfoldable pub on_app : {A : Type 0} → Exec AppState RelayError A → Exec ClientTask RelayError A
on_app m t = ((m t.app).0, record t { app = (m t.app).1 })

unfoldable pub push_owned : String → Exec ClientTask RelayError (Unit {0})
unfolding modify
push_owned session_id =
    modify λ t. record t { owned_sessions = t.owned_sessions ++ session_id ∷ [] }

-- `UPDATE machines SET online = …`.
unfoldable pub mark_online : Uuid → Statement (Unit {0})
mark_online id = update λ db. record db {
  machines =
      update_where (λ m. m.id == id) (λ m. record m { online = true; last_seen = some db.now })
        db.machines;
}

unfoldable pub mark_offline : Uuid → Statement (Unit {0})
mark_offline id = update λ db. record db {
  machines = update_where (λ m. m.id == id) (λ m. record m { online = false }) db.machines;
}

-- The receiving end goes when the socket's task returns.
abbrev pub drop_receiver : ℕ → AppState → AppState
drop_receiver tx s = record s {
  signaling = record s.signaling { channels = close_channel tx s.signaling.channels };
}

module _ (wire : Wire) where
  open wire use {from_str, parse_str, to_string}

  -- The three helpers that parse their session id first.
  pub on_session : {A : Type 0} → String → (Uuid → Statement A) → Exec AppState RelayError A
  on_session session_id f = do id ← or_fail (parse_str session_id) bad_uuid; execute (f id)

  agent_message : String → String → ℕ → SignalingMessage → Handler
  agent_message text machine_id conn_id (signaling_answer session_id answer) = do
    on_session session_id mark_session_active
    on_session session_id (λ id. record_session_usage id (len text) 0)
    relay (send_to_client session_id (connect_response session_id "accepted" (some answer)))
  agent_message text machine_id conn_id (ice_candidate session_id candidate) = do
    on_session session_id (λ id. record_session_usage id (len text) 0)
    relay (send_to_client session_id (ice_candidate session_id candidate))
  agent_message text machine_id conn_id heartbeat = do
    signal (refresh_agent machine_id conn_id)
    pure none
  agent_message text machine_id conn_id _ = pure none

  pub handle_agent_message : String → String → ℕ → Handler
  handle_agent_message text machine_id conn_id = do
    msg ← or_fail (from_str text) bad_json
    agent_message text machine_id conn_id msg

  -- The ownership check before each of the client's three relays; what follows it runs only for a
  -- session of this user.
  if_owner : String → (Session → ClientHandler) → Option Session → ClientHandler
  if_owner user_id k none = pure none
  if_owner user_id k (some row) =
      if str_eq (to_string row.user_id) user_id then k row else pure none

  for_owner : String → String → (Session → ClientHandler) → ClientHandler
  for_owner session_id user_id k = do
    session ← on_app (on_session session_id (λ id. select (session_owner id)))
    if_owner user_id k session

  client_message : String → String → ℕ → SignalingMessage → ClientHandler
  client_message text user_id tx (connect_request session_id client_id offer) =
      for_owner session_id user_id λ session. do
        on_app
            (signal (register_client_session session_id (to_string session.machine_id) user_id tx))
        push_owned session_id
        on_app (on_session session_id (λ id. record_session_usage id 0 (len text)))
        on_app (
            relay (
              notify_agent (to_string session.machine_id)
                (connect_request session_id user_id offer)))
  client_message text user_id tx (signaling_offer session_id offer) =
      for_owner session_id user_id λ session. do
        on_app (on_session session_id (λ id. record_session_usage id 0 (len text)))
        on_app
            (relay (notify_agent (to_string session.machine_id) (signaling_offer session_id offer)))
  client_message text user_id tx (ice_candidate session_id candidate) =
      for_owner session_id user_id λ session. do
        on_app (on_session session_id (λ id. record_session_usage id 0 (len text)))
        on_app (
            relay
              (notify_agent (to_string session.machine_id) (ice_candidate session_id candidate)))
  client_message text user_id tx _ = pure none

  pub handle_client_message : String → String → ℕ → ClientHandler
  handle_client_message text user_id tx = do
    msg ← or_fail (from_str text) bad_json
    client_message text user_id tx msg

  -- The head of `handle_agent_socket`, up to its loop: the connection's id and its channel.
  unfoldable pub agent_connected : Uuid → AppState → (ℕ × ℕ) × AppState
  unfolding execute mark_online
  agent_connected machine_id s =
      let (r, s') = execute (mark_online machine_id) s in
      let (conn_id, st) = next_conn_id s'.signaling in
      let (tx, cs) = open_channel st.channels in
      (
        (conn_id, tx),
        record s' {
          signaling =
              register_agent (to_string machine_id) conn_id tx (record st { channels = cs });
        },
      )

  -- Its end, after the loop; the errors of the two statements are logged.
  pub agent_disconnected : Uuid → ℕ → ℕ → AppState → AppState
  unfolding execute
  agent_disconnected machine_id conn_id tx s =
      let (was_current, st) =
        unregister_agent_if_current (to_string machine_id) conn_id s.signaling in
      let s₁ = record s { signaling = st } in
      drop_receiver tx (
        if was_current
        then (execute (end_machine_sessions machine_id) (execute (mark_offline machine_id) s₁).1).1
        else s₁)

  -- `handle_client_socket` opens its channel, and at its end gives up the sessions it registered.
  end_owned : List String → AppState → AppState
  unfolding execute
  end_owned [] s = s
  end_owned (session_id ∷ rest) s = end_owned rest (on_session session_id mark_session_ended s).1

  pub client_disconnected : ℕ → List String → AppState → AppState
  unfolding end_owned
  client_disconnected tx owned s =
      drop_receiver tx
        (end_owned owned (record s { signaling = unregister_client_sessions owned s.signaling }))

pub client_connected : AppState → ℕ × AppState
client_connected s =
    let (tx, cs) = open_channel s.signaling.channels in
    (tx, record s { signaling = record s.signaling { channels = cs } })
