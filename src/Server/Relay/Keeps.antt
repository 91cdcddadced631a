-- ===== src/Server/Relay/Keeps.antt =====
-- A predicate of the shared state that each building block of the two text handlers of
-- apps/server/src/websocket.rs keeps, the handlers keep.
use remotekvm.Base.{ℕ, Option, none, some, String, str_eq}
use remotekvm.Base.Exec.{Exec, Keeps, Keeps-bind, Keeps-pure, Keeps-if, ◌>>◌}
use remotekvm.Server.Schema.{Uuid, Database, Session}
use remotekvm.Server.Messages.{
  SignalingMessage, connect_request, signaling_offer, signaling_answer, ice_candidate, heartbeat,
}
use remotekvm.Server.Registry.{refresh_agent, register_client_session, notify_agent, send_to_client}
use remotekvm.Server.Sessions.{mark_session_active, record_session_usage}
use remotekvm.Server.App.{AppState, Statement, select}
use remotekvm.Server.Relay.{
  Wire, RelayError, bad_uuid, bad_json, ClientTask, ClientHandler, execute, relay, signal, on_app,
  on_session, push_owned, or_fail, handle_agent_message, agent_message, if_owner, for_owner,
  handle_client_message, client_message, session_owner,
}

-- The building blocks.
pub record KeepsParts (P : AppState → Type 0) : Type 0 where
  pub read : (q : Database → Option Session) → Keeps P (execute (select q))
  pub activate : (id : Uuid) → Keeps P (execute (mark_session_active id))
  pub usage :
      (id : Uuid) (sent received : ℕ) → Keeps P (execute (record_session_usage id sent received))
  pub refresh :
      (machine_id : String) (conn_id : ℕ) → Keeps P (signal (refresh_agent machine_id conn_id))
  pub register :
      (session_id machine_id user_id : String) (tx : ℕ)
      → Keeps P (signal (register_client_session session_id machine_id user_id tx))
  pub to_agent :
      (machine_id : String) (msg : SignalingMessage) → Keeps P (relay (notify_agent machine_id msg))
  pub to_client :
      (session_id : String) (msg : SignalingMessage)
      → Keeps P (relay (send_to_client session_id msg))

Keeps-or_fail :
    {S A : Type 0} {P : S → Type 0} (o : Option A) (e : RelayError) → Keeps P (or_fail {S = S} o e)
unfolding or_fail
Keeps-or_fail none e = record { at = λ s h. h }
Keeps-or_fail (some a) e = record { at = λ s h. h }

Keeps-on_app :
    {A : Type 0} {P : AppState → Type 0} (m : Exec AppState RelayError A)
    → Keeps P m
    → Keeps (λ (t : ClientTask). P t.app) (on_app m)
unfolding on_app
Keeps-on_app m k = record { at = λ t h. k.at t.app h }

Keeps-push_owned :
    (P : AppState → Type 0) (id : String) → Keeps (λ (t : ClientTask). P t.app) (push_owned id)
unfolding push_owned
Keeps-push_owned P id = record { at = λ t h. h }

pub Keeps-on_session :
    {A : Type 0} {P : AppState → Type 0} (wire : Wire) (id : String) (f : Uuid → Statement A)
    → ((u : Uuid) → Keeps P (execute (f u)))
    → Keeps P (on_session wire id f)
unfolding on_session
Keeps-on_session wire id f m =
    Keeps-bind (or_fail (wire.parse_str id) bad_uuid) (λ u. execute (f u))
      (Keeps-or_fail (wire.parse_str id) bad_uuid) m

module _ {P : AppState → Type 0} (m : KeepsParts P) (wire : Wire) where
  agent_message-Keeps :
      (text machine_id : String) (conn_id : ℕ) (msg : SignalingMessage)
      → Keeps P (agent_message wire text machine_id conn_id msg)
  unfolding agent_message
  agent_message-Keeps text machine_id c (signaling_answer session_id answer) =
      Keeps-bind _ _ (Keeps-on_session wire _ _ m.activate) λ _.
        Keeps-bind _ _ (Keeps-on_session wire _ _ (λ id. m.usage id _ _))
          λ _. m.to_client session_id _
  agent_message-Keeps text machine_id c (ice_candidate session_id candidate) =
      Keeps-bind _ _ (Keeps-on_session wire _ _ (λ id. m.usage id _ _))
        λ _. m.to_client session_id _
  agent_message-Keeps text machine_id c heartbeat =
      Keeps-bind _ _ (m.refresh machine_id c) λ _. Keeps-pure _
  agent_message-Keeps text machine_id c _ = Keeps-pure _

  pub handle_agent_message-Keeps :
      (text machine_id : String) (conn_id : ℕ)
      → Keeps P (handle_agent_message wire text machine_id conn_id)
  unfolding handle_agent_message
  handle_agent_message-Keeps text machine_id c =
      Keeps-bind (or_fail (wire.from_str text) bad_json) (agent_message wire text machine_id c)
        (Keeps-or_fail _ _) (agent_message-Keeps text machine_id c)

  if_owner-Keeps :
      (user_id : String) (k : Session → ClientHandler) (o : Option Session)
      → ((row : Session) → Keeps (λ (t : ClientTask). P t.app) (k row))
      → Keeps (λ (t : ClientTask). P t.app) (if_owner wire user_id k o)
  unfolding if_owner
  if_owner-Keeps user_id k none kk = Keeps-pure none
  if_owner-Keeps user_id k (some row) kk =
      Keeps-if (str_eq (wire.to_string row.user_id) user_id) (kk row) (Keeps-pure none)

  for_owner-Keeps :
      (session_id user_id : String) (k : Session → ClientHandler)
      → ((row : Session) → Keeps (λ (t : ClientTask). P t.app) (k row))
      → Keeps (λ (t : ClientTask). P t.app) (for_owner wire session_id user_id k)
  unfolding for_owner
  for_owner-Keeps session_id user_id k kk =
      Keeps-bind (on_app (on_session wire session_id (λ id. select (session_owner id)))) _
        (Keeps-on_app _ (Keeps-on_session wire _ _ (λ id. m.read (session_owner id))))
        (λ o. if_owner-Keeps user_id k o kk)

  -- What the three relays of a client end with.
  usage_relay-Keeps :
      (session_id machine_id : String) (received : ℕ) (msg : SignalingMessage)
      → Keeps
          (λ (t : ClientTask). P t.app)
          (on_app (on_session wire session_id (λ id. record_session_usage id 0 received))
            >> on_app (relay (notify_agent machine_id msg)))
  usage_relay-Keeps session_id machine_id received msg =
      Keeps-bind _ _ (Keeps-on_app _ (Keeps-on_session wire _ _ (λ id. m.usage id 0 received)))
        (λ _. Keeps-on_app _ (m.to_agent machine_id msg))

  client_message-Keeps :
      (text user_id : String) (tx : ℕ) (msg : SignalingMessage)
      → Keeps (λ (t : ClientTask). P t.app) (client_message wire text user_id tx msg)
  unfolding client_message
  client_message-Keeps text user_id tx (connect_request session_id client_id offer) =
      for_owner-Keeps session_id user_id _ λ row.
        Keeps-bind _ _ (Keeps-on_app _ (m.register session_id _ user_id tx))
          λ _. Keeps-bind _ _ (Keeps-push_owned P session_id) λ _. usage_relay-Keeps _ _ _ _
  client_message-Keeps text user_id tx (signaling_offer session_id offer) =
      for_owner-Keeps session_id user_id _ λ row. usage_relay-Keeps _ _ _ _
  client_message-Keeps text user_id tx (ice_candidate session_id candidate) =
      for_owner-Keeps session_id user_id _ λ row. usage_relay-Keeps _ _ _ _
  client_message-Keeps text user_id tx _ = Keeps-pure none

  pub handle_client_message-Keeps :
      (text user_id : String) (tx : ℕ)
      → Keeps (λ (t : ClientTask). P t.app) (handle_client_message wire text user_id tx)
  unfolding handle_client_message
  handle_client_message-Keeps text user_id tx =
      Keeps-bind (or_fail (wire.from_str text) bad_json) (client_message wire text user_id tx)
        (Keeps-or_fail _ _) (client_message-Keeps text user_id tx)
