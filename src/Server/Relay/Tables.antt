-- ===== src/Server/Relay/Tables.antt =====
-- A predicate of the tables that the relay's statements maintain, every event of the relay keeps.
use remotekvm.Base.{ℕ, List, [], ◌∷◌, String, arith, Bool-cases, inl, inr}
use remotekvm.Base.Exec.{Keeps}
use remotekvm.Server.Schema.{Uuid, Database}
use remotekvm.Server.Registry.{unregister_agent_if_current}
use remotekvm.Server.Sessions.{
  mark_session_active, mark_session_ended, end_machine_sessions, record_session_usage,
}
use remotekvm.Server.App.{AppState, Statement}
use remotekvm.Server.App.Keeps.{Maintains, OnDb, Keeps-run_sql, Keeps-map_err}
use remotekvm.Server.Relay.{
  Wire, execute, relay, signal, mark_online, mark_offline, agent_connected, agent_disconnected,
  client_connected, client_disconnected, end_owned,
}
use remotekvm.Server.Relay.Events.{
  Event, agent_connect, agent_text, agent_disconnect, client_connect, client_text,
  client_disconnect, step, run,
}
use remotekvm.Server.Relay.Keeps.{
  KeepsParts, Keeps-on_session, handle_agent_message-Keeps, handle_client_message-Keeps,
}

pub record MaintainsRelay (Q : Database → Type 0) : Type 0 where
  pub activate : (id : Uuid) → Maintains (Unit {0}) Q (mark_session_active id)
  pub finish : (id : Uuid) → Maintains (Unit {0}) Q (mark_session_ended id)
  pub finish_machine : (id : Uuid) → Maintains (Unit {0}) Q (end_machine_sessions id)
  pub usage :
      (id : Uuid) (sent received : ℕ)
      → Maintains (Unit {0}) Q (record_session_usage id sent received)
  pub online : (id : Uuid) → Maintains (Unit {0}) Q (mark_online id)
  pub offline : (id : Uuid) → Maintains (Unit {0}) Q (mark_offline id)

execute-OnDb :
    {A : Type 0} {Q : Database → Type 0} (f : Statement A)
    → Maintains A Q f
    → Keeps (OnDb Q) (execute f)
unfolding execute
execute-OnDb f m = Keeps-map_err _ _ (Keeps-run_sql f m)

module _ {Q : Database → Type 0} (m : MaintainsRelay Q) where
  parts-OnDb : KeepsParts (OnDb Q)
  unfolding signal relay
  parts-OnDb = record {
    read = λ q. execute-OnDb {Q = Q} _ (record { after = λ db a db' e h. ground arith });
    activate = λ id. execute-OnDb {Q = Q} _ (m.activate id);
    usage = λ id sent received. execute-OnDb {Q = Q} _ (m.usage id sent received);
    refresh = λ machine_id conn_id. record { at = λ s h. h };
    register = λ session_id machine_id user_id tx. record { at = λ s h. h };
    to_agent = λ machine_id msg. record { at = λ s h. h };
    to_client = λ session_id msg. record { at = λ s h. h };
  }

  module _ (wire : Wire) where
    end_owned-OnDb : (owned : List String) (s : AppState) → Q s.db → Q (end_owned wire owned s).db
    unfolding end_owned
    end_owned-OnDb [] s h = h
    end_owned-OnDb (id ∷ rest) s h = end_owned-OnDb rest _ (
        (Keeps-on_session {P = OnDb Q} wire id mark_session_ended
            (λ u. execute-OnDb _ (m.finish u))).at
          s h)

    agent_disconnected-OnDb :
        (id : Uuid) (conn_id tx : ℕ) (s : AppState)
        → Q s.db
        → Q (agent_disconnected wire id conn_id tx s).db
    unfolding agent_disconnected
    agent_disconnected-OnDb id conn_id tx s h =
        elim (Bool-cases (unregister_agent_if_current (wire.to_string id) conn_id s.signaling).0) [
          | inl e ↦
              rw e (
                (execute-OnDb _ (m.finish_machine id)).at _
                  ((execute-OnDb _ (m.offline id)).at _ h))
          | inr e ↦ rw e h
        ]

    step-OnDb : (e : Event) (s : AppState) → Q s.db → Q (step wire s e).db
    unfolding step agent_connected client_connected client_disconnected
    step-OnDb (agent_connect id) s h = (execute-OnDb _ (m.online id)).at s h
    step-OnDb (agent_text text id c) s h =
        (handle_agent_message-Keeps parts-OnDb wire text _ c).at s h
    step-OnDb (agent_disconnect id c tx) s h = agent_disconnected-OnDb id c tx s h
    step-OnDb client_connect s h = h
    step-OnDb (client_text text user_id tx owned) s h =
        (handle_client_message-Keeps parts-OnDb wire text user_id tx).at _ h
    step-OnDb (client_disconnect tx owned) s h = end_owned-OnDb owned _ h

    pub run-OnDb : (es : List Event) (s : AppState) → Q s.db → Q (run wire s es).db
    unfolding run
    run-OnDb [] s h = h
    run-OnDb (e ∷ es) s h = run-OnDb es (step wire s e) (step-OnDb e s h)
