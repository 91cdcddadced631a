-- ===== src/Server/Registry/Laws.antt =====
-- What the operations on the two maps of `SignalingState` do to a lookup, and what they leave alone.
use remotekvm.Base.{
  ℕ, ◌≡◌, refl, ◌≢◌, List, [], ◌∷◌, Bool, none, some, String, arith, str_eq, eq_iff, any,
  if◌then◌else◌,
}
use remotekvm.Base.Maps.{Map, lookup, remove, lookup-remove}
use remotekvm.Server.Messages.{SignalingMessage}
use remotekvm.Server.Registry.{
  SignalingState, AgentEntry, remove_all, unregister_client_sessions, register_client_session,
  unregister_agent_if_current, refresh_agent, notify_agent, send_to_client, is_agent_online,
  contains_key,
}

abbrev pub contains : String → List String → Bool
contains k = any (λ j. str_eq j k)

lookup-remove_all :
    (k : String) (ks : List String) (m : Map ℕ)
    → lookup k (remove_all ks m) ≡ (if contains k ks then none else lookup k m)
unfolding remove_all
lookup-remove_all k [] m = refl
lookup-remove_all k (j ∷ ks) m =
    ground (arith, lookup-remove_all k ks (remove j m), lookup-remove j k m)

pub lookup-unregister_client_sessions :
    (k : String) (ks : List String) (st : SignalingState)
    → lookup k (unregister_client_sessions ks st).clients
      ≡ (if contains k ks then none else lookup k st.clients)
unfolding unregister_client_sessions
lookup-unregister_client_sessions k ks st = lookup-remove_all k ks st.clients

-- `is_agent_online` is the local map alone: what Redis knows never makes a machine reachable.
pub is_agent_online_lem :
    (machine_id : String) (st : SignalingState)
    → ((is_agent_online machine_id st).0 ≡ contains_key machine_id st.agents)
      × ((is_agent_online machine_id st).1.agents ≡ st.agents)
      × ((is_agent_online machine_id st).1.clients ≡ st.clients)
      × ((is_agent_online machine_id st).1.channels ≡ st.channels)
unfolding is_agent_online
is_agent_online_lem machine_id st = ground arith

pub agents-register_client_session :
    (session_id machine_id user_id : String) (tx : ℕ) (st : SignalingState)
    → (register_client_session session_id machine_id user_id tx st).agents ≡ st.agents
unfolding register_client_session
agents-register_client_session session_id machine_id user_id tx st = refl

pub agents-notify_agent :
    (machine_id : String) (msg : SignalingMessage) (st : SignalingState)
    → (notify_agent machine_id msg st).1.agents ≡ st.agents
unfolding notify_agent
agents-notify_agent machine_id msg st = ground arith

pub agents-send_to_client :
    (session_id : String) (msg : SignalingMessage) (st : SignalingState)
    → (send_to_client session_id msg st).1.agents ≡ st.agents
unfolding send_to_client
agents-send_to_client session_id msg st = ground arith

pub agents-refresh_agent :
    (machine_id : String) (conn_id : ℕ) (st : SignalingState)
    → (refresh_agent machine_id conn_id st).agents ≡ st.agents
unfolding refresh_agent
agents-refresh_agent machine_id conn_id st = refl

pub agents-unregister_client_sessions :
    (ks : List String) (st : SignalingState) → (unregister_client_sessions ks st).agents ≡ st.agents
unfolding unregister_client_sessions
agents-unregister_client_sessions ks st = refl

-- The entry of a machine goes only when its own connection unregisters.
pub lookup-unregister_agent :
    (m k : String) (conn_id : ℕ) (st : SignalingState) (e : AgentEntry)
    → lookup k st.agents ≡ some e
    → (m ≡ k → e.conn_id ≢ conn_id)
    → lookup k (unregister_agent_if_current m conn_id st).1.agents ≡ some e
unfolding unregister_agent_if_current
lookup-unregister_agent m k conn_id st e h other =
    ground (arith, lookup-remove m k st.agents, eq_iff m k)
