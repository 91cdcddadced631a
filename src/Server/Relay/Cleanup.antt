-- ===== src/Server/Relay/Cleanup.antt =====
-- The end of a connection in apps/server/src/websocket.rs.
use remotekvm.Base.{
  ℕ, ◌≡◌, ◌≢◌, refl, List, [], ◌∷◌, true, false, none, String, arith, eq_iff, eq_refl, ◌==◌, ◌∙◌,
  Option-cases, inl, inr, if◌then◌else◌, All, update_where,
}
use remotekvm.Base.Exec.{◌>>=◌}
use remotekvm.Base.Maps.{lookup, lookup-remove}
use remotekvm.Server.Schema.{Uuid, Session, Machine, ended}
use remotekvm.Server.Channels.{close_channel, dropped}
use remotekvm.Server.Messages.{SignalingMessage}
use remotekvm.Server.Registry.{
  is_current, unregister_agent_if_current, register_client_session, send_to_client,
}
use remotekvm.Server.Sessions.{set_machine_ended, end_machine_sessions, mark_session_ended}
use remotekvm.Server.Registry.Laws.{contains, lookup-unregister_client_sessions}
use remotekvm.Server.App.{AppState, map_err, run_sql}
use remotekvm.Server.App.Selects.{signaling-run_sql}
use remotekvm.Server.Relay.{
  Wire, execute, mark_offline, agent_disconnected, client_disconnected, end_owned, on_session,
  or_fail,
}

module _ (wire : Wire) (m : Uuid) (conn_id tx : ℕ) (s : AppState) where
  -- The end of a socket that is not, or no longer, the one registered for its machine: no table, no
  -- registration, no Redis entry and no other channel changes.
  superseded_disconnect :
      is_current conn_id (lookup (wire.to_string m) s.signaling.agents) ≡ false
      → let s' = agent_disconnected wire m conn_id tx s in
        (s'.db ≡ s.db)
        × (s'.signaling.agents ≡ s.signaling.agents)
        × (s'.signaling.clients ≡ s.signaling.clients)
        × (s'.signaling.redis ≡ s.signaling.redis)
        × ((d : ℕ) → d ≢ tx → s'.signaling.channels.at d ≡ s.signaling.channels.at d)
  unfolding agent_disconnected unregister_agent_if_current close_channel
  superseded_disconnect h =
      (ground arith, ground arith, ground arith, ground arith, λ d ne. ground arith)

set_machine_ended_lem :
    (m : Uuid) (now : ℕ) (ss : List Session)
    → All (λ s. s.machine_id ≡ m → s.status ≡ ended) (set_machine_ended m now ss)
unfolding set_machine_ended
set_machine_ended_lem m now [] = tt
set_machine_ended_lem m now (s ∷ ss) = (ground arith, set_machine_ended_lem m now ss)

abbrev offline : Uuid → List Machine → List Machine
offline m = update_where (λ r. r.id == m) (λ r. record r { online = false })

offline_lem : (m : Uuid) (ms : List Machine) → All (λ r. r.id ≡ m → r.online ≡ false) (offline m ms)
offline_lem m [] = tt
offline_lem m (r ∷ rs) = (ground arith, offline_lem m rs)

module _ (wire : Wire) (m : Uuid) (conn_id tx : ℕ) (s : AppState) where
  -- The end of the socket that is registered for its machine, with no statement failing: the machine
  -- is no longer registered and every other machine is as before, its row is offline, and every
  -- session on it is ended.
  current_disconnect :
      is_current conn_id (lookup (wire.to_string m) s.signaling.agents) ≡ true
      → s.faults ≡ []
      → let s' = agent_disconnected wire m conn_id tx s in
        (lookup (wire.to_string m) s'.signaling.agents ≡ none)
        × ((k : String)
            → k ≢ wire.to_string m
            → lookup k s'.signaling.agents ≡ lookup k s.signaling.agents)
        × All (λ r. r.id ≡ m → r.online ≡ false) s'.db.machines
        × All (λ r. r.machine_id ≡ m → r.status ≡ ended) s'.db.sessions
  unfolding agent_disconnected unregister_agent_if_current execute map_err run_sql
      end_machine_sessions mark_offline
  current_disconnect h quiet = (
    ground (
      arith,
      lookup-remove (wire.to_string m) (wire.to_string m) s.signaling.agents,
      eq_refl (wire.to_string m),
    ),
    λ k ne.
        ground (
          arith,
          lookup-remove (wire.to_string m) k s.signaling.agents,
          eq_iff (wire.to_string m) k,
        ),
    ground (arith, offline_lem m s.db.machines),
    ground (arith, set_machine_ended_lem m s.db.now s.db.sessions),
  )

module _ (wire : Wire) where
  signaling-on_session :
      (id : String) (s : AppState)
      → (on_session wire id mark_session_ended s).1.signaling ≡ s.signaling
  unfolding on_session or_fail execute map_err ◌>>=◌
  signaling-on_session id s = elim (Option-cases (wire.parse_str id)) [
    | inl e ↦ rw (e, or_fail) refl
    | inr (u, e) ↦ rw (e, or_fail) (signaling-run_sql (mark_session_ended u) s)
  ]

  signaling-end_owned :
      (owned : List String) (s : AppState) → (end_owned wire owned s).signaling ≡ s.signaling
  unfolding end_owned
  signaling-end_owned [] s = refl
  signaling-end_owned (id ∷ rest) s = signaling-end_owned rest _ ∙ signaling-on_session id s

  -- The end of a client's socket removes the registration of every session that it ever registered,
  -- whichever socket is registered for it now, and no other one.
  client_disconnect_registrations :
      (tx : ℕ) (owned : List String) (s : AppState) (k : String)
      → lookup k (client_disconnected wire tx owned s).signaling.clients
        ≡ (if contains k owned then none else lookup k s.signaling.clients)
  unfolding client_disconnected
  client_disconnect_registrations tx owned s k =
      rw (signaling-end_owned owned _) (lookup-unregister_client_sessions k owned s.signaling)

  -- A session that a newer socket has registered is lost when an older socket that once registered
  -- it ends: what the agent sends for it then is dropped.
  pub newer_socket_dropped :
      (tx tx' : ℕ) (owned : List String) (s : AppState) (session_id machine_id user_id : String)
      (msg : SignalingMessage)
      → contains session_id owned ≡ true
      → let s' = record s {
        signaling = register_client_session session_id machine_id user_id tx' s.signaling;
      } in
        (send_to_client session_id msg (client_disconnected wire tx owned s').signaling).0 ≡ dropped
  unfolding send_to_client
  newer_socket_dropped tx tx' owned s session_id machine_id user_id msg h =
      let s' : AppState = record s {
        signaling = register_client_session session_id machine_id user_id tx' s.signaling;
      } in
      ground (arith, client_disconnect_registrations tx owned s' session_id)
