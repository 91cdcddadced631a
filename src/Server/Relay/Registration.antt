-- ===== src/Server/Relay/Registration.antt =====
-- How long an agent stays registered, over any events of the relay.
use remotekvm.Base.{
  ℕ, ◌≡◌, ◌≢◌, List, [], ◌∷◌, some, String, All, eq_refl, ne→str_eq, Bool-cases, inl, inr,
}
use remotekvm.Base.Exec.{Keeps}
use remotekvm.Base.Maps.{lookup, lookup-insert}
use remotekvm.Server.Schema.{Uuid}
use remotekvm.Server.Messages.{}
use remotekvm.Server.Registry.{
  AgentEntry, next_conn_id, register_agent, unregister_agent_if_current,
}
use remotekvm.Server.Registry.Laws.{
  agents-register_client_session, agents-notify_agent, agents-send_to_client, agents-refresh_agent,
  agents-unregister_client_sessions, lookup-unregister_agent,
}
use remotekvm.Server.Sessions.{end_machine_sessions}
use remotekvm.Server.App.{AppState, Statement}
use remotekvm.Server.App.Selects.{signaling-run_sql}
use remotekvm.Server.App.Keeps.{Keeps-map_err}
use remotekvm.Server.Relay.{
  Wire, execute, relay, signal, agent_connected, agent_disconnected, mark_online, mark_offline,
  client_connected, client_disconnected, end_owned,
}
use remotekvm.Server.Relay.Keeps.{
  KeepsParts, Keeps-on_session, handle_agent_message-Keeps, handle_client_message-Keeps,
}
use remotekvm.Server.Relay.Events.{
  Event, agent_connect, agent_text, agent_disconnect, client_connect, client_text,
  client_disconnect, step, run,
}

-- The machine `k` is registered with this entry.
abbrev pub IsRegistered : String → AgentEntry → AppState → Type 0
IsRegistered k e s = lookup k s.signaling.agents ≡ some e

module _ (k : String) (e : AgentEntry) where
  execute-IsRegistered : {A : Type 0} (f : Statement A) → Keeps (IsRegistered k e) (execute f)
  unfolding execute
  execute-IsRegistered f = Keeps-map_err _ _ (record { at = λ s h. rw (signaling-run_sql f s) h })

  parts-IsRegistered : KeepsParts (IsRegistered k e)
  unfolding signal relay
  parts-IsRegistered = record {
    read = λ q. execute-IsRegistered _;
    activate = λ id. execute-IsRegistered _;
    usage = λ id sent received. execute-IsRegistered _;
    refresh = λ machine_id conn_id. record {
      at = λ s h. rw (agents-refresh_agent machine_id conn_id s.signaling) h;
    };
    register = λ session_id machine_id user_id tx. record {
      at =
          λ s h. rw (agents-register_client_session session_id machine_id user_id tx s.signaling) h;
    };
    to_agent = λ machine_id msg. record {
      at = λ s h. rw (agents-notify_agent machine_id msg s.signaling) h;
    };
    to_client = λ session_id msg. record {
      at = λ s h. rw (agents-send_to_client session_id msg s.signaling) h;
    };
  }

module _ (wire : Wire) (m : Uuid) (e : AgentEntry) where
  -- An event that leaves the registration alone: no other agent of the machine connects, and the
  -- connection itself does not end.
  abbrev pub IsQuiet : Event → Type 0
  IsQuiet (agent_connect n) = n ≢ m
  IsQuiet (agent_disconnect n c tx) = n ≡ m → e.conn_id ≢ c
  IsQuiet _ = Unit {0}

  end_owned-IsRegistered :
      (k : String) (owned : List String) (s : AppState)
      → IsRegistered k e s
      → IsRegistered k e (end_owned wire owned s)
  unfolding end_owned
  end_owned-IsRegistered k [] s h = h
  end_owned-IsRegistered k (id ∷ rest) s h =
      end_owned-IsRegistered k rest _ (
        (Keeps-on_session {P = IsRegistered k e} wire id _ (λ u. execute-IsRegistered k e _)).at s
          h)

  to_string-injective : (n : Uuid) → wire.to_string n ≡ wire.to_string m → n ≡ m
  to_string-injective n p = cc (wire.parse_str-to_string n, wire.parse_str-to_string m)

  agent_disconnected-IsRegistered :
      (n : Uuid) (c tx : ℕ) (s : AppState)
      → (n ≡ m → e.conn_id ≢ c)
      → IsRegistered (wire.to_string m) e s
      → IsRegistered (wire.to_string m) e (agent_disconnected wire n c tx s)
  unfolding agent_disconnected
  agent_disconnected-IsRegistered n c tx s q h =
      let kept =
        lookup-unregister_agent (wire.to_string n) (wire.to_string m) c s.signaling e h
          (λ p. q (to_string-injective n p)) in
      elim (Bool-cases (unregister_agent_if_current (wire.to_string n) c s.signaling).0) [
        | inl current ↦ rw current (
            (execute-IsRegistered _ e (end_machine_sessions n)).at _
              ((execute-IsRegistered _ e (mark_offline n)).at _ kept))
        | inr old ↦ rw old kept
      ]

  step-IsRegistered :
      (ev : Event) (s : AppState)
      → IsQuiet ev
      → IsRegistered (wire.to_string m) e s
      → IsRegistered (wire.to_string m) e (step wire s ev)
  unfolding step
  step-IsRegistered (agent_connect n) s q h =
      unfold agent_connected register_agent next_conn_id in
      rw (lookup-insert, ne→str_eq _ _ (λ p. q (to_string-injective n p)))
        ((execute-IsRegistered (wire.to_string m) e (mark_online n)).at s h)
  step-IsRegistered (agent_text text n c) s q h =
      (handle_agent_message-Keeps (parts-IsRegistered _ e) wire text _ c).at s h
  step-IsRegistered (agent_disconnect n c tx) s q h = agent_disconnected-IsRegistered n c tx s q h
  step-IsRegistered client_connect s q h = unfold client_connected in h
  step-IsRegistered (client_text text user_id tx owned) s q h =
      (handle_client_message-Keeps (parts-IsRegistered _ e) wire text user_id tx).at _ h
  step-IsRegistered (client_disconnect tx owned) s q h =
      unfold client_disconnected in
      end_owned-IsRegistered _ owned _ (rw (agents-unregister_client_sessions owned s.signaling) h)

  run-IsRegistered :
      (evs : List Event) (s : AppState)
      → All IsQuiet evs
      → IsRegistered (wire.to_string m) e s
      → IsRegistered (wire.to_string m) e (run wire s evs)
  unfolding run
  run-IsRegistered [] s q h = h
  run-IsRegistered (ev ∷ evs) s q h =
      run-IsRegistered evs (step wire s ev) q.1 (step-IsRegistered ev s q.0 h)

module _ (wire : Wire) (m : Uuid) (s : AppState) (evs : List Event) where
  -- A socket that connects as an agent is the one registered for its machine after any further
  -- events, as long as no other agent of the machine connects and the socket itself does not end:
  -- also when older sockets of the same machine end meanwhile.
  pub stays_registered :
      let ((conn_id, tx), s') = agent_connected wire m s in
      let entry : AgentEntry = record { conn_id = conn_id; tx = tx } in
      All (IsQuiet wire m entry) evs
      → lookup (wire.to_string m) (run wire s' evs).signaling.agents ≡ some entry
  stays_registered quiet =
      run-IsRegistered wire m _ evs _ quiet
        (unfold agent_connected register_agent in simp (lookup-insert, eq_refl))
