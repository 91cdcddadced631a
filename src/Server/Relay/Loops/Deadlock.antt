-- ===== src/Server/Relay/Loops/Deadlock.antt =====
-- Two loops of apps/server/src/websocket.rs that wait for each other.
use Prim.Native.String.{len}
use remotekvm.Base.{
  ℕ, ◌+◌, ◌-◌, ◌*◌, ◌≤◌, ◌≢◌, ◌≡◌, refl, sym, subst, ◌∙◌, [], true, false, none, some, String,
  arith, length,
}
use remotekvm.Base.Maps.{lookup}
use remotekvm.Server.Schema.{Uuid, Session}
use remotekvm.Server.Messages.{ice_candidate}
use remotekvm.Server.Channels.{ws_channel_size}
use remotekvm.Server.Registry.{AgentEntry}
use remotekvm.Server.Sessions.{usage_overflows}
use remotekvm.Server.Relay.{Wire, session_owner}
use remotekvm.Server.Relay.Rooms.{with_usage, find-add_usage}
use native.Mathlib.Nat.{mul-le-mul_right}
use remotekvm.Server.Relay.Loops.Filling.{add_usage_twice, add_usage_none, fits_below}
use remotekvm.Server.Relay.Loops.Ready.{IsReady, fill_client, fill_agent}
use remotekvm.Server.Relay.Loops.Blocked.{IsFull, Waits, last_texts}
use remotekvm.Server.Relay.Loops.{
  Sockets, Loops, after_agent_text, after_client_text, Steps, stay, then, IsStuck,
}

both :
    (wire : Wire) (sockets : Sockets) (l l₁ l₂ : Loops)
    → Steps wire sockets l l₁
    → Steps wire sockets l₁ l₂
    → Steps wire sockets l l₂
both wire sockets l l₁ l₂ (stay _) later = later
both wire sockets l l₁ l₂ (then _ l' _ step rest) later =
    then l l' l₂ step (both wire sockets l' l₁ l₂ rest later)

times_below : (k n : ℕ) → k ≤ ws_channel_size → k * n + n ≤ 65 * n
times_below k n h = let below = mul-le-mul_right n h in omega arith

module _ (wire : Wire) (sockets : Sockets) (id : Uuid) (session_id to_client to_agent : String)
    (candidate candidate' : String) (l : Loops) (row : Session) (agent : AgentEntry) where
  open sockets use {agent_rx, client_rx}

  -- The deadlock. An agent is registered for the machine of a session and a client for the session,
  -- which belongs to its user, over two channels. Both loops are between two turns with their channels
  -- open, however full, no statement fails, and the session's counters have room for 65 of each text.
  -- Then texts with a candidate of the session, on both sockets and before either loop takes a message
  -- from its channel, lead to a state in which each handler waits for room in the other's channel, and
  -- no turn of either loop is possible any more, not even the one that notices that its socket is
  -- closed.
  pub deadlock_lem :
      wire.parse_str session_id ≡ some id
      → wire.from_str to_client ≡ some (ice_candidate session_id candidate)
      → wire.from_str to_agent ≡ some (ice_candidate session_id candidate')
      → session_owner id l.app.db ≡ some row
      → wire.to_string row.user_id ≡ sockets.user_id
      → lookup (wire.to_string row.machine_id) l.app.signaling.agents ≡ some agent
      → agent.tx ≡ agent_rx
      → agent_rx ≢ client_rx
      → lookup session_id l.app.signaling.clients ≡ some client_rx
      → l.app.faults ≡ []
      → usage_overflows id (65 * len to_client) (65 * len to_agent) l.app.db.sessions ≡ false
      → (l.agent_runs ≡ true) × (l.agent_waits ≡ none)
      → (l.client_runs ≡ true) × (l.client_waits ≡ none)
      → (l.app.signaling.channels.at agent_rx).is_open ≡ true
      → (l.app.signaling.channels.at client_rx).is_open ≡ true
      → length (l.app.signaling.channels.at agent_rx).queue ≤ ws_channel_size
      → length (l.app.signaling.channels.at client_rx).queue ≤ ws_channel_size
      → (l' : Loops) × Steps wire sockets l l'
        × Waits l' client_rx
            (ice_candidate session_id candidate)
            agent_rx
            (ice_candidate session_id candidate')
        × IsStuck wire sockets l'
  unfolding session_owner
  deadlock_lem known p q found own online same differ route quiet fits agent_idle client_idle open_a
        open_c most_a most_c =
      let base = l.app.db.sessions in
      let cs = l.app.signaling.channels in
      let a = length (cs.at agent.tx).queue in
      let c = length (cs.at client_rx).queue in
      let most : a ≤ ws_channel_size = rw same most_a in
      let i = ws_channel_size - c in
      let j = ws_channel_size - a in
      let x = 0 + i * len to_client in
      let y = 0 + j * len to_agent in
      let hx : x + len to_client ≤ 65 * len to_client =
        let below = times_below i (len to_client) (omega arith) in omega arith in
      let hy : y + len to_agent ≤ 65 * len to_agent =
        let below = times_below j (len to_agent) (omega arith) in omega arith in
      let r : IsReady wire sockets id session_id base row agent l 0 0 a c = record {
        sessions = sym (add_usage_none id base);
        quiet = quiet;
        online = online;
        route = route;
        agent_idle = agent_idle;
        client_idle = client_idle;
        agent_open = rw same open_a;
        agent_queue = refl;
        client_open = open_c;
        client_queue = refl;
      } in
      let apart : agent.tx ≢ client_rx = rw same differ in
      let (l₁, steps₁, r₁) =
        fill_client wire sockets id session_id base row agent known (65 * len to_client)
          (65 * len to_agent) fits apart i to_client candidate l 0 0 a c p r (omega arith)
          (omega arith) (omega arith) in
      let (l₂, steps₂, r₂) =
        fill_agent wire sockets id session_id base row agent known (65 * len to_client)
          (65 * len to_agent) fits apart j to_agent candidate' l₁ x 0 a (c + i) found own q r₁
          (omega arith) (omega arith) (omega arith) in
      let last =
        last_texts wire sockets id session_id to_client to_agent candidate candidate' l₂
          (with_usage row x y) agent known p q
          (rw r₂.sessions (find-add_usage id x y base row found)) own r₂.online same r₂.route
          r₂.quiet
          (rw r₂.sessions (
            fits_below id x y (len to_client) 0 (65 * len to_client) (65 * len to_agent) base fits
              hx (omega arith)))
          (rw (r₂.sessions, add_usage_twice id x y (len to_client) 0 base)
            (fits_below id (x + len to_client) (y + 0) 0 (len to_agent) (65 * len to_client)
              (65 * len to_agent) base fits (omega arith) (omega arith)))
          r₂.agent_idle r₂.client_idle
          (subst (λ d. IsFull l₂.app.signaling.channels d) same
            (record { full = r₂.agent_queue ∙ omega arith; open_end = r₂.agent_open }))
          (record { full = r₂.client_queue ∙ omega arith; open_end = r₂.client_open }) in
      let l₃ =
        after_client_text wire sockets to_agent (after_agent_text wire sockets to_client l₂) in
      (
        l₃,
        both wire sockets l l₁ l₃ steps₁ (both wire sockets l₁ l₂ l₃ steps₂ last.0),
        subst
            (λ d.
              Waits l₃ client_rx (ice_candidate session_id candidate) d
                (ice_candidate session_id candidate'))
            same last.1,
        last.2,
      )
