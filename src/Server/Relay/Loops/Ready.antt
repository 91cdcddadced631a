-- ===== src/Server/Relay/Loops/Ready.antt =====
-- Between two turns of both loops of apps/server/src/websocket.rs, while texts fill the channels.
use Prim.Native.String.{len}
use remotekvm.Base.{
  ℕ, zero, suc, ◌+◌, ◌*◌, ◌<◌, ◌≤◌, ◌≡◌, ◌≢◌, refl, sym, ap, ◌∙◌, subst, List, [], ◌∷◌, true, false,
  none, some, String, arith, length, eq_iff, ◌==◌, find, length-append, ==_refl, ne→==,
}
use remotekvm.Base.Maps.{lookup}
use remotekvm.Server.Schema.{Uuid, Session}
use remotekvm.Server.Messages.{ice_candidate}
use remotekvm.Server.Channels.{ws_channel_size}
use remotekvm.Server.Registry.{AgentEntry}
use remotekvm.Server.Sessions.{on_sessions, add_usage, usage_overflows}
use remotekvm.Server.App.{AppState}
use remotekvm.Server.Relay.{Wire, session_owner}
use remotekvm.Server.Relay.Rooms.{with_usage, find-add_usage}
use remotekvm.Server.Relay.Loops.{
  Sockets, Loops, waits_in, with_channels, after_agent_text, after_client_text, agent_text,
  client_text, Steps, stay, then,
}
use remotekvm.Server.Relay.Loops.Filling.{
  add_usage_twice, fits_below, pushed, agent_delivers, client_delivers,
}

module _ (wire : Wire) (sockets : Sockets) (id : Uuid) (session_id : String) (base : List Session)
    (row : Session) (agent : AgentEntry) where
  open sockets use {machine_id, conn_id, user_id, client_rx}

  -- `x` and `y` bytes are counted on the session since `base`, and the channels of the agent and of
  -- the client hold `a` and `c` messages.
  pub record IsReady (l : Loops) (x y a c : ℕ) : Type 0 where
    pub sessions : l.app.db.sessions ≡ add_usage id x y base
    pub quiet : l.app.faults ≡ []
    pub online : lookup (wire.to_string row.machine_id) l.app.signaling.agents ≡ some agent
    pub route : lookup session_id l.app.signaling.clients ≡ some client_rx
    pub agent_idle : (l.agent_runs ≡ true) × (l.agent_waits ≡ none)
    pub client_idle : (l.client_runs ≡ true) × (l.client_waits ≡ none)
    pub agent_open : (l.app.signaling.channels.at agent.tx).is_open ≡ true
    pub agent_queue : length (l.app.signaling.channels.at agent.tx).queue ≡ a
    pub client_open : (l.app.signaling.channels.at client_rx).is_open ≡ true
    pub client_queue : length (l.app.signaling.channels.at client_rx).queue ≡ c

  module _ (known : wire.parse_str session_id ≡ some id) (m n : ℕ)
      (fits : usage_overflows id m n base ≡ false) (differ : agent.tx ≢ client_rx) where
    agent_text-IsReady :
        (text candidate : String) (l : Loops) (x y a c : ℕ)
        → wire.from_str text ≡ some (ice_candidate session_id candidate)
        → IsReady l x y a c
        → c < ws_channel_size
        → x + len text ≤ m
        → y ≤ n
        → IsReady (after_agent_text wire sockets text l) (x + len text) y a (suc c)
    agent_text-IsReady text candidate l x y a c parsed r room hx hy =
        let cs = l.app.signaling.channels in
        let s : AppState =
          with_channels (pushed client_rx (ice_candidate session_id candidate) cs)
            (record l.app { db = on_sessions (add_usage id (len text) 0) l.app.db }) in
        let e =
          agent_delivers wire id session_id known text (wire.to_string machine_id) candidate conn_id
            client_rx l.app parsed r.quiet
            (rw r.sessions (fits_below id x y (len text) 0 m n base fits hx (omega arith))) r.route
            r.client_open (rw r.client_queue room) in
        subst (λ (h : Loops). IsReady h (x + len text) y a (suc c))
          (sym (ap (λ o. record l { app = o.1; agent_waits = waits_in o.0 }) e))
          (record {
            sessions =
                ap (add_usage id (len text) 0) r.sessions
                ∙ add_usage_twice id x y (len text) 0 base
                ∙ ap (λ k. add_usage id (x + len text) k base) (omega arith);
            quiet = r.quiet;
            online = r.online;
            route = r.route;
            agent_idle = (r.agent_idle.0, refl);
            client_idle = r.client_idle;
            agent_open = rw (ne→== agent.tx client_rx differ) r.agent_open;
            agent_queue = rw (ne→== agent.tx client_rx differ) r.agent_queue;
            client_open = rw (==_refl client_rx) r.client_open;
            client_queue = rw (==_refl client_rx) (
                length-append (cs.at client_rx).queue (ice_candidate session_id candidate ∷ [])
                ∙ omega (arith, r.client_queue));
          })

    client_text-IsReady :
        (text candidate : String) (l : Loops) (x y a c : ℕ)
        → find (λ s. s.id == id) base ≡ some row
        → wire.to_string row.user_id ≡ user_id
        → wire.from_str text ≡ some (ice_candidate session_id candidate)
        → IsReady l x y a c
        → a < ws_channel_size
        → x ≤ m
        → y + len text ≤ n
        → IsReady (after_client_text wire sockets text l) x (y + len text) (suc a) c
    unfolding session_owner
    client_text-IsReady text candidate l x y a c found own parsed r room hx hy =
        let cs = l.app.signaling.channels in
        let s : AppState =
          with_channels (pushed agent.tx (ice_candidate session_id candidate) cs)
            (record l.app { db = on_sessions (add_usage id 0 (len text)) l.app.db }) in
        let e =
          client_delivers wire id session_id known text user_id candidate client_rx
            (record { app = l.app; owned_sessions = l.owned_sessions }) (with_usage row x y) agent
            parsed (rw r.sessions (find-add_usage id x y base row found)) ((eq_iff _ user_id).1 own)
            r.quiet (rw r.sessions (fits_below id x y 0 (len text) m n base fits (omega arith) hy))
            r.online r.agent_open (rw r.agent_queue room) in
        subst (λ (h : Loops). IsReady h x (y + len text) (suc a) c)
          (sym (
            ap
              (λ o. record l {
                app = o.1.app;
                owned_sessions = o.1.owned_sessions;
                client_waits = waits_in o.0;
              })
              e))
          (record {
            sessions =
                ap (add_usage id 0 (len text)) r.sessions
                ∙ add_usage_twice id x y 0 (len text) base
                ∙ ap (λ k. add_usage id k (y + len text) base) (omega arith);
            quiet = r.quiet;
            online = r.online;
            route = r.route;
            agent_idle = r.agent_idle;
            client_idle = (r.client_idle.0, refl);
            agent_open = rw (==_refl agent.tx) r.agent_open;
            agent_queue = rw (==_refl agent.tx) (
                length-append (cs.at agent.tx).queue (ice_candidate session_id candidate ∷ [])
                ∙ omega (arith, r.agent_queue));
            client_open = rw (ne→== client_rx agent.tx (λ same. differ (sym same))) r.client_open;
            client_queue = rw (ne→== client_rx agent.tx (λ same. differ (sym same))) r.client_queue;
          })

    -- `k` texts of the agent, where their bytes fit.
    pub fill_client :
        (k : ℕ) (text candidate : String) (l : Loops) (x y a c : ℕ)
        → wire.from_str text ≡ some (ice_candidate session_id candidate)
        → IsReady l x y a c
        → c + k ≤ ws_channel_size
        → x + k * len text ≤ m
        → y ≤ n
        → (l' : Loops) × Steps wire sockets l l' × IsReady l' (x + k * len text) y a (c + k)
    fill_client zero text candidate l x y a c parsed r room hx hy = (l, stay l, ready)
      where
        ready : IsReady l (x + zero * len text) y a (c + zero)
        ready =
            subst (λ k. IsReady l k y a (c + zero)) (omega arith)
              (subst (λ k. IsReady l x y a k) (omega arith) r)
    fill_client (suc k) text candidate l x y a c parsed r room hx hy =
        let l₁ = after_agent_text wire sockets text l in
        let r₁ =
          agent_text-IsReady text candidate l x y a c parsed r (omega arith) (omega arith) hy in
        let (l', steps, r') =
          fill_client k text candidate l₁ (x + len text) y a (suc c) parsed r₁ (omega arith)
            (omega arith) hy in
        (
          l',
          then l l₁ l' (agent_text l text r.agent_idle.0 r.agent_idle.1) steps,
          subst (λ i. IsReady l' i y a (c + suc k)) (omega arith)
              (subst (λ j. IsReady l' (x + len text + k * len text) y a j) (omega arith) r'),
        )

    -- `k` texts of the client.
    pub fill_agent :
        (k : ℕ) (text candidate : String) (l : Loops) (x y a c : ℕ)
        → find (λ s. s.id == id) base ≡ some row
        → wire.to_string row.user_id ≡ user_id
        → wire.from_str text ≡ some (ice_candidate session_id candidate)
        → IsReady l x y a c
        → a + k ≤ ws_channel_size
        → x ≤ m
        → y + k * len text ≤ n
        → (l' : Loops) × Steps wire sockets l l' × IsReady l' x (y + k * len text) (a + k) c
    fill_agent zero text candidate l x y a c found own parsed r room hx hy = (l, stay l, ready)
      where
        ready : IsReady l x (y + zero * len text) (a + zero) c
        ready =
            subst (λ k. IsReady l x k (a + zero) c) (omega arith)
              (subst (λ k. IsReady l x y k c) (omega arith) r)
    fill_agent (suc k) text candidate l x y a c found own parsed r room hx hy =
        let l₁ = after_client_text wire sockets text l in
        let r₁ =
          client_text-IsReady text candidate l x y a c found own parsed r (omega arith) hx
            (omega arith) in
        let (l', steps, r') =
          fill_agent k text candidate l₁ x (y + len text) (suc a) c found own parsed r₁
            (omega arith) hx (omega arith) in
        (
          l',
          then l l₁ l' (client_text l text r.client_idle.0 r.client_idle.1) steps,
          subst (λ i. IsReady l' x i (a + suc k) c) (omega arith)
              (subst (λ j. IsReady l' x (y + len text + k * len text) j c) (omega arith) r'),
        )
