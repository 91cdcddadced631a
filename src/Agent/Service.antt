-- ===== src/Agent/Service.antt =====
-- The Windows service that keeps one agent for each user session: `SessionAgents` and
-- `run_controller` of apps/agent/src/windows/service.rs. What Windows answers at an event (the
-- active sessions, or a failure to list them; whether an agent can be spawned; which processes run)
-- comes with the event. A `HashMap` is an association list, read by `agent_of`.
pub mod Reconcile
pub mod Controller
pub mod CommandLine
use remotekvm.Base.{
  ℕ, List, [], ◌∷◌, ◌++◌, Bool, true, false, not, ◌&&◌, ◌||◌, Option, none, some, ◌==◌, any, filter,
  map, if◌then◌else◌,
}
use remotekvm.Base.Exec.{Result, ok, err}

abbrev pub contains : ℕ → List ℕ → Bool
contains id ids = any (λ other. other == id) ids

pub data SessionChangeReason : Type 0 where
  console_connect : SessionChangeReason
  console_disconnect : SessionChangeReason
  remote_connect : SessionChangeReason
  remote_disconnect : SessionChangeReason
  session_logon : SessionChangeReason
  session_logoff : SessionChangeReason
  session_lock : SessionChangeReason
  session_unlock : SessionChangeReason
  session_remote_control : SessionChangeReason
  session_create : SessionChangeReason
  session_terminate : SessionChangeReason

-- What the reasons ask for.
pub data Wanted : Type 0 where
  start : Wanted
  end : Wanted
  nothing : Wanted

unfoldable pub wanted_by : SessionChangeReason → Wanted
wanted_by SessionChangeReason.console_connect = Wanted.start
wanted_by SessionChangeReason.remote_connect = Wanted.start
wanted_by SessionChangeReason.session_logon = Wanted.start
wanted_by SessionChangeReason.session_unlock = Wanted.start
wanted_by SessionChangeReason.session_create = Wanted.start
wanted_by SessionChangeReason.console_disconnect = Wanted.end
wanted_by SessionChangeReason.remote_disconnect = Wanted.end
wanted_by SessionChangeReason.session_logoff = Wanted.end
wanted_by SessionChangeReason.session_terminate = Wanted.end
wanted_by SessionChangeReason.session_lock = Wanted.nothing
wanted_by SessionChangeReason.session_remote_control = Wanted.nothing

module _ (P : Type 0) where
  pub record System : Type 0 where
    pub active_sessions : Option (List ℕ)
    pub spawn_session_agent : ℕ → Option P
    pub is_running : P → Bool

  -- `terminated` are the processes that `TerminateProcess` was called for.
  pub record SessionAgents : Type 0 where
    pub agents : List (ℕ × P)
    pub terminated : List P

  -- The error is a failure to list the sessions.
  abbrev pub Outcome : Type 0
  Outcome = Result (Unit {0}) (Unit {0}) × SessionAgents

  -- One turn of the `select!` of `run_controller`.
  pub data Event : Type 0 where
    ctrl_c : System → Event
    stop : System → Event
    channel_closed : System → Event
    session_change : System → ℕ → SessionChangeReason → Event
    tick : System → Event

  pub data Run : Type 0 where
    waiting : SessionAgents → Run
    finished : SessionAgents → Run
    failed : SessionAgents → Run

module _ {P : Type 0} where
  unfoldable pub agent_of : ℕ → List (ℕ × P) → Option P
  agent_of id [] = none
  agent_of id ((held, agent) ∷ agents) =
      let rest = agent_of id agents in if held == id then some agent else rest

  abbrev pub is_held : Option P → Bool
  is_held none = false
  is_held (some agent) = true

  unfoldable pub without : ℕ → List (ℕ × P) → List (ℕ × P)
  without id [] = []
  without id ((held, agent) ∷ agents) =
      let rest = without id agents in if held == id then rest else (held, agent) ∷ rest

  abbrev pub spawned : ℕ → Option P → SessionAgents P → SessionAgents P
  spawned id none s = s
  spawned id (some agent) s = record s { agents = (id, agent) ∷ s.agents }

  unfoldable pub ensure_agent : System P → ℕ → SessionAgents P → SessionAgents P
  ensure_agent w id s =
      if id == 0 || is_held (agent_of id s.agents)
      then s
      else spawned id (w.spawn_session_agent id) s

  abbrev pub terminate : System P → P → List P → List P
  terminate w agent terminated = if w.is_running agent then terminated ++ agent ∷ [] else terminated

  abbrev pub stopped : System P → ℕ → Option P → SessionAgents P → SessionAgents P
  stopped w id none s = s
  stopped w id (some agent) s = record {
    agents = without id s.agents;
    terminated = terminate w agent s.terminated;
  }

  unfoldable pub stop_session : System P → ℕ → SessionAgents P → SessionAgents P
  stop_session w id s = stopped w id (agent_of id s.agents) s

  unfoldable pub ensure_each : System P → List ℕ → SessionAgents P → SessionAgents P
  ensure_each w [] s = s
  ensure_each w (id ∷ ids) s = ensure_each w ids (ensure_agent w id s)

  unfoldable pub stop_each : System P → List ℕ → SessionAgents P → SessionAgents P
  stop_each w [] s = s
  stop_each w (id ∷ ids) s = stop_each w ids (stop_session w id s)

  unfoldable pub keys : List (ℕ × P) → List ℕ
  keys [] = []
  keys ((id, agent) ∷ agents) = id ∷ keys agents

  unfoldable pub stop_all : System P → SessionAgents P → SessionAgents P
  stop_all w s = stop_each w (keys s.agents) s

  unfoldable pub running_only : System P → List (ℕ × P) → List (ℕ × P)
  running_only w agents = filter (λ entry. w.is_running entry.1) agents

  unfoldable pub reap_exited : System P → SessionAgents P → SessionAgents P
  reap_exited w s = record s { agents = running_only w s.agents }

  unfoldable pub reconcile_with : System P → List ℕ → SessionAgents P → SessionAgents P
  reconcile_with w active s =
      let s' = ensure_each w active s in
      stop_each w (filter (λ id. not (contains id active)) (keys s'.agents)) s'

  abbrev pub reconciled : System P → Option (List ℕ) → SessionAgents P → Outcome P
  reconciled w none s = (err tt, s)
  reconciled w (some active) s = (ok tt, reconcile_with w active s)

  unfoldable pub reconcile_active_sessions : System P → SessionAgents P → Outcome P
  reconcile_active_sessions w s = reconciled w w.active_sessions s

  abbrev pub started : System P → ℕ → Option (List ℕ) → SessionAgents P → Outcome P
  started w id none s = (err tt, s)
  started w id (some active) s = (ok tt, if contains id active then ensure_agent w id s else s)

  abbrev pub changed : System P → ℕ → Wanted → SessionAgents P → Outcome P
  changed w id Wanted.start s = started w id w.active_sessions s
  changed w id Wanted.end s = (ok tt, stop_session w id s)
  changed w id Wanted.nothing s = (ok tt, s)

  unfoldable pub handle_session_change :
      System P → ℕ → SessionChangeReason → SessionAgents P → Outcome P
  handle_session_change w id reason s = changed w id (wanted_by reason) s

  abbrev pub go_on : Outcome P → (SessionAgents P → Run P) → Run P
  go_on (err e, s) next = Run.failed s
  go_on (ok u, s) next = next s

  -- The loop over the events so far; without `foreground` Ctrl+C is not listened to.
  unfoldable pub control_loop : Bool → List (Event P) → SessionAgents P → Run P
  control_loop foreground [] s = Run.waiting s
  control_loop foreground (ctrl_c w ∷ events) s =
      let rest = control_loop foreground events s in
      if foreground then Run.finished (stop_all w s) else rest
  control_loop foreground (stop w ∷ events) s = Run.finished (stop_all w s)
  control_loop foreground (channel_closed w ∷ events) s = Run.finished (stop_all w s)
  control_loop foreground (session_change w id reason ∷ events) s =
      go_on (handle_session_change w id reason s) (control_loop foreground events)
  control_loop foreground (tick w ∷ events) s =
      go_on (reconcile_active_sessions w (reap_exited w s)) (control_loop foreground events)

  -- `run_controller` after the connection to the server.
  unfoldable pub run_controller : System P → Bool → List (Event P) → Run P
  run_controller w foreground events =
      go_on (reconcile_active_sessions w (record { agents = []; terminated = [] }))
        (control_loop foreground events)
