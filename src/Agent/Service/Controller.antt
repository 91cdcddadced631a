-- ===== src/Agent/Service/Controller.antt =====
-- How `run_controller` of apps/agent/src/windows/service.rs ends.
use remotekvm.Base.{
  ℕ, ◌≡◌, refl, subst, ap, ◌∙◌, List, [], ◌∷◌, Bool, true, false, Option, none, some, Bool-cases,
  inl, inr, ◌==◌, if◌then◌else◌, arith,
}
use remotekvm.Base.Exec.{ok, err}
use remotekvm.Agent.Service.{
  System, SessionAgents, Event, ctrl_c, stop, channel_closed, session_change, tick, Run, waiting,
  finished, failed, Outcome, contains, agent_of, is_held, keys, stop_all, reap_exited, running_only,
  reconciled, reconcile_active_sessions, handle_session_change, go_on, control_loop,
}
use remotekvm.Agent.Service.Reconcile.{agent_of-stop_each}

module _ {P : Type 0} where
  keys_contain :
      (id : ℕ) (agents : List (ℕ × P)) → contains id (keys agents) ≡ is_held (agent_of id agents)
  unfolding keys agent_of
  keys_contain id [] = refl
  keys_contain id ((other, agent) ∷ agents) = ground (arith, keys_contain id agents)

  cleared : (o : Option P) → (if is_held o then none else o) ≡ none
  cleared none = refl
  cleared (some agent) = refl

  agent_of-stop_all :
      (w : System P) (id : ℕ) (s : SessionAgents P) → agent_of id (stop_all w s).agents ≡ none
  unfolding stop_all
  agent_of-stop_all w id s =
      agent_of-stop_each w id (keys s.agents) s
      ∙ ap (λ b. if b then none else agent_of id s.agents) (keys_contain id s.agents)
      ∙ cleared (agent_of id s.agents)

  -- Nothing is left, when the run is at an end of its own.
  abbrev IsCleared : Run P → Type 0
  IsCleared (waiting s) = Unit
  IsCleared (failed s) = Unit
  IsCleared (finished s) = (id : ℕ) → agent_of id s.agents ≡ none

  go_on-IsCleared :
      (o : Outcome P) (next : SessionAgents P → Run P)
      → ((s : SessionAgents P) → IsCleared (next s))
      → IsCleared (go_on o next)
  go_on-IsCleared (err e, s) next h = tt
  go_on-IsCleared (ok u, s) next h = h s

  control_loop-IsCleared :
      (foreground : Bool) (events : List (Event P)) (s : SessionAgents P)
      → IsCleared (control_loop foreground events s)
  unfolding control_loop
  control_loop-IsCleared foreground [] s = tt
  control_loop-IsCleared true (ctrl_c w ∷ events) s = λ id. agent_of-stop_all w id s
  control_loop-IsCleared false (ctrl_c w ∷ events) s = control_loop-IsCleared false events s
  control_loop-IsCleared foreground (stop w ∷ events) s = λ id. agent_of-stop_all w id s
  control_loop-IsCleared foreground (channel_closed w ∷ events) s = λ id. agent_of-stop_all w id s
  control_loop-IsCleared foreground (session_change w id reason ∷ events) s =
      go_on-IsCleared (handle_session_change w id reason s) (control_loop foreground events)
        (control_loop-IsCleared foreground events)
  control_loop-IsCleared foreground (tick w ∷ events) s =
      go_on-IsCleared (reconcile_active_sessions w (reap_exited w s))
        (control_loop foreground events) (control_loop-IsCleared foreground events)

  -- A controller that ends by Ctrl+C, by a stop of the service or by the end of its events keeps no
  -- agent for any session.
  control_finished :
      (foreground : Bool) (events : List (Event P)) (s s' : SessionAgents P) (id : ℕ)
      → control_loop foreground events s ≡ finished s'
      → agent_of id s'.agents ≡ none
  control_finished foreground events s s' id h =
      subst IsCleared h (control_loop-IsCleared foreground events s) id

  still_running :
      (w : System P) (id : ℕ) (agent : P) (agents : List (ℕ × P))
      → agent_of id agents ≡ some agent
      → w.is_running agent ≡ true
      → agent_of id (running_only w agents) ≡ some agent
  unfolding running_only agent_of
  still_running w id agent [] h runs = h
  still_running w id agent ((other, held) ∷ agents) h runs = elim (Bool-cases (other == id)) [
    | inl hit ↦ let same : held ≡ agent = ground (arith, rw hit at h) in rw (same, runs, hit) refl
    | inr miss ↦
        let later = still_running w id agent agents (rw miss at h) runs in
        elim (Bool-cases (w.is_running held)) [
          | inl stays ↦ rw (stays, miss) later
          | inr goes ↦ rw goes later
        ]
  ]

  -- When the sessions cannot be listed at a scan, the controller fails, whatever events follow, and
  -- the agents that run at that moment run on: no process is terminated.
  pub controller_failure :
      (foreground : Bool) (w : System P) (events : List (Event P)) (s : SessionAgents P) (id : ℕ)
      (agent : P)
      → w.active_sessions ≡ none
      → agent_of id s.agents ≡ some agent
      → w.is_running agent ≡ true
      → (s' : SessionAgents P) × (control_loop foreground (tick w ∷ events) s ≡ failed s')
        × (agent_of id s'.agents ≡ some agent)
        × (s'.terminated ≡ s.terminated)
  unfolding control_loop reconcile_active_sessions reap_exited
  controller_failure foreground w events s id agent unlisted held runs = (
    reap_exited w s,
    ends w.active_sessions unlisted,
    still_running w id agent s.agents held runs,
    refl,
  )
    where
      ends :
          (o : Option (List ℕ))
          → o ≡ none
          → go_on (reconciled w o (reap_exited w s)) (control_loop foreground events)
            ≡ failed (reap_exited w s)
      ends o h = rw h refl
