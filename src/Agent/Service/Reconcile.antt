-- ===== src/Agent/Service/Reconcile.antt =====
-- `reconcile_active_sessions` of apps/agent/src/windows/service.rs, session by session.
use remotekvm.Base.{
  ℕ, ◌≡◌, refl, ap, ◌∙◌, List, [], ◌∷◌, Bool, true, false, not, ◌&&◌, ◌||◌, Option, none, some,
  Option-cases, Bool-cases, inl, inr, ◌==◌, ==→eq, ==_refl, filter, if◌then◌else◌, arith,
}
use mathlib.Core.Bool.{or-true}
use remotekvm.Base.Exec.{ok}
use remotekvm.Agent.Service.{
  System, SessionAgents, contains, agent_of, is_held, without, spawned, ensure_agent, stopped,
  stop_session, ensure_each, stop_each, keys, reconciled, reconcile_with, reconcile_active_sessions,
}

here :
    (q : ℕ → Bool) (id : ℕ) (ids : List ℕ) (held : Bool)
    → contains id (filter q ids) ≡ (held && q id)
    → contains id (if q id then id ∷ filter q ids else filter q ids) ≡ q id
here q id ids held h = elim (Bool-cases (q id)) [
  | inl stays ↦ rw (stays, ==_refl id) refl
  | inr goes ↦ ground (arith, goes)
]

module _ {P : Type 0} where
  agent_of-without :
      (id other : ℕ) (agents : List (ℕ × P))
      → agent_of id (without other agents) ≡ (if other == id then none else agent_of id agents)
  unfolding agent_of without
  agent_of-without id other [] = ground arith
  agent_of-without id other ((held, agent) ∷ agents) =
      ground (arith, agent_of-without id other agents)

  -- The agent that a session has after `ensure_agent`.
  abbrev ensured : System P → ℕ → Option P → Option P
  ensured w id (some agent) = some agent
  ensured w id none = if id == 0 then none else w.spawn_session_agent id

  spawned_self :
      (id : ℕ) (o : Option P) (s : SessionAgents P)
      → agent_of id s.agents ≡ none
      → agent_of id (spawned id o s).agents ≡ o
  unfolding agent_of
  spawned_self id none s h = h
  spawned_self id (some agent) s h = rw (==_refl id) refl

  ensure_self :
      (w : System P) (id : ℕ) (s : SessionAgents P)
      → agent_of id (ensure_agent w id s).agents ≡ ensured w id (agent_of id s.agents)
  unfolding ensure_agent
  ensure_self w id s = elim (Option-cases (agent_of id s.agents)) [
    | inl missing ↦ elim (Bool-cases (id == 0)) [
      | inl system ↦ rw (system, missing, system) refl
      | inr user ↦ rw (user, missing, user) (spawned_self id (w.spawn_session_agent id) s missing)
    ]
    | inr (agent, held) ↦ rw (held, or-true) held
  ]

  spawned_other :
      (id other : ℕ) (o : Option P) (s : SessionAgents P)
      → (other == id) ≡ false
      → agent_of id (spawned other o s).agents ≡ agent_of id s.agents
  unfolding agent_of
  spawned_other id other none s h = refl
  spawned_other id other (some agent) s h = rw h refl

  ensure_other :
      (w : System P) (id other : ℕ) (s : SessionAgents P)
      → (other == id) ≡ false
      → agent_of id (ensure_agent w other s).agents ≡ agent_of id s.agents
  unfolding ensure_agent
  ensure_other w id other s h =
      elim (Bool-cases (other == 0 || is_held (agent_of other s.agents))) [
        | inl same ↦ rw same refl
        | inr new ↦ rw new (spawned_other id other (w.spawn_session_agent other) s h)
      ]

  agent_of-stopped :
      (w : System P) (id other : ℕ) (o : Option P) (s : SessionAgents P)
      → agent_of other s.agents ≡ o
      → agent_of id (stopped w other o s).agents
        ≡ (if other == id then none else agent_of id s.agents)
  agent_of-stopped w id other none s h = elim (Bool-cases (other == id)) [
    | inl hit ↦ rw hit (rw (==→eq other id hit) at h)
    | inr miss ↦ rw miss refl
  ]
  agent_of-stopped w id other (some agent) s h = agent_of-without id other s.agents

  agent_of-stop_session :
      (w : System P) (id other : ℕ) (s : SessionAgents P)
      → agent_of id (stop_session w other s).agents
        ≡ (if other == id then none else agent_of id s.agents)
  unfolding stop_session
  agent_of-stop_session w id other s = agent_of-stopped w id other _ s refl

  pub agent_of-stop_each :
      (w : System P) (id : ℕ) (ids : List ℕ) (s : SessionAgents P)
      → agent_of id (stop_each w ids s).agents
        ≡ (if contains id ids then none else agent_of id s.agents)
  unfolding stop_each
  agent_of-stop_each w id [] s = refl
  agent_of-stop_each w id (other ∷ ids) s = ground (
    arith,
    agent_of-stop_each w id ids (stop_session w other s),
    agent_of-stop_session w id other s,
  )

  -- Once an agent is there, it stays; where spawning fails, each attempt fails.
  ensured_again :
      (w : System P) (id : ℕ) (o : Option P) → ensured w id (ensured w id o) ≡ ensured w id o
  ensured_again w id (some agent) = refl
  ensured_again w id none = elim (Bool-cases (id == 0)) [
    | inl system ↦ rw (system, system) refl
    | inr user ↦ elim (Option-cases (w.spawn_session_agent id)) [
      | inl fails ↦ rw (user, fails, user) fails
      | inr (agent, works) ↦ rw (user, works) refl
    ]
  ]

  twice :
      (w : System P) (id : ℕ) (b : Bool) (x o : Option P)
      → x ≡ (if b then ensured w id (ensured w id o) else ensured w id o)
      → x ≡ ensured w id o
  twice w id true x o h = h ∙ ensured_again w id o
  twice w id false x o h = h

  agent_of-ensure_each :
      (w : System P) (id : ℕ) (ids : List ℕ) (s : SessionAgents P)
      → agent_of id (ensure_each w ids s).agents
        ≡ (if contains id ids then ensured w id (agent_of id s.agents) else agent_of id s.agents)
  unfolding ensure_each
  agent_of-ensure_each w id [] s = refl
  agent_of-ensure_each w id (other ∷ ids) s = elim (Bool-cases (other == id)) [
    | inl hit ↦
        let later = agent_of-ensure_each w id ids (ensure_agent w id s) in
        rw (==→eq other id hit, ==_refl id)
          (twice w id (contains id ids) _ (agent_of id s.agents) (rw (ensure_self w id s) at later))
    | inr miss ↦ ground (
      arith,
      agent_of-ensure_each w id ids (ensure_agent w other s),
      ensure_other w id other s miss,
    )
  ]

  keys_held :
      (q : ℕ → Bool) (id : ℕ) (agents : List (ℕ × P))
      → contains id (filter q (keys agents)) ≡ (is_held (agent_of id agents) && q id)
  unfolding keys agent_of
  keys_held q id [] = refl
  keys_held q id ((other, agent) ∷ agents) = elim (Bool-cases (other == id)) [
    | inl hit ↦
        rw (==→eq other id hit, ==_refl id)
          (here q id (keys agents) (is_held (agent_of id agents)) (keys_held q id agents))
    | inr miss ↦ rw miss (elim (Bool-cases (q other)) [
      | inl stays ↦ rw (stays, miss) (keys_held q id agents)
      | inr goes ↦ rw goes (keys_held q id agents)
    ])
  ]

  within :
      (b : Bool) (x y z : Option P)
      → x ≡ (if b then y else z)
      → (if b then x else none) ≡ (if b then y else none)
  within true x y z h = h
  within false x y z h = refl

  left_over :
      (b : Bool) (o : Option P) → (if is_held o && not b then none else o) ≡ (if b then o else none)
  left_over b none = ground arith
  left_over true (some agent) = refl
  left_over false (some agent) = refl

  agent_of-reconcile_with :
      (w : System P) (active : List ℕ) (s : SessionAgents P) (id : ℕ)
      → agent_of id (reconcile_with w active s).agents
        ≡ (if contains id active then ensured w id (agent_of id s.agents) else none)
  unfolding reconcile_with
  agent_of-reconcile_with w active s id =
      let s' = ensure_each w active s in
      agent_of-stop_each w id (filter (λ id. not (contains id active)) (keys s'.agents)) s'
      ∙ ap (λ b. if b then none else agent_of id s'.agents)
          (keys_held (λ id. not (contains id active)) id s'.agents)
      ∙ left_over (contains id active) (agent_of id s'.agents)
      ∙ within (contains id active) _ _ _ (agent_of-ensure_each w id active s)

  reconciled_lem :
      (w : System P) (active : List ℕ) (s : SessionAgents P) (o : Option (List ℕ))
      → o ≡ some active
      → reconciled w o s ≡ (ok tt, reconcile_with w active s)
  reconciled_lem w active s o h = rw h refl

  -- After `reconcile_active_sessions`, when the sessions could be listed: an active session has the
  -- agent that it had, or, except for session 0, the one that could be spawned for it now; a session
  -- that is not active has none.
  pub reconcile_lem :
      (w : System P) (active : List ℕ) (s : SessionAgents P) (id : ℕ)
      → w.active_sessions ≡ some active
      → ((reconcile_active_sessions w s).0 ≡ ok tt)
        × (agent_of id (reconcile_active_sessions w s).1.agents
            ≡ (if contains id active then ensured w id (agent_of id s.agents) else none))
  unfolding reconcile_active_sessions
  reconcile_lem w active s id listed =
      let e = reconciled_lem w active s w.active_sessions listed in
      (ap (λ r. r.0) e, ap (λ r. agent_of id r.1.agents) e ∙ agent_of-reconcile_with w active s id)
