-- ===== src/Server/Connect/Grants.antt =====
-- What a granted connection is, and what a refused one leaves.
use remotekvm.Base.{
  ℕ, ◌/◌, ◌≡◌, refl, ap, sym, subst, ◌∙◌, ◌∷◌, Bool, true, Option, none, some, String, leb, ltb,
  arith, Option-cases, inl, inr, find_sound, Bool-cases,
}
use remotekvm.Base.Exec.{Result, ok, err, if_ok, ◌>>=◌, pure}
use remotekvm.Server.Schema.{Uuid, Machine, Database}
use remotekvm.Server.App.{AppState, ApiError, next_fault, run_sql, map_err}
use remotekvm.Server.Registry.{contains_key}
use remotekvm.Server.Registry.Laws.{is_agent_online_lem}
use remotekvm.Server.Sessions.{new_session}
use remotekvm.Server.Relay.{Wire}
use remotekvm.Server.Routes.{query, ensure}
use remotekvm.Server.Routes.Rules.{after_fault}
use remotekvm.Server.Routes.Outcomes.{
  Post, on_bind, on_select, on_statement, on_ok_or, on_claimed, on_ensure,
}
use remotekvm.Server.Machines.{accessible}
use remotekvm.Server.Connect.{
  MachineAccessRow, ConnectResponse, access_row, access_row_of, check_quota, for_plan, used_seconds,
  ensure_usage_quota, insert_session, ask_online, connect_machine, respond,
}

abbrev has_minutes : Option ℕ → ℕ → Bool
has_minutes none used = true
has_minutes (some minutes) used = ltb (used / 60) minutes

-- The minutes used this month are below the plan's.
abbrev pub within_quota : (ℕ → ℕ) → MachineAccessRow → Uuid → Database → Bool
within_quota month_start row user_id db =
    has_minutes (for_plan row.plan) (used_seconds month_start row user_id db)

module _ (month_start : ℕ → ℕ) (row : MachineAccessRow) (user_id : Uuid) (s : AppState) where
  abbrev Checked : Option ℕ → Result ApiError (Unit {0}) → AppState → Type 0
  Checked minutes r after =
      (after.db ≡ s.db)
      × (after.signaling ≡ s.signaling)
      × (r ≡ ok tt → has_minutes minutes (used_seconds month_start row user_id s.db) ≡ true)

  check_quota_lem :
      (minutes : Option ℕ)
      → Checked minutes
          (check_quota month_start minutes row user_id s).0
          (check_quota month_start minutes row user_id s).1
  unfolding check_quota query run_sql map_err ◌>>=◌ pure ensure
  check_quota_lem none = (refl, refl, λ _. refl)
  check_quota_lem (some minutes) = elim (Option-cases (next_fault s.faults)) [
    | inr (msg, fault) ↦ rw fault (refl, refl, λ e. absurd (ground arith))
    | inl fine ↦ elim (Bool-cases (leb minutes (used_seconds month_start row user_id s.db / 60))) [
      | inl over ↦ rw (fine, over) (refl, refl, λ e. absurd (ground arith))
      | inr below ↦ rw (fine, below) (refl, refl, λ e. ground arith)
    ]
  ]

  -- The check of the quota only reads, and passes if there are minutes left.
  quota_lem :
      Checked
        (for_plan row.plan)
        (ensure_usage_quota month_start row user_id s).0
        (ensure_usage_quota month_start row user_id s).1
  unfolding ensure_usage_quota
  quota_lem = check_quota_lem (for_plan row.plan)

ask_online_lem :
    (machine_id : String) (s : AppState)
    → ((ask_online machine_id s).0 ≡ ok (contains_key machine_id s.signaling.agents))
      × ((ask_online machine_id s).1.db ≡ s.db)
unfolding ask_online
ask_online_lem machine_id s = (ap ok (is_agent_online_lem machine_id s.signaling).0, refl)

access_row_of_lem :
    (m : Machine) (db : Database) (row : MachineAccessRow)
    → access_row_of (some m) db ≡ some row
    → m.id ≡ row.id
unfolding access_row_of
access_row_of_lem m db row h = ground arith

access_row_lem :
    (machine_id user_id : Uuid) (db : Database) (row : MachineAccessRow)
    → access_row machine_id user_id db ≡ some row
    → ((m : Machine) × (accessible machine_id user_id db ≡ some m)) × (row.id ≡ machine_id)
unfolding access_row accessible
access_row_lem machine_id user_id db row h =
    elim (Option-cases (accessible machine_id user_id db)) [
      | inl nothing ↦ absurd (ground arith)
      | inr (m, found) ↦
          let same =
            access_row_of_lem m db row (subst (λ o. access_row_of o db ≡ some row) found h) in
          let sound = find_sound _ db.machines m found in ((m, found), ground arith)
    ]

insert_session_lem :
    (id user_id machine_id : Uuid) (db after : Database) (u : Unit {0})
    → insert_session id user_id machine_id db ≡ ok (u, after)
    → after ≡ record db { sessions = new_session id user_id machine_id db.now ∷ db.sessions }
unfolding insert_session
insert_session_lem id user_id machine_id db after u h =
    let done = if_ok _ _ (u, after) _ h in ap (λ r. r.1) (sym done)

module _ (month_start : ℕ → ℕ) (wire : Wire) (user_id machine_id drawn : Uuid) (s : AppState) where
  -- What may come of a request, by its result.
  abbrev pub Outcome : Post ConnectResponse
  Outcome (err e) after = after.db ≡ s.db
  Outcome (ok r) after =
      (r ≡ record { session_id = drawn; status = "pending" })
      × ((m : Machine) × (accessible machine_id user_id s.db ≡ some m))
      × ((row : MachineAccessRow) × (access_row machine_id user_id s.db ≡ some row)
          × (within_quota month_start row user_id s.db ≡ true))
      × (contains_key (wire.to_string machine_id) s.signaling.agents ≡ true)
      × (after.db ≡ record s.db {
        sessions = new_session drawn user_id machine_id s.db.now ∷ s.db.sessions;
      })

  -- Whichever statement fails, a refusal leaves every table as it was. A grant comes only with access to
  -- the machine, minutes left in the plan and a registered agent; it adds one pending session of the
  -- user on the machine, with the key that the response names, and changes no other row.
  pub connect_machine_lem :
      Outcome
        (connect_machine month_start wire (some user_id) machine_id drawn s).0
        (connect_machine month_start wire (some user_id) machine_id drawn s).1
  unfolding connect_machine respond
  connect_machine_lem = on_claimed Outcome _ s user_id (
      on_select Outcome _ s (access_row machine_id user_id) (λ e. refl)
        (on_ok_or Outcome _ _ _ _ refl λ row found.
          let access = access_row_lem machine_id user_id s.db row found in
          let quota = quota_lem month_start row user_id (after_fault s) in
          on_bind Outcome _ _ (ensure_usage_quota month_start row user_id) (λ _ _. quota.0)
            λ _ passed.
              let checked = (ensure_usage_quota month_start row user_id (after_fault s)).1 in
              let ask = ask_online_lem (wire.to_string machine_id) checked in
              on_bind Outcome _ _ _ (λ _ _. ask.1 ∙ quota.0)
                λ online asked. on_ensure Outcome _ _ _ _ (ask.1 ∙ quota.0) λ up.
                  on_statement Outcome _ _ (insert_session drawn user_id row.id)
                    (λ _. ask.1 ∙ quota.0)
                    λ u db done. (
                      refl,
                      access.0,
                      (row, found, quota.2 (passed ∙ refl)),
                      ground (arith, ask.0, asked, up),
                      insert_session_lem drawn user_id machine_id s.db db u (
                          subst (λ id. insert_session drawn user_id id s.db ≡ ok (u, db)) access.1
                            (subst (λ d. insert_session drawn user_id row.id d ≡ ok (u, db))
                              (ask.1 ∙ quota.0) done)),
                    )))
