-- ===== src/Server/Machines/Registration.antt =====
-- How a machine comes into the tables.
use remotekvm.Base.{
  ◌≡◌, refl, sym, ap, ◌∙◌, List, [], ◌∷◌, ◌++◌, Bool, true, not, ◌||◌, find, str_eq, ◌⊎◌, inl, inr,
  Option, none, some, String, arith, any, eq_refl, ◌==◌, Bool-cases, Option-cases,
}
use remotekvm.Base.Exec.{ok, err, if_ok, ◌>>=◌, pure}
use remotekvm.Server.Schema.{Uuid, Machine, Database}
use remotekvm.Server.App.{AppState, next_fault, run_sql, map_err}
use remotekvm.Server.Organizations.{role_in, is_admin_role}
use remotekvm.Server.Routes.{query}
use remotekvm.Server.Routes.Outcomes.{Post, on_bind, on_statement, on_claimed}
use remotekvm.Server.Machines.{
  RegisterMachineRequest, RegisterMachineResponse, new_machine, may_attach, role_gate, is_user,
  insert_machine, insert_token, issue, machine_of_token, register_machine,
}

-- Only an owner or an administrator attaches a machine to an organization.
abbrev pub MayAttach : Uuid → Database → Option Uuid → Type 0
MayAttach user_id db none = Unit
MayAttach user_id db (some org_id) =
    (role : String) × (role_in org_id user_id db.organization_members ≡ some role)
    × (is_admin_role role ≡ true)

may_attach_lem :
    (org : Option Uuid) (user_id : Uuid) (s : AppState)
    → ((may_attach org user_id s).1.db ≡ s.db)
      × (((may_attach org user_id s).0 ≡ ok tt) → MayAttach user_id s.db org)
unfolding may_attach role_gate query run_sql map_err ◌>>=◌ pure
may_attach_lem none user_id s = (refl, λ e. tt)
may_attach_lem (some org_id) user_id s = elim (Option-cases (next_fault s.faults)) [
  | inr (msg, fault) ↦ rw fault (refl, λ e. absurd (ground arith))
  | inl fine ↦ elim (Option-cases (role_in org_id user_id s.db.organization_members)) [
    | inl nobody ↦ rw (fine, nobody) (refl, λ e. absurd (ground arith))
    | inr (role, held) ↦ elim (Bool-cases (is_admin_role role)) [
      | inl admin ↦ rw (fine, held, admin) (refl, λ e. (role, refl, admin))
      | inr below ↦ rw (fine, held, below) (refl, λ e. absurd (ground arith))
    ]
  ]
]

insert_machine_lem :
    (m : Machine) (db after : Database) (id : Uuid)
    → insert_machine m db ≡ ok (id, after)
    → (id ≡ m.id) × (after.machines ≡ db.machines ++ m ∷ [])
unfolding insert_machine
insert_machine_lem m db after id h =
    elim (Bool-cases (any (λ r. r.id == m.id) db.machines || not (is_user m.user_id db.users))) [
      | inl taken ↦ absurd (ground arith)
      | inr fresh ↦ (ground arith, ground arith)
    ]

insert_token_lem :
    (machine_id : Uuid) (token_hash : String) (db after : Database) (u : Unit {0})
    → insert_token machine_id token_hash db ≡ ok (u, after)
    → after.machines ≡ db.machines
unfolding insert_token
insert_token_lem machine_id token_hash db after u h =
    let stored = if_ok _ _ (u, after) _ h in ap (λ r. r.1.machines) (sym stored)

find-append :
    (p : Machine → Bool) (rows : List Machine) (m : Machine)
    → find p rows ≡ none
    → p m ≡ true
    → find p (rows ++ m ∷ []) ≡ some m
find-append p [] m nobody hit = rw hit refl
find-append p (r ∷ rows) m nobody hit = elim (Bool-cases (p r)) [
  | inl earlier ↦ absurd (ground arith)
  | inr miss ↦ rw miss (find-append p rows m (ground arith) hit)
]

abbrev recognizes : (String → String) → String → Machine → Bool
recognizes hash_token token m = str_eq m.registration_token_hash (hash_token token)

module _ (hash_token : String → String) (user_id drawn : Uuid) (req : RegisterMachineRequest)
    (token : String) (s : AppState) where
  abbrev row : Machine
  row = new_machine drawn user_id req (hash_token token)

  -- One machine more, the user's own.
  abbrev pub Added : AppState → Type 0
  Added after =
      (after.db.machines ≡ s.db.machines ++ row ∷ []) × MayAttach user_id s.db req.organization_id

  -- What may come of a request, by its result.
  abbrev pub Registered : Post RegisterMachineResponse
  Registered (err e) after = (after.db.machines ≡ s.db.machines) ⊎ Added after
  Registered (ok r) after =
      (r ≡ record { id = drawn; registration_token = token })
      × Added after
      × (machine_of_token hash_token token after.db.machines ≡ some row)

  -- Where no machine has the hash of the token that is drawn, and whichever statement fails: no
  -- machine changes, and at most one is added, which belongs to the user and is in an organization
  -- only if the user is an owner or an administrator there. A response names the new machine and the
  -- token that its agent is recognized by.
  pub register_machine_lem :
      machine_of_token hash_token token s.db.machines ≡ none
      → Registered
          (register_machine hash_token (some user_id) req drawn token s).0
          (register_machine hash_token (some user_id) req drawn token s).1
  unfolding register_machine issue machine_of_token
  register_machine_lem fresh = on_claimed Registered _ s user_id (
      let attach = may_attach_lem req.organization_id user_id s in
      on_bind Registered _ s (may_attach req.organization_id user_id)
        (λ _ _. inl (ap (λ d. d.machines) attach.0))
        λ _ passed.
          let s₁ = (may_attach req.organization_id user_id s).1 in
          on_statement Registered _ s₁ (insert_machine row)
            (λ _. inl (ap (λ d. d.machines) attach.0))
            λ id db inserted.
              let (is_drawn, machines) = insert_machine_lem row s₁.db db id inserted in
              let added = machines ∙ ap (λ d. d.machines ++ row ∷ []) attach.0 in
              on_statement Registered _ _ (insert_token id (hash_token token))
                (λ _. inr (added, attach.1 passed))
                λ u db' stored.
                  let kept = insert_token_lem id (hash_token token) db db' u stored ∙ added in
                  (
                    ap (λ x. record { id = x; registration_token = token }) is_drawn,
                    (kept, attach.1 passed),
                    rw kept (
                        find-append (recognizes hash_token token) s.db.machines row fresh
                          (eq_refl (hash_token token))),
                  ))
