-- ===== src/Server/Machines/Tokens.antt =====
-- The tokens of agents over their life.
use remotekvm.Base.{
  ◌≡◌, ◌≢◌, refl, subst, List, [], ◌∷◌, Bool, true, false, not, none, some, String, str_eq, ◌&&◌,
  ◌==◌, arith, find, any, any-none, filter-not, find-filter, All, find-none, find_sound, any-find,
  inl, inr, Bool-cases, Option-cases, ==→eq, eq_refl, any-update_where,
}
use remotekvm.Base.Exec.{ok, pure, ◌>>=◌}
use remotekvm.Server.Schema.{Uuid, Machine, MachineToken}
use remotekvm.Server.App.{AppState, SqlError, next_fault, rest_faults, run_sql, map_err}
use remotekvm.Server.Organizations.{is_id}
use remotekvm.Server.Routes.{query, ensure, ok_or, claimed}
use remotekvm.Server.Machines.{
  RegisterMachineResponse, owned_machine, set_token_hash, insert_token, machine_of_token,
  validate_agent_token, rotate_token, delete_owned, delete_machine, revoke_tokens, id_of,
}

module _ (hash_token : String → String) (machine_id : Uuid) (token : String) where
  -- The rows of the machine hold the new hash, and no other row does.
  new_token_found :
      (rows : List Machine)
      → All (λ m. str_eq m.registration_token_hash (hash_token token) ≡ false) rows
      → any (λ m. m.id == machine_id) rows ≡ true
      → (m : Machine) × (machine_of_token hash_token token
            (set_token_hash machine_id (hash_token token) rows)
          ≡ some m)
        × (m.id ≡ machine_id)
  unfolding machine_of_token set_token_hash
  new_token_found [] fresh here = ground arith
  new_token_found (m ∷ rows) fresh here = elim (Bool-cases (m.id == machine_id)) [
    | inl hit ↦ (
      record m { registration_token_hash = hash_token token },
      rw (hit, eq_refl (hash_token token)) refl,
      ==→eq m.id machine_id hit,
    )
    | inr miss ↦
        let (found, e, same) = new_token_found rows fresh.1 (ground arith) in
        (found, rw (miss, fresh.0) e, same)
  ]

  -- A row with any other hash is not a row of the machine.
  other_token :
      (t : String) (rows : List Machine) (found : Machine)
      → str_eq (hash_token token) (hash_token t) ≡ false
      → machine_of_token hash_token t (set_token_hash machine_id (hash_token token) rows)
        ≡ some found
      → (found.id == machine_id) ≡ false
  unfolding machine_of_token set_token_hash
  other_token t [] found differ h = ground arith
  other_token t (m ∷ rows) found differ h = elim (Bool-cases (m.id == machine_id)) [
    | inl hit ↦ other_token t rows found differ (ground arith)
    | inr miss ↦ elim (Bool-cases (str_eq m.registration_token_hash (hash_token t))) [
      | inl same ↦
          let is : m ≡ found = ground arith in subst (λ y. (y.id == machine_id) ≡ false) is miss
      | inr differs ↦ other_token t rows found differ (ground arith)
    ]
  ]

  accepts :
      (t : String) (s : AppState) (found : Machine)
      → next_fault s.faults ≡ none
      → machine_of_token hash_token t s.db.machines ≡ some found
      → (validate_agent_token hash_token t s).0 ≡ some found.id
  unfolding validate_agent_token run_sql
  accepts t s found fine h = rw (fine, h) refl

  refuses :
      (t : String) (rows : List Machine)
      → str_eq (hash_token token) (hash_token t) ≡ false
      → id_of hash_token {E = SqlError}
          (ok (machine_of_token hash_token t (set_token_hash machine_id (hash_token token) rows)))
        ≢ some machine_id
  unfolding id_of
  refuses t rows differ h =
      elim (Option-cases
        (machine_of_token hash_token t (set_token_hash machine_id (hash_token token) rows))) [
          | inl nothing ↦ absurd (ground arith)
          | inr (found, is_found) ↦
              let other = other_token t rows found differ is_found in absurd (ground arith)
        ]

ids-set_token_hash :
    (id machine_id : Uuid) (token_hash : String) (rows : List Machine)
    → any (λ m. m.id == id) (set_token_hash machine_id token_hash rows) ≡ any (λ m. m.id == id) rows
unfolding set_token_hash
ids-set_token_hash id machine_id token_hash rows = any-update_where _ _ _ rows λ m. refl

tokens-revoke_tokens :
    (machine_id now id : _) (token_hash : String) (rows : List MachineToken)
    → any
        (λ t. t.machine_id == id && str_eq t.token_hash token_hash)
        (revoke_tokens machine_id now rows)
      ≡ any (λ t. t.machine_id == id && str_eq t.token_hash token_hash) rows
unfolding revoke_tokens
tokens-revoke_tokens machine_id now id token_hash rows = any-update_where _ _ _ rows λ t. refl

-- The state of a server whose database answers.
abbrev pub healthy : AppState → AppState
healthy s = record s { faults = [] }

module _ (hash_token : String → String) (user_id machine_id : Uuid) (token : String) where
  -- A rotation by the owner, where the database answers and the token is new: the response names the
  -- machine and the new token, the new token is what its agent can log in with, and any token with
  -- another hash is refused for the machine.
  pub rotate_token_lem :
      (s : AppState) (m : Machine) (t : String)
      → owned_machine machine_id user_id s.db ≡ some m
      → machine_of_token hash_token token s.db.machines ≡ none
      → any
          (λ t. t.machine_id == machine_id && str_eq t.token_hash (hash_token token))
          s.db.machine_tokens
        ≡ false
      → str_eq (hash_token token) (hash_token t) ≡ false
      → (let after = rotate_token hash_token (some user_id) machine_id token (healthy s) in
          (after.0 ≡ ok (record { id = machine_id; registration_token = token }))
          × ((validate_agent_token hash_token token after.1).0 ≡ some machine_id)
          × ((validate_agent_token hash_token t after.1).0 ≢ some machine_id))
  unfolding rotate_token claimed query run_sql map_err ok_or ensure ◌>>=◌ pure owned_machine
      machine_of_token insert_token validate_agent_token
  rotate_token_lem s m t owned fresh unused differ =
      let sound =
        find_sound (λ m. m.id == machine_id && is_id m.user_id user_id) s.db.machines m owned in
      let id : m.id ≡ machine_id = ground arith in
      let here : any (λ m. m.id == machine_id) s.db.machines ≡ true =
        any-find _ _ s.db.machines m (λ x hit. ground arith) owned in
      let (found, e, same) =
        new_token_found hash_token machine_id token s.db.machines (find-none _ s.db.machines fresh)
          here in
      rw
        (
          owned,
          id,
          ids-set_token_hash machine_id machine_id (hash_token token) s.db.machines,
          here,
          tokens-revoke_tokens machine_id s.db.now machine_id (hash_token token)
              s.db.machine_tokens,
          unused,
        )
        (refl, rw (e, same) refl, refuses hash_token machine_id token t s.db.machines differ)

module _ (hash_token : String → String) where
  -- Neither a rotation nor a deletion by anyone but the owner of the machine succeeds or changes a
  -- table, whichever statement fails.
  owner_only :
      (user_id machine_id : Uuid) (token : String) (s : AppState)
      → owned_machine machine_id user_id s.db ≡ none
      → ((rotate_token hash_token (some user_id) machine_id token s).1.db ≡ s.db)
        × ((r : RegisterMachineResponse)
            → (rotate_token hash_token (some user_id) machine_id token s).0 ≢ ok r)
        × ((delete_machine (some user_id) machine_id s).1.db ≡ s.db)
        × ((delete_machine (some user_id) machine_id s).0 ≢ ok tt)
  unfolding rotate_token delete_machine delete_owned claimed query run_sql map_err ok_or ensure
      ◌>>=◌ pure owned_machine
  owner_only user_id machine_id token s none_owned = elim (Option-cases (next_fault s.faults)) [
    | inl fine ↦
        rw (fine, none_owned, any-none _ s.db.machines none_owned)
          (refl, λ r e. ground arith, refl, λ e. ground arith)
    | inr (msg, fault) ↦ rw fault (refl, λ r e. ground arith, refl, λ e. ground arith)
  ]

  -- Where the last statement of a rotation fails, the caller gets no token, and the old one is
  -- refused all the same: only a further rotation lets the agent in again.
  rotate_token_interrupted :
      (user_id machine_id : Uuid) (token msg t : String) (s : AppState) (m : Machine)
      → owned_machine machine_id user_id s.db ≡ some m
      → s.faults ≡ none ∷ none ∷ none ∷ some msg ∷ []
      → str_eq (hash_token token) (hash_token t) ≡ false
      → ((r : RegisterMachineResponse)
          → (rotate_token hash_token (some user_id) machine_id token s).0 ≢ ok r)
        × ((validate_agent_token hash_token t
              (rotate_token hash_token (some user_id) machine_id token s).1).0
            ≢ some machine_id)
  unfolding rotate_token claimed query run_sql map_err ok_or ensure ◌>>=◌ pure owned_machine
      validate_agent_token next_fault rest_faults
  rotate_token_interrupted user_id machine_id token msg t s m owned faults differ =
      let sound =
        find_sound (λ m. m.id == machine_id && is_id m.user_id user_id) s.db.machines m owned in
      let id : m.id ≡ machine_id = ground arith in
      rw (faults, owned, id)
        (λ r e. ground arith, refuses hash_token machine_id token t s.db.machines differ)

not_both : (a b : Bool) → a ≡ false → not (a && b) ≡ true
not_both a b h = ground arith

-- A deletion by the owner, where the database answers, succeeds, leaves no session, no token and no
-- owned row of the machine, and keeps the machine with any other key.
delete_machine_lem :
    (user_id machine_id id : Uuid) (s : AppState) (m : Machine)
    → owned_machine machine_id user_id s.db ≡ some m
    → (id == machine_id) ≡ false
    → (let after = delete_machine (some user_id) machine_id (healthy s) in
        (after.0 ≡ ok tt)
        × All (λ r. (r.machine_id == machine_id) ≡ false) after.1.db.sessions
        × All (λ t. (t.machine_id == machine_id) ≡ false) after.1.db.machine_tokens
        × All (λ r. (r.id == machine_id && is_id r.user_id user_id) ≡ false) after.1.db.machines
        × (find (λ r. r.id == id) after.1.db.machines ≡ find (λ r. r.id == id) s.db.machines))
unfolding delete_machine delete_owned claimed query run_sql map_err ok_or ensure ◌>>=◌ pure
    owned_machine next_fault rest_faults
delete_machine_lem user_id machine_id id s m owned other =
    rw
      (any-find (λ m. m.id == machine_id && is_id m.user_id user_id) _ s.db.machines m (λ x h. h)
        owned)
      (
        refl,
        filter-not _ s.db.sessions,
        filter-not _ s.db.machine_tokens,
        filter-not _ s.db.machines,
        find-filter (λ r. r.id == id) _ s.db.machines
            λ r hit. not_both (r.id == machine_id) (is_id r.user_id user_id) (ground arith),
      )
