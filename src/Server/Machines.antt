-- ===== src/Server/Machines.antt =====
-- apps/server/src/routes/machines.rs, the check of an agent's token in
-- apps/server/src/websocket.rs, and the access that the two share with routes/sessions.rs. The
-- random token, the new key and `hash_token` (SHA-256) are parameters.
pub mod Tokens
pub mod Registration
use remotekvm.Base.{
  ℕ, ◌≡◌, List, [], ◌∷◌, ◌++◌, Bool, true, false, not, ◌&&◌, ◌||◌, Option, none, some, String,
  str_eq, ◌==◌, if◌then◌else◌, find, any, filter, update_where, map,
}
use remotekvm.Base.Exec.{Result, ok, err, pure, ◌>>=◌, ◌>>◌}
use remotekvm.Server.Schema.{Uuid, User, Member, Machine, MachineToken, Session, Database}
use remotekvm.Server.App.{
  AppState, ApiError, forbidden, not_found, other, Statement, select, update, run_sql,
}
use remotekvm.Server.Routes.{Handler, query, ensure, ok_or, claimed}
use remotekvm.Server.Organizations.{is_id, role_in, is_admin_role}

pub record RegisterMachineRequest : Type 0 where
  pub name : String
  pub hostname : String
  pub tailscale_ip : Option String
  pub platform : String
  pub organization_id : Option Uuid

pub record RegisterMachineResponse : Type 0 where
  pub id : Uuid
  pub registration_token : String

-- `organization_id IN (SELECT organization_id FROM organization_members WHERE user_id = $1)`.
unfoldable pub in_organization_of : Uuid → Option Uuid → List Member → Bool
in_organization_of user_id none rows = false
in_organization_of user_id (some org_id) rows =
    any (λ r. r.organization_id == org_id && r.user_id == user_id) rows

abbrev pub can_access : Uuid → List Member → Machine → Bool
can_access user_id members m =
    is_id m.user_id user_id || in_organization_of user_id m.organization_id members

-- The rows that `list_machines` returns, before it orders them.
unfoldable pub list_machines : Option Uuid → Handler (List Machine)
unfolding query claimed ok_or ◌>>=◌
list_machines sub = do
  user_id ← claimed sub
  query (select (λ db. filter (can_access user_id db.organization_members) db.machines))

unfoldable pub accessible : Uuid → Uuid → Database → Option Machine
accessible machine_id user_id db =
    find (λ m. m.id == machine_id && can_access user_id db.organization_members m) db.machines

unfoldable pub get_machine : Option Uuid → Uuid → Handler Machine
unfolding query claimed ok_or ◌>>=◌
get_machine sub machine_id = do
  user_id ← claimed sub
  found ← query (select (accessible machine_id user_id))
  ok_or found (not_found "Machine not found")

abbrev on_machines : (List Machine → List Machine) → Database → Database
on_machines f db = record db { machines = f db.machines }

abbrev on_tokens : (List MachineToken → List MachineToken) → Database → Database
on_tokens f db = record db { machine_tokens = f db.machine_tokens }

-- `INSERT INTO machine_tokens`, with its foreign key and `UNIQUE(machine_id, token_hash)`.
unfoldable pub insert_token : Uuid → String → Statement (Unit {0})
insert_token machine_id token_hash db =
    if any (λ m. m.id == machine_id) db.machines
      && not (
          any (λ t. t.machine_id == machine_id && str_eq t.token_hash token_hash) db.machine_tokens)
    then ok (
      tt,
      on_tokens
          (λ ts.
            record { machine_id = machine_id; token_hash = token_hash; revoked_at = none } ∷ ts)
          db,
    )
    else err (other "constraint violation")

role_gate : Option String → Handler (Unit {0})
role_gate none s = (err (not_found "organization not found"), s)
role_gate (some role) s = if is_admin_role role then (ok tt, s) else (err forbidden, s)

-- The check of the organization that a new machine is attached to, if any.
unfoldable pub may_attach : Option Uuid → Uuid → Handler (Unit {0})
unfolding query role_gate ◌>>=◌ pure
may_attach none user_id = pure tt
may_attach (some org_id) user_id = do
  role ← query (select (λ db. role_in org_id user_id db.organization_members))
  role_gate role

abbrev pub new_machine : Uuid → Uuid → RegisterMachineRequest → String → Machine
new_machine id user_id req token_hash = record {
  id = id;
  user_id = some user_id;
  organization_id = req.organization_id;
  name = req.name;
  hostname = req.hostname;
  tailscale_ip = req.tailscale_ip;
  platform = req.platform;
  registration_token_hash = token_hash;
  online = false;
  last_seen = none;
}

-- The foreign key of `machines.user_id`, which may be null.
abbrev pub is_user : Option Uuid → List User → Bool
is_user none users = true
is_user (some id) users = any (λ u. u.id == id) users

-- `INSERT INTO machines … RETURNING id`: the key that the database draws is fresh, and the row is put
-- behind the others, so that an older row with the same hash would be found first.
unfoldable pub insert_machine : Machine → Statement Uuid
insert_machine m db =
    if any (λ r. r.id == m.id) db.machines || not (is_user m.user_id db.users)
    then err (other "constraint violation")
    else ok (m.id, on_machines (λ ms. ms ++ m ∷ []) db)

-- `revoked_at IS NULL`.
abbrev pub is_valid : MachineToken → Bool
is_valid t = elim t.revoked_at [ none ↦ true | some _ ↦ false ]

unfoldable pub revoke_tokens : Uuid → ℕ → List MachineToken → List MachineToken
revoke_tokens machine_id now =
    update_where (λ t. t.machine_id == machine_id && is_valid t)
      (λ t. record t { revoked_at = some now })

unfoldable pub set_token_hash : Uuid → String → List Machine → List Machine
set_token_hash machine_id token_hash =
    update_where (λ m. m.id == machine_id) (λ m. record m { registration_token_hash = token_hash })

unfoldable pub owned_machine : Uuid → Uuid → Database → Option Machine
owned_machine machine_id user_id db =
    find (λ m. m.id == machine_id && is_id m.user_id user_id) db.machines

unfoldable pub issue : Uuid → String → Handler RegisterMachineResponse
issue id token s = (ok (record { id = id; registration_token = token }), s)

module _ (hash_token : String → String) where
  unfoldable pub register_machine :
      Option Uuid → RegisterMachineRequest → Uuid → String → Handler RegisterMachineResponse
  register_machine sub req drawn token = do
    user_id ← claimed sub
    may_attach req.organization_id user_id
    id ← query (insert_machine (new_machine drawn user_id req (hash_token token)))
    query (insert_token id (hash_token token))
    issue id token

  unfoldable pub rotate_token : Option Uuid → Uuid → String → Handler RegisterMachineResponse
  unfolding query claimed ok_or ◌>>=◌ pure
  rotate_token sub machine_id token = do
    user_id ← claimed sub
    found ← query (select (owned_machine machine_id user_id))
    machine ← ok_or found (not_found "Machine not found")
    query (update (λ db. on_tokens (revoke_tokens machine.id db.now) db))
    query (update (on_machines (set_token_hash machine.id (hash_token token))))
    query (insert_token machine.id (hash_token token))
    pure (record { id = machine.id; registration_token = token })

  -- `validate_agent_token`: the current hash of the machine alone counts.
  unfoldable pub machine_of_token : String → List Machine → Option Machine
  machine_of_token token = find (λ m. str_eq m.registration_token_hash (hash_token token))

  id_of : {E : Type 0} → Result E (Option Machine) → Option Uuid
  id_of (ok (some m)) = some m.id
  id_of (ok none) = none
  id_of (err e) = none

  unfoldable pub validate_agent_token : String → AppState → Option Uuid × AppState
  unfolding id_of machine_of_token
  validate_agent_token token s =
      let looked = run_sql (select (λ db. machine_of_token token db.machines)) s in
      (id_of looked.0, looked.1)

-- `DELETE FROM machines`, with the sessions and the tokens that it cascades to.
unfoldable pub delete_owned : Uuid → Uuid → Statement Bool
delete_owned machine_id user_id db =
    let hit = any (λ m. m.id == machine_id && is_id m.user_id user_id) db.machines in
    if hit
    then ok (
      true,
      record db {
        machines = filter (λ m. not (m.id == machine_id && is_id m.user_id user_id)) db.machines;
        sessions = filter (λ s. not (s.machine_id == machine_id)) db.sessions;
        machine_tokens = filter (λ t. not (t.machine_id == machine_id)) db.machine_tokens;
      },
    )
    else ok (false, db)

unfoldable pub delete_machine : Option Uuid → Uuid → Handler (Unit {0})
unfolding query claimed ok_or ensure ◌>>=◌
delete_machine sub machine_id = do
  user_id ← claimed sub
  hit ← query (delete_owned machine_id user_id)
  ensure hit (not_found "Machine not found or not owned by you")
