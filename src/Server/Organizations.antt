-- ===== src/Server/Organizations.antt =====
-- apps/server/src/routes/organizations.rs, and the invitations that a login accepts in
-- apps/server/src/auth/routes.rs. The Unicode tables behind `trim` and `to_lowercase` are a
-- parameter.
pub mod Roles
pub mod Escalation
pub mod Invitations
pub mod Sharing
use Prim.Native.Char.{code}
use Prim.Native.String
use remotekvm.Base.{
  ℕ, ◌≡◌, List, [], ◌∷◌, ◌++◌, Bool, true, false, not, ◌&&◌, ◌||◌, Option, none, some, String,
  str_eq, ◌==◌, if◌then◌else◌, find, any, filter, update_where,
}
use remotekvm.Base.Exec.{Result, ok, err, pure, raise, ◌>>=◌, ◌>>◌}
use remotekvm.Server.Schema.{Uuid, User, Member, Invite, Machine, Database}
use remotekvm.Server.App.{
  ApiError, forbidden, not_found, bad_request, other, Statement, select, update,
}
use remotekvm.Server.Routes.{Handler, query, ensure, ok_or, claimed}

pub record Unicode : Type 0 where
  pub trim : String → String
  pub to_lowercase : String → String
  -- PostgreSQL's, which `lower` in a statement is.
  pub lower : String → String

-- `contains('@')`.
unfoldable pub contains_at : String → Bool
contains_at String.[] = false
contains_at (String.◌∷◌ c s) = code c == b'@' || contains_at s

abbrev pub is_member : Uuid → Uuid → Member → Bool
is_member org_id user_id r = r.organization_id == org_id && r.user_id == user_id

-- `SELECT role FROM organization_members WHERE organization_id = $1 AND user_id = $2`.
role_of_row : Option Member → Option String
role_of_row none = none
role_of_row (some r) = some r.role

unfoldable pub role_in : Uuid → Uuid → List Member → Option String
unfolding role_of_row
role_in org_id user_id rows = role_of_row (find (is_member org_id user_id) rows)

abbrev pub is_admin_role : String → Bool
is_admin_role role = str_eq role "owner" || str_eq role "admin"

admin_gate : Option String → Result ApiError String
admin_gate none = err (not_found "organization not found")
admin_gate (some role) = if is_admin_role role then ok role else err forbidden

unfoldable pub require_org_admin : Uuid → Uuid → Handler String
unfolding query admin_gate role_in
require_org_admin org_id user_id = do
  role ← query (select (λ db. role_in org_id user_id db.organization_members))
  λ s. (admin_gate role, s)

unfoldable pub validate_role : String → Bool
validate_role role = str_eq role "owner" || str_eq role "admin" || str_eq role "member"

unfoldable pub ensure_can_grant_role : String → String → Bool
ensure_can_grant_role actor_role target_role =
    str_eq actor_role "owner"
    || str_eq actor_role "admin" && (str_eq target_role "admin" || str_eq target_role "member")

-- `INSERT … ON CONFLICT (organization_id, user_id) DO UPDATE SET role = EXCLUDED.role`.
unfoldable pub upsert_member : Uuid → Uuid → String → List Member → List Member
upsert_member org_id user_id role [] =
    record { organization_id = org_id; user_id = user_id; role = role } ∷ []
upsert_member org_id user_id role (r ∷ rs) =
    let rest = upsert_member org_id user_id role rs in
    if is_member org_id user_id r then record r { role = role } ∷ rs else r ∷ rest

abbrev pub is_open : Invite → Bool
is_open i = elim i.accepted_at [ none ↦ true | some _ ↦ false ]

unfoldable pub accept_invites : (Invite → Bool) → ℕ → List Invite → List Invite
accept_invites p now =
    update_where (λ i. p i && is_open i) (λ i. record i { accepted_at = some now })

-- `INSERT INTO organization_invites … ON CONFLICT (organization_id, email) DO UPDATE …`.
unfoldable pub upsert_invite : Invite → List Invite → List Invite
upsert_invite new [] = new ∷ []
upsert_invite new (i ∷ is) =
    let rest = upsert_invite new is in
    if i.organization_id == new.organization_id && str_eq i.email new.email
    then new ∷ is
    else i ∷ rest

-- `SELECT id FROM users WHERE email = $1`: the comparison is exact.
unfoldable pub user_by_email : String → List User → Option User
user_by_email email = find (λ u. str_eq u.email email)

pub record InviteMemberRequest : Type 0 where
  pub email : String
  pub role : Option String

pub record InviteMemberResponse : Type 0 where
  pub status : String
  pub email : String
  pub role : String

abbrev pub or_member : Option String → String
or_member none = "member"
or_member (some role) = role

abbrev pub is_owner : Option String → Bool
is_owner none = false
is_owner (some role) = str_eq role "owner"

abbrev on_members : (List Member → List Member) → Database → Database
on_members f db = record db { organization_members = f db.organization_members }

abbrev on_invites : (List Invite → List Invite) → Database → Database
on_invites f db = record db { organization_invites = f db.organization_invites }

-- The branch for an address that belongs to a user.
unfoldable pub join_member : Uuid → String → String → String → User → Handler InviteMemberResponse
unfolding query
join_member org_id actor_role email role invited = do
  existing ← query (select (λ db. role_in org_id invited.id db.organization_members))
  ensure (str_eq actor_role "owner" || not (is_owner existing)) forbidden
  query (update (on_members (upsert_member org_id invited.id role)))
  query (
      update (λ db.
        on_invites
          (accept_invites (λ i. i.organization_id == org_id && str_eq i.email email) db.now) db))
  pure (record { status = "joined"; email = email; role = role })

-- The branch for any other address.
unfoldable pub invite_address : Uuid → Uuid → String → String → Handler InviteMemberResponse
unfolding query
invite_address org_id user_id email role = do
  query (
      update (λ db.
        on_invites
          (upsert_invite (record {
            organization_id = org_id;
            email = email;
            role = role;
            invited_by = some user_id;
            created_at = db.now;
            accepted_at = none;
          }))
          db))
  pure (record { status = "invited"; email = email; role = role })

unfoldable pub by_address :
    Uuid → Uuid → String → String → String → Option User → Handler InviteMemberResponse
by_address org_id user_id actor_role email role (some invited) =
    join_member org_id actor_role email role invited
by_address org_id user_id actor_role email role none = invite_address org_id user_id email role

-- `INSERT INTO organization_members SELECT … FROM accepted ON CONFLICT … DO UPDATE`, of accepted
-- invitations to different organizations.
unfoldable pub join_all : Uuid → List Invite → List Member → List Member
join_all user_id [] rows = rows
join_all user_id (i ∷ is) rows =
    join_all user_id is (upsert_member i.organization_id user_id i.role rows)

-- Two of the invitations are to one organization.
unfoldable pub is_repeated : List Invite → Bool
is_repeated [] = false
is_repeated (i ∷ is) = any (λ j. j.organization_id == i.organization_id) is || is_repeated is

-- The statement of `accept_pending_invites`. One `INSERT … ON CONFLICT DO UPDATE` cannot update a row
-- that it has inserted or updated itself.
unfoldable pub accept_all : (Invite → Bool) → Uuid → Statement (Unit {0})
accept_all mine user_id db =
    let accepted = filter (λ i. mine i && is_open i) db.organization_invites in
    if is_repeated accepted
    then err (other "ON CONFLICT DO UPDATE command cannot affect row a second time")
    else ok (
      tt,
      record db {
        organization_invites = accept_invites mine db.now db.organization_invites;
        organization_members = join_all user_id accepted db.organization_members;
      },
    )

-- The open invitations to an address, by `lower`.
abbrev pub is_addressed : (String → String) → String → Invite → Bool
is_addressed lower email i = str_eq (lower i.email) (lower email)

module _ (unicode : Unicode) where
  open unicode use {trim, to_lowercase, lower}

  unfoldable pub invite_member :
      Option Uuid → Uuid → InviteMemberRequest → Handler InviteMemberResponse
  invite_member sub org_id req = do
    user_id ← claimed sub
    actor_role ← require_org_admin org_id user_id
    let email = to_lowercase (trim req.email)
    ensure (contains_at email) (bad_request "invalid email")
    let role = or_member req.role
    ensure (validate_role role) (bad_request "invalid role")
    ensure (ensure_can_grant_role actor_role role) forbidden
    existing_user ← query (select (λ db. user_by_email email db.users))
    by_address org_id user_id actor_role email role existing_user

  -- `accept_pending_invites` compares the addresses by `lower`.
  unfoldable pub accept_pending_invites : Uuid → String → Handler (Unit {0})
  unfolding query
  accept_pending_invites user_id email = query (accept_all (is_addressed lower email) user_id)

-- `UPDATE machines SET organization_id = $1 WHERE id = $2 AND (user_id = $3 OR organization_id = $1)`.
abbrev pub is_id : Option Uuid → Uuid → Bool
is_id none id = false
is_id (some owner) id = owner == id

abbrev pub is_shareable : Uuid → Uuid → Uuid → Machine → Bool
is_shareable org_id machine_id user_id m =
    m.id == machine_id && (is_id m.user_id user_id || is_id m.organization_id org_id)

unfoldable pub attach : Uuid → Uuid → Uuid → Statement Bool
attach org_id machine_id user_id db = ok (
  any (is_shareable org_id machine_id user_id) db.machines,
  record db {
    machines =
        update_where (is_shareable org_id machine_id user_id)
          (λ m. record m { organization_id = some org_id }) db.machines;
  },
)

unfoldable pub share_machine : Option Uuid → Uuid → Uuid → Handler (Unit {0})
share_machine sub org_id machine_id = do
  user_id ← claimed sub
  require_org_admin org_id user_id
  hit ← query (attach org_id machine_id user_id)
  ensure hit (not_found "machine not found or not shareable")
