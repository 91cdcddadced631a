-- ===== src/Server/Login/Upserts.antt =====
-- The rows that a login writes, apps/server/src/auth/routes.rs, from the profile of auth/workos.rs:
-- `upsert_user`, `upsert_membership` and the statement of `upsert_organization`.
use remotekvm.Base.{
  List, [], ◌∷◌, ◌++◌, Bool, not, ◌&&◌, Option, none, some, String, str_eq, ◌==◌, if◌then◌else◌,
  find, any, update_where,
}
use remotekvm.Base.Exec.{ok, err}
use remotekvm.Server.Schema.{Uuid, User, Organization}
use remotekvm.Server.App.{unique_violation, other, Statement}
use remotekvm.Server.Routes.{Handler, query}
use remotekvm.Server.Organizations.{upsert_member, validate_role}

pub record WorkOsOrganization : Type 0 where
  pub id : String
  pub name : String

-- A membership, with the slug of its role.
pub record WorkOsOrganizationMembership : Type 0 where
  pub organization : WorkOsOrganization
  pub role : Option String

pub record WorkOsUserProfile : Type 0 where
  pub id : String
  pub email : String
  pub first_name : Option String
  pub last_name : Option String
  pub profile_picture_url : Option String
  pub organizations : List WorkOsOrganizationMembership

-- `ON CONFLICT (workos_user_id) DO UPDATE … RETURNING id`, where `email` is unique too.
abbrev pub upsert_user_row : Uuid → WorkOsUserProfile → Option User → Statement Uuid
upsert_user_row drawn profile none db =
    if any (λ u. str_eq u.email profile.email) db.users
    then err unique_violation
    else ok (
      drawn,
      record db {
        users =
            db.users
            ++ record {
              id = drawn;
              workos_user_id = profile.id;
              email = profile.email;
              first_name = profile.first_name;
              last_name = profile.last_name;
              avatar_url = profile.profile_picture_url;
              stripe_customer_id = none;
            }
              ∷ [];
      },
    )
upsert_user_row drawn profile (some user) db =
    if any (λ u. not (u.id == user.id) && str_eq u.email profile.email) db.users
    then err unique_violation
    else ok (
      user.id,
      record db {
        users =
            update_where (λ u. u.id == user.id)
              (λ u. record u {
                email = profile.email;
                first_name = profile.first_name;
                last_name = profile.last_name;
                avatar_url = profile.profile_picture_url;
              })
              db.users;
      },
    )

unfoldable pub upsert_user : Uuid → WorkOsUserProfile → Handler Uuid
unfolding query
upsert_user drawn profile = query (λ db.
    upsert_user_row drawn profile (find (λ u. str_eq u.workos_user_id profile.id) db.users) db)

abbrev pub is_organization : String → Organization → Bool
is_organization workos_org_id o = str_eq o.workos_org_id workos_org_id

-- `ON CONFLICT (workos_org_id) DO UPDATE`, where `slug` is unique too.
abbrev pub upsert_organization_row : Uuid → WorkOsOrganization → String → Statement (Unit {0})
upsert_organization_row drawn org slug db =
    if any (λ o. not (is_organization org.id o) && str_eq o.slug slug) db.organizations
    then err unique_violation
    else ok (
      tt,
      record db {
        organizations =
            if any (is_organization org.id) db.organizations
            then update_where (is_organization org.id)
                (λ o. record o { name = org.name; slug = slug }) db.organizations
            else db.organizations
              ++ record {
                id = drawn;
                workos_org_id = org.id;
                name = org.name;
                slug = slug;
                stripe_customer_id = none;
                stripe_subscription_id = none;
                plan = "free";
                seat_count = 1;
              }
                ∷ [];
      },
    )

-- `SELECT o.id … WHERE o.workos_org_id = $3`: no row inserts nothing. A role that WorkOS names is held
-- against `organization_members_role_check`.
abbrev pub joined_organization : Uuid → String → Option Organization → Statement (Unit {0})
joined_organization user_id role none db = ok (tt, db)
joined_organization user_id role (some o) db =
    if validate_role role
    then ok (
      tt,
      record db { organization_members = upsert_member o.id user_id role db.organization_members },
    )
    else err (other "violates check constraint organization_members_role_check")

abbrev pub role_or_member : Option String → String
role_or_member none = "member"
role_or_member (some role) = role

unfoldable pub upsert_membership : Uuid → WorkOsOrganizationMembership → Handler (Unit {0})
unfolding query
upsert_membership user_id m = query (λ db.
    joined_organization user_id (role_or_member m.role)
      (find (is_organization m.organization.id) db.organizations) db)
