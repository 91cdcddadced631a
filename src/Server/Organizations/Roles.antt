-- ===== src/Server/Organizations/Roles.antt =====
-- The members' roles under the statements of apps/server/src/routes/organizations.rs.
use remotekvm.Base.{
  ◌≡◌, List, [], ◌∷◌, true, Option, some, String, arith, ◌&&◌, ◌==◌, if◌then◌else◌,
}
use remotekvm.Server.Schema.{Uuid, Member, Invite}
use remotekvm.Server.Organizations.{
  role_in, upsert_member, is_admin_role, require_org_admin, join_all,
}
use remotekvm.Base.{inl, inr, Bool-cases, Option-cases}
use remotekvm.Base.Exec.{err, ◌>>=◌}
use remotekvm.Server.App.{
  AppState, ApiError, not_found, forbidden, from_sqlx, other, next_fault, run_sql, map_err,
}
use remotekvm.Server.Routes.{Handler, query}
use remotekvm.Server.Routes.Outcomes.{Post}
use remotekvm.Server.Routes.Rules.{after_fault}

-- An upsert sets one member's role and no other.
pub role_in-upsert_member :
    (org_id user_id o u : Uuid) (role : String) (rows : List Member)
    → role_in o u (upsert_member org_id user_id role rows)
      ≡ (if org_id == o && user_id == u then some role else role_in o u rows)
unfolding role_in upsert_member
role_in-upsert_member org_id user_id o u role [] = ground arith
role_in-upsert_member org_id user_id o u role (r ∷ rs) =
    ground (arith, role_in-upsert_member org_id user_id o u role rs)

module _ {B : Type 0} (P : AppState → Type 0) (k : String → Handler B) (s : AppState) where
  -- A handler that goes on for an owner or an administrator only.
  pub bind-admin :
      (org_id user_id : Uuid)
      → P (after_fault s)
      → ((role : String)
          → role_in org_id user_id s.db.organization_members ≡ some role
          → is_admin_role role ≡ true
          → P (k role (after_fault s)).1)
      → P ((require_org_admin org_id user_id >>= k) s).1
  unfolding require_org_admin query run_sql map_err ◌>>=◌
  bind-admin org_id user_id failed next = elim (Option-cases (next_fault s.faults)) [
    | inl e ↦ elim (Option-cases (role_in org_id user_id s.db.organization_members)) [
      | inl none_held ↦ rw (e, none_held) failed
      | inr (role, held) ↦ elim (Bool-cases (is_admin_role role)) [
        | inl admin ↦ rw (e, held, admin) (next role held admin)
        | inr differs ↦ rw (e, held, differs) failed
      ]
    ]
    | inr (msg, e) ↦ rw e failed
  ]

module _ {B : Type 0} (P : Post B) (k : String → Handler B) (s : AppState) where
  -- The same, with the result.
  pub on_admin :
      (org_id user_id : Uuid)
      → ((e : ApiError) → P (err e) (after_fault s))
      → ((role : String)
          → role_in org_id user_id s.db.organization_members ≡ some role
          → is_admin_role role ≡ true
          → P (k role (after_fault s)).0 (k role (after_fault s)).1)
      → P
          ((require_org_admin org_id user_id >>= k) s).0
          ((require_org_admin org_id user_id >>= k) s).1
  unfolding require_org_admin query run_sql map_err ◌>>=◌
  on_admin org_id user_id failed next = elim (Option-cases (next_fault s.faults)) [
    | inl e ↦ elim (Option-cases (role_in org_id user_id s.db.organization_members)) [
      | inl none_held ↦ rw (e, none_held) (failed (not_found "organization not found"))
      | inr (role, held) ↦ elim (Bool-cases (is_admin_role role)) [
        | inl admin ↦ rw (e, held, admin) (next role held admin)
        | inr differs ↦ rw (e, held, differs) (failed forbidden)
      ]
    ]
    | inr (msg, e) ↦ rw e (failed (from_sqlx (other msg)))
  ]

-- The role that the last of the invitations to an organization gives, where there is one.
abbrev pub last_role : Uuid → List Invite → Option String → Option String
last_role o [] held = held
last_role o (i ∷ is) held = last_role o is (if i.organization_id == o then some i.role else held)

pub join_all-roles :
    (user_id o u : Uuid) (is : List Invite) (rows : List Member)
    → role_in o u (join_all user_id is rows)
      ≡ (if user_id == u then last_role o is (role_in o u rows) else role_in o u rows)
unfolding join_all
join_all-roles user_id o u [] rows = ground arith
join_all-roles user_id o u (i ∷ is) rows =
    rw
      (
        join_all-roles user_id o u is (upsert_member i.organization_id user_id i.role rows),
        role_in-upsert_member i.organization_id user_id o u i.role rows,
      )
      (elim (Bool-cases (user_id == u)) [
        | inl same ↦ elim (Bool-cases (i.organization_id == o)) [
          | inl here ↦ rw (same, here)
          | inr there ↦ rw (same, there)
        ]
        | inr differs ↦ elim (Bool-cases (i.organization_id == o)) [
          | inl here ↦ rw (differs, here)
          | inr there ↦ rw (differs, there)
        ]
      ])
