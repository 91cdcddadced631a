-- ===== src/Server/Organizations/Escalation.antt =====
-- Who can make, and unmake, an owner of an organization by an invitation.
use remotekvm.Base.{
  ◌≡◌, refl, sym, ◌∙◌, ap, subst, not, ◌&&◌, ◌||◌, ◌==◌, List, Bool, true, false, Option, none,
  some, String, arith, inl, inr, str_eq, str_eq→eq, Bool-cases, ==_refl,
}
use remotekvm.Base.Exec.{pure}
use remotekvm.Server.Schema.{Uuid, User, Member}
use remotekvm.Server.App.{AppState}
use remotekvm.Server.Routes.Rules.{query-select, query-update, bind-ensure, bind-claimed}
use remotekvm.Server.Organizations.{
  Unicode, InviteMemberRequest, role_in, is_owner, ensure_can_grant_role, join_member,
  invite_address, by_address, invite_member, upsert_member,
}
use remotekvm.Server.Organizations.Roles.{role_in-upsert_member, bind-admin}

-- The user is an owner of the organization.
abbrev pub owner_in : Uuid → Uuid → AppState → Bool
owner_in o u s = is_owner (role_in o u s.db.organization_members)

-- What an administrator who is not an owner may grant.
grants_no_ownership :
    (actor_role role : String)
    → str_eq actor_role "owner" ≡ false
    → ensure_can_grant_role actor_role role ≡ true
    → str_eq role "owner" ≡ false
unfolding ensure_can_grant_role
grants_no_ownership actor_role role no_owner may = elim (Bool-cases (str_eq role "owner")) [
  | inl owner ↦
      let granted : ensure_can_grant_role actor_role "owner" ≡ true =
        subst (λ r. ensure_can_grant_role actor_role r ≡ true) (str_eq→eq role "owner" owner) may in
      ground arith
  | inr other ↦ other
]

not_owner : (a b : Bool) → a ≡ false → (a || not b) ≡ true → b ≡ false
not_owner a b ha h = ground arith

module _ (o u : Uuid) where
  -- A role below an owner's, given to someone who is no owner.
  upsert_member-owners :
      (org_id user_id : Uuid) (role : String) (rows : List Member)
      → str_eq role "owner" ≡ false
      → is_owner (role_in org_id user_id rows) ≡ false
      → is_owner (role_in o u (upsert_member org_id user_id role rows))
        ≡ is_owner (role_in o u rows)
  upsert_member-owners org_id user_id role rows low free =
      elim (Bool-cases (org_id == o && user_id == u)) [
        | inl same ↦
            let org : org_id ≡ o = ground arith in
            let user : user_id ≡ u = ground arith in
            subst
              (λ x.
                is_owner (role_in x u (upsert_member org_id user_id role rows))
                ≡ is_owner (role_in x u rows))
              org
              (subst
                (λ y.
                  is_owner (role_in org_id y (upsert_member org_id user_id role rows))
                  ≡ is_owner (role_in org_id y rows))
                user
                (rw (
                  role_in-upsert_member org_id user_id org_id user_id role rows,
                  ==_refl org_id,
                  ==_refl user_id,
                  low,
                  free,
                )))
        | inr other ↦ rw (role_in-upsert_member org_id user_id o u role rows, other)
      ]

  -- An administrator who is not an owner neither grants ownership nor takes it.
  join_member-owners :
      (org_id : Uuid) (actor_role email role : String) (invited : User) (s : AppState)
      → str_eq actor_role "owner" ≡ false
      → ensure_can_grant_role actor_role role ≡ true
      → owner_in o u (join_member org_id actor_role email role invited s).1 ≡ owner_in o u s
  unfolding join_member pure
  join_member-owners org_id actor_role email role invited s no_owner may =
      let P : AppState → Type 0 = λ s'. owner_in o u s' ≡ owner_in o u s in
      query-select P _ s _ refl (
        bind-ensure P _ _ _ _ refl λ free.
          let kept =
            upsert_member-owners org_id invited.id role s.db.organization_members
              (grants_no_ownership actor_role role no_owner may)
              (not_owner (str_eq actor_role "owner") _ no_owner free) in
          query-update P _ _ _ refl (query-update P _ _ _ kept kept))

  by_address-owners :
      (org_id user_id : Uuid) (actor_role email role : String) (existing : Option User)
      (s : AppState)
      → str_eq actor_role "owner" ≡ false
      → ensure_can_grant_role actor_role role ≡ true
      → owner_in o u (by_address org_id user_id actor_role email role existing s).1 ≡ owner_in o u s
  unfolding by_address invite_address pure
  by_address-owners org_id user_id actor_role email role (some invited) s no_owner may =
      join_member-owners org_id actor_role email role invited s no_owner may
  by_address-owners org_id user_id actor_role email role none s no_owner may =
      query-update (λ s'. owner_in o u s' ≡ owner_in o u s) _ _ _ refl refl

module _ (unicode : Unicode) (o u : Uuid) where
  -- An invitation by anyone but an owner of the organization, whatever the request and whichever
  -- statement fails, leaves every organization with the owners it had.
  pub invite_member-owners :
      (user_id org_id : Uuid) (req : InviteMemberRequest) (s : AppState)
      → is_owner (role_in org_id user_id s.db.organization_members) ≡ false
      → owner_in o u (invite_member unicode (some user_id) org_id req s).1 ≡ owner_in o u s
  unfolding invite_member
  invite_member-owners user_id org_id req s no_owner =
      let P : AppState → Type 0 = λ s'. owner_in o u s' ≡ owner_in o u s in
      bind-claimed P _ s user_id (
        bind-admin P _ s org_id user_id refl λ actor_role held admin.
          bind-ensure P _ _ _ _ refl λ _. bind-ensure P _ _ _ _ refl λ _.
            bind-ensure P _ _ _ _ refl λ may. query-select P _ _ _ refl (
              by_address-owners o u org_id user_id actor_role _ _ _ _
                (ap is_owner (sym held) ∙ no_owner) may))
