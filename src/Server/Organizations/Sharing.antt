-- ===== src/Server/Organizations/Sharing.antt =====
-- Which machines an organization can be given.
use remotekvm.Base.{
  ◌≡◌, refl, sym, ap, ◌∙◌, List, [], ◌∷◌, true, false, some, arith, any, update_where, Bool-cases,
  inl, inr,
}
use remotekvm.Base.Exec.{ok, err}
use remotekvm.Server.Schema.{Uuid, Machine}
use remotekvm.Server.App.{AppState}
use remotekvm.Server.Routes.{ensure}
use remotekvm.Server.Routes.Outcomes.{Post, on_statement, on_claimed}
use remotekvm.Server.Organizations.{is_shareable, is_admin_role, role_in, attach, share_machine}
use remotekvm.Server.Organizations.Roles.{on_admin}

module _ (org_id machine_id user_id : Uuid) (s : AppState) where
  abbrev shared : List Machine → List Machine
  shared =
      update_where (is_shareable org_id machine_id user_id)
        (λ m. record m { organization_id = some org_id })

  -- What may come of a request, by its result.
  abbrev pub Shared : Post (Unit {0})
  Shared (ok u) after =
      ((role : _) × (role_in org_id user_id s.db.organization_members ≡ some role)
        × (is_admin_role role ≡ true))
      × (any (is_shareable org_id machine_id user_id) s.db.machines ≡ true)
      × (after.db ≡ record s.db { machines = shared s.db.machines })
  Shared (err e) after = after.db ≡ s.db

  shared_none :
      (rows : List Machine)
      → any (is_shareable org_id machine_id user_id) rows ≡ false
      → shared rows ≡ rows
  shared_none [] nobody = refl
  shared_none (m ∷ rows) nobody =
      let here : is_shareable org_id machine_id user_id m ≡ false = ground arith in
      let later : any (is_shareable org_id machine_id user_id) rows ≡ false = ground arith in
      rw (here, shared_none rows later) refl

  -- Whichever statement fails, a refusal leaves every table as it was. A machine is attached only by
  -- an owner or an administrator of the organization, and only a machine that is the user's own or
  -- the organization's already; its row changes in the organization alone, and no other row does.
  pub share_machine_lem :
      Shared
        (share_machine (some user_id) org_id machine_id s).0
        (share_machine (some user_id) org_id machine_id s).1
  unfolding share_machine ensure attach
  share_machine_lem = on_claimed Shared _ s user_id (
      on_admin Shared _ s org_id user_id (λ e. refl)
        λ role held admin.
          on_statement Shared _ _ (attach org_id machine_id user_id) (λ e. refl)
            λ hit db done.
              let was_hit : any (is_shareable org_id machine_id user_id) s.db.machines ≡ hit =
                ground arith in
              let now_db : record s.db { machines = shared s.db.machines } ≡ db = ground arith in
              elim (Bool-cases hit) [
                | inl found ↦ rw found ((role, held, admin), was_hit ∙ found, sym now_db)
                | inr missed ↦ rw missed (
                    sym now_db
                    ∙ ap (λ ms. record s.db { machines = ms })
                        (shared_none s.db.machines (was_hit ∙ missed)))
              ])
