-- ===== src/Server/Checkout/Seats.antt =====
-- For what a checkout asks Stripe, and who may ask.
use remotekvm.Base.{◌≡◌, refl, sym, subst, true, some, String, ℕ, List, arith, inl, inr, ◌⊎◌}
use remotekvm.Base.Exec.{Result, ok, err, pure}
use remotekvm.Server.Schema.{Uuid}
use remotekvm.Server.App.{AppState, ApiError, update}
use remotekvm.Server.Routes.Outcomes.{Post, on_bind, on_ensure, on_claimed, on_select, on_statement}
use remotekvm.Server.Organizations.{is_admin_role, role_in}
use remotekvm.Server.Organizations.Roles.{on_admin}
use remotekvm.Server.Checkout.{
  Config, CheckoutTarget, seats, set_seats, load, returned, params, create_checkout,
}

module _ (user_id org_id : Uuid) (s : AppState) where
  abbrev pub IsAdmin : Type 0
  IsAdmin =
      (role : String) × (role_in org_id user_id s.db.organization_members ≡ some role)
      × (is_admin_role role ≡ true)

  -- The target has a seat for each member, and they are written down for an administrator.
  abbrev pub Loaded : Post CheckoutTarget
  Loaded (ok target) after =
      IsAdmin
      × (target ≡ record {
        organization_id = some org_id;
        quantity = seats org_id s.db.organization_members;
      })
      × (after.db ≡ set_seats org_id (seats org_id s.db.organization_members) s.db)
  Loaded (err e) after = after.db ≡ s.db

  load-Loaded : Loaded (load user_id (some org_id) s).0 (load user_id (some org_id) s).1
  unfolding load pure
  load-Loaded =
      on_admin Loaded _ s org_id user_id (λ e. refl)
        λ role held admin.
          on_select Loaded _ _ (λ db. seats org_id db.organization_members) (λ e. refl)
            (on_statement Loaded _ _
              (update (set_seats org_id (seats org_id s.db.organization_members))) (λ e. refl)
              λ done db written.
                let now_db : set_seats org_id (seats org_id s.db.organization_members) s.db ≡ db =
                  ground arith in
                ((role, held, admin), refl, sym now_db))

  module _ (to_string : Uuid → String) (print : ℕ → String) (config : Config)
      (stripe : List (String × String) → Result String String) where
    abbrev pub target : CheckoutTarget
    target = record {
      organization_id = some org_id;
      quantity = seats org_id s.db.organization_members;
    }

    abbrev pub Seated : AppState → Type 0
    Seated after =
        IsAdmin × (after.db ≡ set_seats org_id (seats org_id s.db.organization_members) s.db)

    abbrev pub CheckedOut : Post String
    CheckedOut (ok url) after =
        Seated after × (stripe (params to_string print config user_id target) ≡ ok url)
    CheckedOut (err e) after = (after.db ≡ s.db) ⊎ Seated after

    answered :
        (result : Result String String) (after : AppState)
        → stripe (params to_string print config user_id target) ≡ result
        → Seated after
        → CheckedOut (returned result after).0 (returned result after).1
    answered (ok url) after e seated = (seated, e)
    answered (err msg) after e seated = inr seated

    -- A checkout for an organization, whichever statement fails and whatever Stripe answers. A URL
    -- comes back only to an owner or an administrator of the organization, and it is what Stripe
    -- answered to the form for as many seats as the organization has members, at least one. The
    -- tables change only for such a user, and only in the seats of the organization, to the same
    -- number.
    pub create_checkout_lem :
        CheckedOut
          (create_checkout to_string print config stripe (some user_id) (some org_id) s).0
          (create_checkout to_string print config stripe (some user_id) (some org_id) s).1
    unfolding create_checkout
    create_checkout_lem = on_ensure CheckedOut _ s _ _ (inl refl) λ configured.
        on_claimed CheckedOut _ s user_id (
          on_bind CheckedOut _ s (load user_id (some org_id))
            (λ e failed. inl (after_failure e failed)) λ loaded done. after_load loaded done)
      where
        after_failure :
            (e : ApiError)
            → (load user_id (some org_id) s).0 ≡ err e
            → (load user_id (some org_id) s).1.db ≡ s.db
        after_failure e failed =
            subst (λ r. Loaded r (load user_id (some org_id) s).1) failed load-Loaded

        after_load :
            (loaded : CheckoutTarget)
            → (load user_id (some org_id) s).0 ≡ ok loaded
            → (let after = (load user_id (some org_id) s).1 in
                let answer = stripe (params to_string print config user_id loaded) in
                CheckedOut (returned answer after).0 (returned answer after).1)
        after_load loaded done =
            let known = subst (λ r. Loaded r (load user_id (some org_id) s).1) done load-Loaded in
            rw known.1 (answered _ (load user_id (some org_id) s).1 refl (known.0, known.2))
