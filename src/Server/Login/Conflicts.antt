-- ===== src/Server/Login/Conflicts.antt =====
-- What the unique columns mean for a login.
use remotekvm.Base.{
  ℕ, ◌≡◌, ◌≢◌, subst, List, ◌∷◌, true, not, ◌&&◌, Option, none, some, String, str_eq, arith, ◌==◌,
  any, Bool-cases, inl, inr,
}
use remotekvm.Base.Bytes.{Bytes}
use remotekvm.Base.Exec.{Result, ok, err, ◌>>=◌}
use remotekvm.Server.Schema.{Uuid, User, Database}
use remotekvm.Server.App.{AppState}
use remotekvm.Server.Routes.{Handler}
use remotekvm.Server.Routes.Outcomes.{Post, on_bind, on_ok_or, on_statement}
use remotekvm.Server.Login.Upserts.{
  WorkOsUserProfile, WorkOsOrganizationMembership, upsert_user_row, upsert_user,
  upsert_organization_row, is_organization,
}
use remotekvm.Server.Login.Callback.{
  Crates, Config, Response, upsert_organization, upsert_all, slugify, or_internal, workos_callback,
}

-- A result other than this one.
abbrev Avoids : {B : Type 0} → B → Post B
Avoids r result s = result ≢ ok r

upsert_user_row-organizations :
    (drawn a : Uuid) (profile : WorkOsUserProfile) (found : Option User) (db db' : Database)
    → upsert_user_row drawn profile found db ≡ ok (a, db')
    → db.organizations ≡ db'.organizations
upsert_user_row-organizations drawn a profile none db db' h =
    elim (Bool-cases (any (λ u. str_eq u.email profile.email) db.users)) [
      | inl taken ↦ absurd (ground arith)
      | inr free ↦ ground arith
    ]
upsert_user_row-organizations drawn a profile (some user) db db' h =
    elim (Bool-cases (any (λ u. not (u.id == user.id) && str_eq u.email profile.email) db.users)) [
      | inl taken ↦ absurd (ground arith)
      | inr free ↦ ground arith
    ]

module _ (crates : Crates) (config : Config) (m : WorkOsOrganizationMembership) where
  -- Another organization has the slug that the name of this one gives.
  abbrev pub SlugTaken : Database → Type 0
  SlugTaken db =
      any
        (λ o.
          not (is_organization m.organization.id o)
          && str_eq o.slug (slugify crates config m.organization.name))
        db.organizations
      ≡ true

  not_upserted :
      {B : Type 0} (drawn : Uuid) (k : Unit {0} → Handler B) (s : AppState) (b : B)
      → SlugTaken s.db
      → ((upsert_organization crates config drawn m >>= k) s).0 ≢ ok b
  unfolding upsert_organization
  not_upserted drawn k s b taken =
      on_statement (Avoids b) k s
        (upsert_organization_row drawn m.organization (slugify crates config m.organization.name))
        (λ e h. absurd (ground arith)) λ a db stored. absurd (ground arith)

  upsert_all_fails :
      (user_id : Uuid) (drawn : ℕ → Uuid) (ms : List WorkOsOrganizationMembership) (s : AppState)
      (done : Unit {0})
      → SlugTaken s.db
      → (upsert_all crates config user_id drawn 0 (m ∷ ms) s).0 ≢ ok done
  unfolding upsert_all
  upsert_all_fails user_id drawn ms s done taken =
      on_bind (Avoids done) _ s _ (λ e failed h. absurd (ground arith))
        λ a stored. absurd (not_upserted (drawn 0) _ s a taken stored)

  refused :
      (profile : WorkOsUserProfile) (ms : List WorkOsOrganizationMembership) (drawn_user : Uuid)
      (drawn : ℕ → Uuid) {B : Type 0} (k : Uuid → Unit {0} → Handler B) (s : AppState) (b : B)
      → SlugTaken s.db
      → ((upsert_user drawn_user profile >>= λ user_id.
            upsert_all crates config user_id drawn 0 (m ∷ ms) >>= k user_id)
          s).0
        ≢ ok b
  unfolding upsert_user
  refused profile ms drawn_user drawn k s b taken =
      on_statement (Avoids b) _ s _ (λ e h. absurd (ground arith))
        λ user_id db stored.
          on_bind (Avoids b) _ _ _ (λ e failed h. absurd (ground arith))
            λ done all.
              let kept : SlugTaken db =
                subst
                  (λ os.
                    any
                      (λ o.
                        not (is_organization m.organization.id o)
                        && str_eq o.slug (slugify crates config m.organization.name))
                      os
                    ≡ true)
                  (upsert_user_row-organizations drawn_user user_id profile _ s.db db stored)
                  taken in
              absurd (upsert_all_fails user_id drawn ms _ done kept all)

after_profile :
    {A B : Type 0} (prefix : String) (result : Result String A) (a : A) (k : A → Handler B)
    (s : AppState) (b : B)
    → result ≡ ok a
    → (k a s).0 ≢ ok b
    → ((or_internal prefix result >>= k) s).0 ≢ ok b
unfolding ◌>>=◌
after_profile prefix (ok a') a k s b h next =
    let same : a ≡ a' = ground arith in subst (λ x. (k x s).0 ≢ ok b) same next
after_profile prefix (err e) a k s b h next = absurd (ground arith)

-- WorkOS confirms a user whose first organization has a name that gives the slug of another
-- organization of the table: the login does not succeed, whatever else is in the tables and whatever
-- the other statements do.
pub slug_taken :
    (crates : Crates) (config : Config) (profile : WorkOsUserProfile)
    (m : WorkOsOrganizationMembership) (ms : List WorkOsOrganizationMembership) (now : ℕ)
    (drawn_user : Uuid) (drawn : ℕ → Uuid) (code : String) (state : Option Bytes) (s : AppState)
    (r : Response)
    → crates.authenticate_with_code code ≡ ok (record profile { organizations = m ∷ ms })
    → SlugTaken crates config m s.db
    → (workos_callback crates config now drawn_user drawn
        (record { code = some code; state = state })
        s).0
      ≢ ok r
unfolding workos_callback
slug_taken crates config profile m ms now drawn_user drawn code state s r known taken =
    on_ok_or (Avoids r) _ s (some code) _ (λ h. absurd (ground arith))
      λ given found.
        let same : code ≡ given = ground arith in
        after_profile "WorkOS authentication failed: " (crates.authenticate_with_code given)
          (record profile { organizations = m ∷ ms }) _ s r
          (subst
            (λ c. crates.authenticate_with_code c ≡ ok (record profile { organizations = m ∷ ms }))
            same known)
          (refused crates config m (record profile { organizations = m ∷ ms }) ms drawn_user drawn _
            s r taken)
