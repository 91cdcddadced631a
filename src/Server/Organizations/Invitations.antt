-- ===== src/Server/Organizations/Invitations.antt =====
-- What the invitations to an address do to the user who logs in with it.
use remotekvm.Base.{
  ◌≡◌, refl, ap, subst, ◌∙◌, List, [], ◌∷◌, Bool, true, false, Option, none, some, String, arith,
  find, any, ==→eq, Bool-cases, inl, inr, ◌&&◌, ◌==◌, if◌then◌else◌, filter, All,
}
use remotekvm.Base.Exec.{Result, ok, err}
use remotekvm.Server.Schema.{Uuid, Invite}
use remotekvm.Server.App.{AppState, ApiError, internal, next_fault, run_sql, map_err}
use remotekvm.Server.Routes.{query}
use remotekvm.Server.Organizations.{
  Unicode, role_in, is_open, is_addressed, accept_invites, is_repeated, accept_all,
  accept_pending_invites,
}
use remotekvm.Server.Organizations.Roles.{last_role, join_all-roles}

-- The invitation is to another address, or it has been accepted.
abbrev pub IsSettled : (Invite → Bool) → Invite → Type 0
IsSettled mine i = (mine i && is_open i) ≡ false

accept_invites-IsSettled :
    (mine : Invite → Bool) (now : _) (is : List Invite)
    → ((i : Invite) (t : _) → mine (record i { accepted_at = t }) ≡ mine i)
    → All (IsSettled mine) (accept_invites mine now is)
unfolding accept_invites
accept_invites-IsSettled mine now [] same = tt
accept_invites-IsSettled mine now (i ∷ is) same =
    (ground (arith, same i (some now)), accept_invites-IsSettled mine now is same)

nobody_left :
    (o : Uuid) (is : List Invite) (held : Option String)
    → any (λ j. j.organization_id == o) is ≡ false
    → last_role o is held ≡ held
nobody_left o [] held h = refl
nobody_left o (i ∷ is) held h =
    let other : (i.organization_id == o) ≡ false = ground arith in
    rw other (nobody_left o is held (ground arith))

-- The role that the invitation to an organization gives, where there is one.
abbrev pub invited_role : Option Invite → Option String → Option String
invited_role none held = held
invited_role (some i) held = some i.role

last_role-find :
    (o : Uuid) (is : List Invite) (held : Option String)
    → is_repeated is ≡ false
    → last_role o is held ≡ invited_role (find (λ i. i.organization_id == o) is) held
unfolding is_repeated
last_role-find o [] held h = refl
last_role-find o (i ∷ is) held h = elim (Bool-cases (i.organization_id == o)) [
  | inl here ↦
      let same : i.organization_id ≡ o = ==→eq i.organization_id o here in
      let alone : any (λ j. j.organization_id == i.organization_id) is ≡ false = ground arith in
      rw here (
        nobody_left o is (some i.role)
          (subst (λ k. any (λ j. j.organization_id == k) is ≡ false) same alone))
  | inr there ↦ rw there (last_role-find o is held (ground arith))
]

module _ (unicode : Unicode) (user_id : Uuid) (email : String) (s : AppState) where
  -- The open invitations to the address.
  abbrev pub invitations : List Invite
  invitations =
      filter (λ i. is_addressed unicode.lower email i && is_open i) s.db.organization_invites

  -- What may come of the statement, by whether two of the invitations are to one organization.
  abbrev pub Accepted : Bool → Uuid → Uuid → Result ApiError (Unit {0}) → AppState → Type 0
  Accepted true o u result after =
      (result ≡ err (internal "ON CONFLICT DO UPDATE command cannot affect row a second time"))
      × (after.db ≡ s.db)
  Accepted false o u result after =
      (result ≡ ok tt)
      × (role_in o u after.db.organization_members ≡ (
          if user_id == u
          then invited_role (find (λ i. i.organization_id == o) invitations)
              (role_in o u s.db.organization_members)
          else role_in o u s.db.organization_members))
      × All (IsSettled (is_addressed unicode.lower email)) after.db.organization_invites

-- A login where the database answers. If two open invitations to the address are to one organization,
-- the statement fails and every table is as before. Else it settles every open invitation to the
-- address, and gives the user in each organization the role of the invitation to it, where there is
-- one: whatever role the user held, an owner's too. Nobody else's role changes.
pub accept_pending_invites_lem :
    (unicode : Unicode) (user_id o u : Uuid) (email : String) (s : AppState)
    → next_fault s.faults ≡ none
    → Accepted unicode user_id email s
        (is_repeated (invitations unicode user_id email s))
        o
        u
        (accept_pending_invites unicode user_id email s).0
        (accept_pending_invites unicode user_id email s).1
unfolding accept_pending_invites accept_all query run_sql map_err
accept_pending_invites_lem unicode user_id o u email s fine =
    let mine = is_addressed unicode.lower email in
    let accepted = invitations unicode user_id email s in
    elim (Bool-cases (is_repeated accepted)) [
      | inl twice ↦ rw (fine, twice) (refl, refl)
      | inr apart ↦
          rw (fine, apart)
            (
              refl,
              join_all-roles user_id o u accepted s.db.organization_members
                  ∙ ap (λ r. if user_id == u then r else role_in o u s.db.organization_members)
                      (last_role-find o accepted (role_in o u s.db.organization_members) apart),
              accept_invites-IsSettled mine s.db.now s.db.organization_invites λ i t. refl,
            )
    ]
