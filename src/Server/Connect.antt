-- ===== src/Server/Connect.antt =====
-- apps/server/src/routes/sessions.rs. The drawn key and `date_trunc('month', …)` are parameters.
pub mod Grants
pub mod Handover
use remotekvm.Base.{
  ℕ, ◌+◌, ◌-◌, ◌/◌, ◌≡◌, List, [], ◌∷◌, Bool, true, false, not, ◌&&◌, ◌||◌, Option, none, some,
  String, str_eq, ◌==◌, leb, ltb, if◌then◌else◌, find, any,
}
use remotekvm.Base.Exec.{Result, ok, err, pure, modify, ◌>>=◌, ◌>>◌}
use remotekvm.Server.Schema.{Uuid, Machine, Session, Organization, Database}
use remotekvm.Server.App.{
  AppState, ApiError, forbidden, not_found, bad_request, other, Statement, select,
}
use remotekvm.Server.Registry.{is_agent_online, record_session_route}
use remotekvm.Server.Sessions.{new_session, coalesce}
use remotekvm.Server.Routes.{Handler, query, ensure, ok_or, claimed}
use remotekvm.Server.Organizations.{is_id}
use remotekvm.Server.Machines.{accessible}
use remotekvm.Server.Relay.{Wire}

pub record MachineAccessRow : Type 0 where
  pub id : Uuid
  pub organization_id : Option Uuid
  pub user_id : Option Uuid
  pub plan : String

-- `COALESCE(o.plan, 'free')` over the left join.
plan_of_row : Option Organization → String
plan_of_row none = "free"
plan_of_row (some o) = o.plan

plan_of : Option Uuid → List Organization → String
unfolding plan_of_row
plan_of none orgs = "free"
plan_of (some org_id) orgs = plan_of_row (find (λ o. o.id == org_id) orgs)

access_row_of : Option Machine → Database → Option MachineAccessRow
access_row_of none db = none
access_row_of (some m) db = some (record {
  id = m.id;
  organization_id = m.organization_id;
  user_id = m.user_id;
  plan = plan_of m.organization_id db.organizations;
})

unfoldable pub access_row : Uuid → Uuid → Database → Option MachineAccessRow
unfolding access_row_of plan_of
access_row machine_id user_id db = access_row_of (accessible machine_id user_id db) db

-- `PlanQuota::for_plan`, which is its `monthly_minutes`.
unfoldable pub for_plan : String → Option ℕ
for_plan plan =
    if str_eq plan "team" || str_eq plan "pro"
    then some 50000
    else if str_eq plan "enterprise"
    then none
    else some 120

-- The seconds of the sessions since a time on the machines that a test selects.
unfoldable pub seconds_since : ℕ → ℕ → (Machine → Bool) → List Machine → List Session → ℕ
seconds_since now start p machines [] = 0
seconds_since now start p machines (s ∷ rows) =
    let rest = seconds_since now start p machines rows in
    if leb start s.started_at && any (λ m. m.id == s.machine_id && p m) machines
    then (coalesce s.ended_at now - s.started_at) + rest
    else rest

is_personal : Uuid → Machine → Bool
is_personal user_id m =
    is_id m.user_id user_id && elim m.organization_id [ none ↦ true | some _ ↦ false ]

abbrev pub unwrap_or : Option Uuid → Uuid → Uuid
unwrap_or none user_id = user_id
unwrap_or (some owner) user_id = owner

-- The machines that draw on the same quota as the one of the row.
unfoldable pub shares_quota : MachineAccessRow → Uuid → Machine → Bool
unfolding is_personal
shares_quota row user_id m = elim row.organization_id [
  | some org_id ↦ is_id m.organization_id org_id
  | none ↦ is_personal (unwrap_or row.user_id user_id) m
]

pub record ConnectResponse : Type 0 where
  pub session_id : Uuid
  pub status : String

-- `INSERT INTO sessions`, with its primary key and its two foreign keys.
unfoldable pub insert_session : Uuid → Uuid → Uuid → Statement (Unit {0})
insert_session id user_id machine_id db =
    if not (any (λ s. s.id == id) db.sessions)
      && any (λ u. u.id == user_id) db.users
      && any (λ m. m.id == machine_id) db.machines
    then ok (tt, record db { sessions = new_session id user_id machine_id db.now ∷ db.sessions })
    else err (other "constraint violation")

unfoldable pub ask_online : String → Handler Bool
ask_online machine_id s =
    let (online, st) = is_agent_online machine_id s.signaling in
    (ok online, record s { signaling = st })

-- The last step: `record_session_route`, and the response.
unfoldable pub respond : Wire → Uuid → Uuid → Uuid → Handler ConnectResponse
respond wire user_id machine_id drawn s = (
  ok (record { session_id = drawn; status = "pending" }),
  record s {
    signaling =
        record_session_route (wire.to_string drawn) (wire.to_string machine_id)
          (wire.to_string user_id) s.signaling;
  },
)

module _ (month_start : ℕ → ℕ) where
  unfoldable pub used_seconds : MachineAccessRow → Uuid → Database → ℕ
  used_seconds row user_id db =
      seconds_since db.now (month_start db.now) (shares_quota row user_id) db.machines db.sessions

  check_quota : Option ℕ → MachineAccessRow → Uuid → Handler (Unit {0})
  unfolding query ensure ◌>>=◌ pure
  check_quota none row user_id = pure tt
  check_quota (some monthly_minutes) row user_id = do
    used ← query (select (used_seconds row user_id))
    ensure (not (leb monthly_minutes (used / 60))) forbidden

  unfoldable pub ensure_usage_quota : MachineAccessRow → Uuid → Handler (Unit {0})
  unfolding check_quota
  ensure_usage_quota row user_id = check_quota (for_plan row.plan) row user_id

  unfoldable pub connect_machine : Wire → Option Uuid → Uuid → Uuid → Handler ConnectResponse
  connect_machine wire sub machine_id drawn = do
    user_id ← claimed sub
    found ← query (select (access_row machine_id user_id))
    row ← ok_or found (not_found "Machine not found")
    ensure_usage_quota row user_id
    online ← ask_online (wire.to_string machine_id)
    ensure online (bad_request "Machine agent is not connected to the signaling server")
    query (insert_session drawn user_id row.id)
    respond wire user_id machine_id drawn
