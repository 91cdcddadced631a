-- ===== src/Server/Schema.antt =====
-- The tables of apps/server/migrations, each as the list of its rows, and the clock that `NOW()`
-- reads, in seconds. Columns that no statement of the modelled handlers reads are left out.
use remotekvm.Base.{ℕ, Option, String, List, Bool, []}

-- A UUID as its 128-bit number.
abbrev pub Uuid : Type 0
Uuid = ℕ

-- The three values that the code writes into `sessions.status`.
pub data Status : Type 0 where
  pending active ended : Status

pub record User : Type 0 where
  pub id : Uuid
  pub workos_user_id : String
  pub email : String
  pub first_name : Option String
  pub last_name : Option String
  pub avatar_url : Option String
  pub stripe_customer_id : Option String

pub record Organization : Type 0 where
  pub id : Uuid
  pub workos_org_id : String
  pub name : String
  pub slug : String
  pub stripe_customer_id : Option String
  pub stripe_subscription_id : Option String
  pub plan : String
  pub seat_count : ℕ

pub record Member : Type 0 where
  pub organization_id : Uuid
  pub user_id : Uuid
  pub role : String

pub record Invite : Type 0 where
  pub organization_id : Uuid
  pub email : String
  pub role : String
  pub invited_by : Option Uuid
  pub created_at : ℕ
  pub accepted_at : Option ℕ

pub record Machine : Type 0 where
  pub id : Uuid
  pub user_id : Option Uuid
  pub organization_id : Option Uuid
  pub name : String
  pub hostname : String
  pub tailscale_ip : Option String
  pub platform : String
  pub registration_token_hash : String
  pub online : Bool
  pub last_seen : Option ℕ

pub record Session : Type 0 where
  pub id : Uuid
  pub user_id : Uuid
  pub machine_id : Uuid
  pub started_at : ℕ
  pub ended_at : Option ℕ
  pub status : Status
  pub bytes_sent : ℕ
  pub bytes_received : ℕ

pub record MachineToken : Type 0 where
  pub machine_id : Uuid
  pub token_hash : String
  pub revoked_at : Option ℕ

pub record Database : Type 0 where
  pub now : ℕ
  pub users : List User
  pub organizations : List Organization
  pub organization_members : List Member
  pub organization_invites : List Invite
  pub machines : List Machine
  pub sessions : List Session
  pub machine_tokens : List MachineToken

abbrev pub empty_database : Database
empty_database = record {
  now = 0;
  users = [];
  organizations = [];
  organization_members = [];
  organization_invites = [];
  machines = [];
  sessions = [];
  machine_tokens = [];
}
