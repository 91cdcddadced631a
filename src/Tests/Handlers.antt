-- ===== src/Tests/Handlers.antt =====
-- The handlers of apps/server/src/routes at a small server: user 3 owns machine 2 and organization
-- 7, of which user 4 is an administrator.
use remotekvm.Base.{All, ◌≡◌, refl, [], ◌∷◌, true, none, some, String}
use remotekvm.Server.Schema.{User, Invite, Machine, empty_database}
use remotekvm.Server.Channels.{Channels}
use remotekvm.Server.Registry.{new}
use remotekvm.Server.Sessions.{new_session}
use remotekvm.Server.App.{AppState, next_fault}
use remotekvm.Server.Organizations.{
  Unicode, InviteMemberRequest, role_in, invite_member, is_repeated, is_addressed,
  accept_pending_invites,
}
use remotekvm.Server.Organizations.Escalation.{owner_in, invite_member-owners}
use remotekvm.Server.Organizations.Invitations.{IsSettled, accept_pending_invites_lem}
use remotekvm.Server.Machines.{owned_machine, machine_of_token, rotate_token, validate_agent_token}
use remotekvm.Server.Machines.{RegisterMachineRequest, register_machine}
use remotekvm.Server.Machines.Registration.{Registered, register_machine_lem}
use remotekvm.Server.Machines.Tokens.{healthy, rotate_token_lem}
use remotekvm.Server.Connect.{connect_machine}
use remotekvm.Server.Connect.Grants.{Outcome, connect_machine_lem}
use remotekvm.Server.Organizations.{share_machine}
use remotekvm.Server.Organizations.Sharing.{Shared, share_machine_lem}
use remotekvm.Base.Exec.{ok}
use remotekvm.Server.Checkout.{Config, create_checkout}
use remotekvm.Server.Checkout.Seats.{CheckedOut, create_checkout_lem}
use remotekvm.Tests.Wires.{wire}

abbrev unicode : Unicode
unicode = record { trim = λ s. s; to_lowercase = λ s. s; lower = λ s. s }

abbrev hash : String → String
hash s = s

abbrev desk : Machine
desk = record {
  id = 2;
  user_id = some 3;
  organization_id = some 7;
  name = "desk";
  hostname = "desk.local";
  tailscale_ip = none;
  platform = "windows";
  registration_token_hash = "old";
  online = true;
  last_seen = none;
}

abbrev owner : User
owner = record {
  id = 3;
  workos_user_id = "w3";
  email = "boss@x";
  first_name = none;
  last_name = none;
  avatar_url = none;
  stripe_customer_id = none;
}

abbrev open_invite : Invite
open_invite = record {
  organization_id = 7;
  email = "boss@x";
  role = "member";
  invited_by = some 4;
  created_at = 5;
  accepted_at = none;
}

abbrev channels : Channels
channels = record { next = 1; at = λ _. record { queue = []; is_open = true } }

abbrev pub office : AppState
office = record {
  db = record empty_database {
    now = 9;
    users = owner ∷ [];
    organization_members =
        record { organization_id = 7; user_id = 3; role = "owner" }
        ∷ record { organization_id = 7; user_id = 4; role = "admin" }
        ∷ [];
    organization_invites = open_invite ∷ [];
    machines = desk ∷ [];
    sessions = new_session 1 3 2 8 ∷ [];
    machine_tokens = record { machine_id = 2; token_hash = "old"; revoked_at = none } ∷ [];
  };
  faults = [];
  signaling = record (new "local" channels) {
    agents = ("uu", record { conn_id = 1; tx = 0 }) ∷ [];
  };
}

abbrev as_member : InviteMemberRequest
as_member = record { email = "boss@x"; role = some "member" }

-- The administrator cannot demote the owner.
invite_member-owners_example :
    owner_in 7 3 (invite_member unicode (some 4) 7 as_member office).1 ≡ owner_in 7 3 office
unfolding role_in
invite_member-owners_example = invite_member-owners unicode 7 3 4 7 as_member office refl

-- The owner's own login does, once an invitation with the owner's address is open.
accept_pending_invites_lem_example :
    ((accept_pending_invites unicode 3 "boss@x" office).0 ≡ ok tt)
    × (role_in 7 3 (accept_pending_invites unicode 3 "boss@x" office).1.db.organization_members
        ≡ some "member")
    × All
        (IsSettled (is_addressed unicode.lower "boss@x"))
        (accept_pending_invites unicode 3 "boss@x" office).1.db.organization_invites
unfolding next_fault is_repeated
accept_pending_invites_lem_example = accept_pending_invites_lem unicode 3 7 3 "boss@x" office refl

rotate_token_lem_example :
    (validate_agent_token hash "new" (rotate_token hash (some 3) 2 "new" (healthy office)).1).0
    ≡ some 2
unfolding owned_machine machine_of_token
rotate_token_lem_example = (rotate_token_lem hash 3 2 "new" office desk "old" refl refl refl refl).1

connect_machine_lem_example :
    Outcome
      (λ t. 0)
      wire
      3
      2
      6
      office
      (connect_machine (λ t. 0) wire (some 3) 2 6 office).0
      (connect_machine (λ t. 0) wire (some 3) 2 6 office).1
connect_machine_lem_example = connect_machine_lem (λ t. 0) wire 3 2 6 office

-- The machine is the user's own.
share_machine_lem_example :
    Shared 7 2 3 office (share_machine (some 3) 7 2 office).0 (share_machine (some 3) 7 2 office).1
share_machine_lem_example = share_machine_lem 7 2 3 office

abbrev laptop : RegisterMachineRequest
laptop = record {
  name = "laptop";
  hostname = "laptop.local";
  tailscale_ip = none;
  platform = "macos";
  organization_id = some 7;
}

register_machine_lem_example :
    Registered hash 3 6 laptop "fresh" office
      (register_machine hash (some 3) laptop 6 "fresh" office).0
      (register_machine hash (some 3) laptop 6 "fresh" office).1
unfolding machine_of_token
register_machine_lem_example = register_machine_lem hash 3 6 laptop "fresh" office refl

abbrev billing : Config
billing = record {
  stripe_secret_key = "key";
  stripe_price_id = "price";
  public_base_url = "https://x";
}

-- An administrator's checkout, for the two members.
create_checkout_lem_example :
    CheckedOut 4 7 office wire.to_string
      (λ n. "n")
      billing
      (λ form. ok "https://pay")
      (create_checkout wire.to_string
        (λ n. "n")
        billing
        (λ form. ok "https://pay")
        (some 4)
        (some 7)
        office).0
      (create_checkout wire.to_string
        (λ n. "n")
        billing
        (λ form. ok "https://pay")
        (some 4)
        (some 7)
        office).1
create_checkout_lem_example =
    create_checkout_lem 4 7 office wire.to_string (λ n. "n") billing (λ form. ok "https://pay")
