-- ===== src/Tests/Loops.antt =====
-- The two loops at a small server with empty channels.
use remotekvm.Base.{arith, refl, [], ◌∷◌, true, none}
use remotekvm.Base.Maps.{lookup}
use remotekvm.Server.Schema.{empty_database}
use remotekvm.Server.Messages.{ice_candidate}
use remotekvm.Server.Channels.{Channels}
use remotekvm.Server.Registry.{new}
use remotekvm.Server.Sessions.{new_session, usage_overflows}
use remotekvm.Server.App.{AppState}
use remotekvm.Server.Relay.{session_owner}
use remotekvm.Server.Relay.Loops.{Sockets, Loops, Steps, IsStuck}
use remotekvm.Server.Relay.Loops.Blocked.{Waits}
use remotekvm.Server.Relay.Loops.Deadlock.{deadlock_lem}
use remotekvm.Tests.Wires.{wire, print, parse}

abbrev fresh : Channels
fresh = record { next = 2; at = λ _. record { queue = []; is_open = true } }

-- Session 1 on machine 2 belongs to user 3.
abbrev server : AppState
server = record {
  db = record empty_database { sessions = new_session 1 3 2 100 ∷ [] };
  faults = [];
  signaling = record (new "local" fresh) {
    agents = ("uu", record { conn_id = 1; tx = 0 }) ∷ [];
    clients = ("u", 1) ∷ [];
  };
}

abbrev sockets : Sockets
sockets = record { machine_id = 2; conn_id = 1; agent_rx = 0; user_id = "uuu"; client_rx = 1 }

abbrev both_idle : Loops
both_idle = record {
  app = server;
  owned_sessions = "u" ∷ [];
  agent_waits = none;
  client_waits = none;
  agent_runs = true;
  client_runs = true;
}

deadlock_lem_example :
    (l' : Loops) × Steps wire sockets both_idle l'
    × Waits l' 1 (ice_candidate "u" "candidate") 0 (ice_candidate "u" "candidate")
    × IsStuck wire sockets l'
unfolding print parse session_owner lookup usage_overflows
deadlock_lem_example =
    deadlock_lem wire sockets 1 "u" "ice" "ice" "candidate" "candidate" both_idle
      (new_session 1 3 2 100) (record { conn_id = 1; tx = 0 }) refl refl refl refl refl refl refl
      (omega arith) refl refl refl (refl, refl) (refl, refl) refl refl (omega arith) (omega arith)
