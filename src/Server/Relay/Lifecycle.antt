-- ===== src/Server/Relay/Lifecycle.antt =====
-- What any sequence of events of the relay does to the table `sessions`.
use remotekvm.Base.{ℕ, List, arith, All}
use remotekvm.Server.Schema.{Uuid, Database, Session}
use remotekvm.Server.Sessions.{
  mark_session_active, mark_session_ended, end_machine_sessions, record_session_usage, on_sessions,
  set_active, set_ended, set_machine_ended, add_usage,
}
use remotekvm.Server.Sessions.Lifecycle.{
  Advances, IsConsistent, Advances-refl, Advances-trans, set_active-Advances, set_ended-Advances,
  set_machine_ended-Advances, add_usage-Advances, set_active-IsConsistent, set_ended-IsConsistent,
  set_machine_ended-IsConsistent, add_usage-IsConsistent,
}
use remotekvm.Server.App.{AppState}
use remotekvm.Server.Relay.{Wire, mark_online, mark_offline}
use remotekvm.Server.Relay.Events.{Event, run}
use remotekvm.Server.Relay.Tables.{MaintainsRelay, run-OnDb}

-- The sessions of `db` came from `ss`, and each is ended exactly when it has an end time.
abbrev pub IsTidy : List Session → Database → Type 0
IsTidy ss db = Advances ss db.sessions × All IsConsistent db.sessions

-- What `IsTidy` asks of an update of the table.
record IsProgress (f : List Session → List Session) : Type 0 where
  advances : (xs : List Session) → Advances xs (f xs)
  consistent : (xs : List Session) → All IsConsistent xs → All IsConsistent (f xs)

set_active-IsProgress : (id : Uuid) → IsProgress (set_active id)
set_active-IsProgress id = record {
  advances = set_active-Advances id;
  consistent = set_active-IsConsistent id;
}

set_ended-IsProgress : (id : Uuid) (now : ℕ) → IsProgress (set_ended id now)
set_ended-IsProgress id now = record {
  advances = set_ended-Advances id now;
  consistent = set_ended-IsConsistent id now;
}

set_machine_ended-IsProgress : (m : Uuid) (now : ℕ) → IsProgress (set_machine_ended m now)
set_machine_ended-IsProgress m now = record {
  advances = set_machine_ended-Advances m now;
  consistent = set_machine_ended-IsConsistent m now;
}

add_usage-IsProgress : (id : Uuid) (sent received : ℕ) → IsProgress (add_usage id sent received)
add_usage-IsProgress id sent received = record {
  advances = add_usage-Advances id sent received;
  consistent = add_usage-IsConsistent id sent received;
}

module _ (ss : List Session) where
  on_sessions-IsTidy :
      (f : List Session → List Session) (db : Database)
      → IsProgress f
      → IsTidy ss db
      → IsTidy ss (on_sessions f db)
  on_sessions-IsTidy f db p h =
      (Advances-trans ss _ _ h.0 (p.advances db.sessions), p.consistent db.sessions h.1)

  pub IsTidy-MaintainsRelay : MaintainsRelay (IsTidy ss)
  unfolding mark_session_active mark_session_ended end_machine_sessions record_session_usage
      mark_online mark_offline
  IsTidy-MaintainsRelay = record {
    activate = λ id. record {
      after = λ db a db' e h.
          ground (arith, on_sessions-IsTidy (set_active id) db (set_active-IsProgress id) h);
    };
    finish = λ id. record {
      after = λ db a db' e h.
          ground (arith, on_sessions-IsTidy _ db (set_ended-IsProgress id db.now) h);
    };
    finish_machine = λ id. record {
      after = λ db a db' e h.
          ground (arith, on_sessions-IsTidy _ db (set_machine_ended-IsProgress id db.now) h);
    };
    usage = λ id sent received. record {
      after = λ db a db' e h.
          ground (arith, on_sessions-IsTidy _ db (add_usage-IsProgress id sent received) h);
    };
    online = λ id. record { after = λ db a db' e h. ground arith };
    offline = λ id. record { after = λ db a db' e h. ground arith };
  }

-- Over any events of the relay, from a table in which a session is ended exactly when it has an end
-- time: no row is lost or changes its owner, machine or start, no session leaves `ended` or returns
-- to `pending`, an end time that is set stays as it is, no counter falls, and again a session is
-- ended exactly when it has an end time.
pub run_sessions :
    (wire : Wire) (s : AppState) (es : List Event)
    → All IsConsistent s.db.sessions
    → Advances s.db.sessions (run wire s es).db.sessions
      × All IsConsistent (run wire s es).db.sessions
run_sessions wire s es h =
    run-OnDb (IsTidy-MaintainsRelay s.db.sessions) wire es s (Advances-refl s.db.sessions, h)
