-- ===== src/Server/Sessions.antt =====
-- The statements on the table `sessions` of apps/server/src/websocket.rs and routes/sessions.rs.
pub mod Lifecycle
use remotekvm.Base.{
  ℕ, ◌+◌, ◌-◌, ◌^◌, ◌≡◌, List, [], ◌∷◌, Bool, true, false, Option, none, some, not, ◌&&◌, ◌||◌, ltb,
  ◌==◌, if◌then◌else◌, any, update_where,
}
use remotekvm.Base.Exec.{Result, ok, err}
use remotekvm.Server.Schema.{Uuid, Status, pending, active, ended, Session, Database}
use remotekvm.Server.App.{Statement, other, update}

abbrev pub is_pending : Status → Bool
is_pending pending = true
is_pending _ = false

abbrev pub is_ended : Status → Bool
is_ended ended = true
is_ended _ = false

-- `COALESCE(ended_at, NOW())`.
abbrev pub coalesce : Option ℕ → ℕ → ℕ
coalesce none now = now
coalesce (some t) now = t

abbrev pub on_sessions : (List Session → List Session) → Database → Database
on_sessions f db = record db { sessions = f db.sessions }

unfoldable pub set_active : Uuid → List Session → List Session
set_active id =
    update_where (λ s. s.id == id && is_pending s.status) (λ s. record s { status = active })

abbrev pub finish : ℕ → Session → Session
finish now s = record s { status = ended; ended_at = some (coalesce s.ended_at now) }

unfoldable pub set_ended : Uuid → ℕ → List Session → List Session
set_ended id now = update_where (λ s. s.id == id && not (is_ended s.status)) (finish now)

unfoldable pub set_machine_ended : Uuid → ℕ → List Session → List Session
set_machine_ended machine_id now =
    update_where (λ s. s.machine_id == machine_id && not (is_ended s.status)) (finish now)

unfoldable pub add_usage : Uuid → ℕ → ℕ → List Session → List Session
add_usage id sent received =
    update_where (λ s. s.id == id)
      (λ s. record s {
        bytes_sent = s.bytes_sent + sent;
        bytes_received = s.bytes_received + received;
      })

-- `BIGINT` arithmetic raises an error out of range.
abbrev pub bigint_max : ℕ
bigint_max = 2 ^ 63 - 1

unfoldable pub usage_overflows : Uuid → ℕ → ℕ → List Session → Bool
usage_overflows id sent received = any λ s.
    s.id == id
    && (ltb bigint_max (s.bytes_sent + sent) || ltb bigint_max (s.bytes_received + received))

unfoldable pub mark_session_active : Uuid → Statement (Unit {0})
unfolding set_active
mark_session_active id = update (on_sessions (set_active id))

unfoldable pub mark_session_ended : Uuid → Statement (Unit {0})
unfolding set_ended
mark_session_ended id db = ok (tt, on_sessions (set_ended id db.now) db)

unfoldable pub end_machine_sessions : Uuid → Statement (Unit {0})
unfolding set_machine_ended
end_machine_sessions machine_id db = ok (tt, on_sessions (set_machine_ended machine_id db.now) db)

unfoldable pub record_session_usage : Uuid → ℕ → ℕ → Statement (Unit {0})
unfolding add_usage usage_overflows
record_session_usage id sent received db =
    if usage_overflows id sent received db.sessions
    then err (other "bigint out of range")
    else ok (tt, on_sessions (add_usage id sent received) db)

-- `INSERT INTO sessions … 'pending'`: the key is fresh, or the statement fails.
abbrev pub new_session : Uuid → Uuid → Uuid → ℕ → Session
new_session id user_id machine_id now = record {
  id = id;
  user_id = user_id;
  machine_id = machine_id;
  started_at = now;
  ended_at = none;
  status = pending;
  bytes_sent = 0;
  bytes_received = 0;
}
