-- ===== src/Server/Connect/Handover.antt =====
-- From apps/server/src/routes/sessions.rs to the relay of apps/server/src/websocket.rs.
use remotekvm.Base.{ℕ, ◌≡◌, refl, subst, some, ==_refl}
use remotekvm.Base.Exec.{ok}
use remotekvm.Server.Schema.{Uuid}
use remotekvm.Server.App.{AppState}
use remotekvm.Server.Sessions.{new_session}
use remotekvm.Server.Relay.{Wire, session_owner}
use remotekvm.Server.Relay.Access.{Owns}
use remotekvm.Server.Connect.{ConnectResponse, connect_machine}
use remotekvm.Server.Connect.Grants.{Outcome, connect_machine_lem}

-- The session of a granted connection is one that the relay lets the same user speak about: its
-- printed key parses to a row that belongs to the user.
granted-Owns :
    (month_start : ℕ → ℕ) (wire : Wire) (user_id machine_id drawn : Uuid) (s : AppState)
    (r : ConnectResponse)
    → (connect_machine month_start wire (some user_id) machine_id drawn s).0 ≡ ok r
    → Owns wire
        (wire.to_string user_id)
        (wire.to_string r.session_id)
        (connect_machine month_start wire (some user_id) machine_id drawn s).1
unfolding session_owner
granted-Owns month_start wire user_id machine_id drawn s r granted =
    let after = (connect_machine month_start wire (some user_id) machine_id drawn s).1 in
    let outcome =
      subst (λ x. Outcome month_start wire user_id machine_id drawn s x after) granted
        (connect_machine_lem month_start wire user_id machine_id drawn s) in
    rw (outcome.0, outcome.4)
      (
        drawn,
        new_session drawn user_id machine_id s.db.now,
        wire.parse_str-to_string drawn,
        rw (==_refl drawn) refl,
        refl,
      )
