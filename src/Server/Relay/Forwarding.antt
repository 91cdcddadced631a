-- ===== src/Server/Relay/Forwarding.antt =====
-- What the relay of apps/server/src/websocket.rs delivers when nothing fails.
use Prim.Native.String.{len}
use remotekvm.Base.{
  ℕ, ◌≡◌, ◌≢◌, [], ◌∷◌, ◌++◌, true, false, some, String, arith, eq_iff, str_eq, ◌+◌,
}
use remotekvm.Base.Exec.{ok, ◌>>=◌}
use remotekvm.Base.Maps.{lookup}
use remotekvm.Server.Schema.{Uuid, Session}
use remotekvm.Server.Messages.{connect_request, connect_response, signaling_answer}
use remotekvm.Server.Registry.{AgentEntry, register_client_session, notify_agent, send_to_client}
use remotekvm.Server.Sessions.{
  on_sessions, set_active, add_usage, usage_overflows, mark_session_active, record_session_usage,
}
use remotekvm.Server.App.{AppState, map_err, run_sql}
use remotekvm.Server.Relay.{
  Wire, ClientTask, or_fail, execute, relay, signal, push_owned, on_app, on_session, session_owner,
  if_owner, for_owner, client_message, handle_client_message, agent_message, handle_agent_message,
}
use remotekvm.Server.Relay.Rooms.{
  HasRoom, activated, with_usage, both_ways, find-add_usage, find-set_active,
}

module _ (wire : Wire) (id : Uuid) (session_id : String)
    (known : wire.parse_str session_id ≡ some id) where
  -- The whole effect of a `connect_request` of the session's owner.
  connect_effect :
      (text user_id client_id offer : String) (tx : ℕ) (t : ClientTask) (row : Session)
      → wire.from_str text ≡ some (connect_request session_id client_id offer)
      → session_owner id t.app.db ≡ some row
      → str_eq (wire.to_string row.user_id) user_id ≡ true
      → t.app.faults ≡ []
      → usage_overflows id 0 (len text) t.app.db.sessions ≡ false
      → let machine_id = wire.to_string row.machine_id in
        let st = register_client_session session_id machine_id user_id tx t.app.signaling in
        let out = notify_agent machine_id (connect_request session_id user_id offer) st in
        handle_client_message wire text user_id tx t ≡ (
          ok (some out.0),
          record {
            app = record t.app {
              db = on_sessions (add_usage id 0 (len text)) t.app.db;
              signaling = out.1;
            };
            owned_sessions = t.owned_sessions ++ session_id ∷ [];
          },
        )
  unfolding handle_client_message client_message for_owner on_session or_fail execute map_err on_app
      if_owner run_sql relay signal push_owned record_session_usage ◌>>=◌
  connect_effect text user_id client_id offer tx t row parsed found own quiet fits = ground arith

  -- The whole effect of the agent's answer.
  answer_effect :
      (text machine_id answer : String) (conn_id : ℕ) (s : AppState)
      → wire.from_str text ≡ some (signaling_answer session_id answer)
      → s.faults ≡ []
      → usage_overflows id (len text) 0 (set_active id s.db.sessions) ≡ false
      → let out =
          send_to_client session_id
            (connect_response session_id "accepted" (some answer))
            s.signaling in
        handle_agent_message wire text machine_id conn_id s ≡ (
          ok (some out.0),
          record s {
            db = on_sessions (λ ss. add_usage id (len text) 0 (set_active id ss)) s.db;
            signaling = out.1;
          },
        )
  unfolding handle_agent_message agent_message on_session or_fail execute map_err run_sql relay
      mark_session_active record_session_usage ◌>>=◌
  answer_effect text machine_id answer conn_id s parsed quiet fits = ground arith

module _ (wire : Wire) (id : Uuid) (session_id : String)
    (known : wire.parse_str session_id ≡ some id)
    (offer_text answer_text user_id client_id offer answer : String) (tx : ℕ) (t : ClientTask)
    (row : Session) (agent : AgentEntry) where
  -- The handshake. The owner of a session sends `connect_request` while the machine's agent is
  -- registered, and the agent answers, with no statement failing and room in both channels. Then the
  -- agent's channel ends in the offer under the user id of the socket, whatever `client_id` the text
  -- names; the client's channel ends in the answer; and the session's row is active, if it was
  -- pending, with the sizes of both texts counted.
  pub handshake :
      wire.from_str offer_text ≡ some (connect_request session_id client_id offer)
      → wire.from_str answer_text ≡ some (signaling_answer session_id answer)
      → session_owner id t.app.db ≡ some row
      → wire.to_string row.user_id ≡ user_id
      → t.app.faults ≡ []
      → usage_overflows id 0 (len offer_text) t.app.db.sessions ≡ false
      → usage_overflows id
          (len answer_text)
          0
          (set_active id (add_usage id 0 (len offer_text) t.app.db.sessions))
        ≡ false
      → lookup (wire.to_string row.machine_id) t.app.signaling.agents ≡ some agent
      → agent.tx ≢ tx
      → HasRoom (t.app.signaling.channels.at agent.tx)
      → HasRoom (t.app.signaling.channels.at tx)
      → let t' = (handle_client_message wire offer_text user_id tx t).1 in
        let s =
          (handle_agent_message wire answer_text
            (wire.to_string row.machine_id)
            agent.conn_id
            t'.app).1 in
        ((t'.app.signaling.channels.at agent.tx).queue
          ≡ (t.app.signaling.channels.at agent.tx).queue
            ++ connect_request session_id user_id offer ∷ [])
        × ((s.signaling.channels.at tx).queue
            ≡ (t.app.signaling.channels.at tx).queue
              ++ connect_response session_id "accepted" (some answer) ∷ [])
        × (session_owner id s.db
            ≡ some (record (activated row) {
              bytes_sent = row.bytes_sent + len answer_text;
              bytes_received = row.bytes_received + len offer_text;
            }))
  unfolding session_owner
  handshake p q found own quiet fits fits' online other room room' =
      let machine_id = wire.to_string row.machine_id in
      let request = connect_request session_id user_id offer in
      let after : AppState = record t.app {
        db = on_sessions (add_usage id 0 (len offer_text)) t.app.db;
        signaling =
            (notify_agent machine_id request
              (register_client_session session_id machine_id user_id tx t.app.signaling)).1;
      } in
      let (there, back) =
        both_ways machine_id session_id user_id request
          (connect_response session_id "accepted" (some answer)) tx t.app.signaling agent online
          other room room' in
      rw
        (connect_effect wire id session_id known offer_text user_id client_id offer tx t row p found
          ((eq_iff _ user_id).1 own) quiet fits)
        (rw
          (answer_effect wire id session_id known answer_text machine_id answer agent.conn_id after
            q quiet fits')
          (
            there,
            back,
            ground (
              arith,
              find-add_usage id 0 (len offer_text) t.app.db.sessions row found,
              find-set_active id (add_usage id 0 (len offer_text) t.app.db.sessions)
                  (with_usage row 0 (len offer_text)),
              find-add_usage id (len answer_text) 0
                  (set_active id (add_usage id 0 (len offer_text) t.app.db.sessions))
                  (activated (with_usage row 0 (len offer_text))),
            ),
          ))
