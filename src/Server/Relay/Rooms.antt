-- ===== src/Server/Relay/Rooms.antt =====
-- Channels with room, and what a delivery over them leaves as it was.
use remotekvm.Base.{
  ℕ, ◌<◌, ◌≡◌, ◌≢◌, refl, List, [], ◌∷◌, ◌++◌, true, some, String, arith, eq_refl, length, ◌==◌,
  lt→ltb, find, ◌+◌, if◌then◌else◌,
}
use remotekvm.Base.Maps.{lookup, lookup-insert}
use remotekvm.Server.Schema.{Uuid, Session, active}
use remotekvm.Server.Messages.{SignalingMessage}
use remotekvm.Server.Channels.{Channel, send, ws_channel_size}
use remotekvm.Server.Registry.{
  AgentEntry, SignalingState, register_client_session, notify_agent, send_to_client,
}
use remotekvm.Server.Sessions.{is_pending, set_active, add_usage}
use remotekvm.Server.Relay.{}

-- A channel that takes one more message.
pub record HasRoom (c : Channel) : Type 0 where
  pub open_end : c.is_open ≡ true
  pub room : length c.queue < ws_channel_size

-- A message for a registered receiver goes to the end of its channel.
pub at-notify :
    (machine_id : String) (msg : SignalingMessage) (st : SignalingState) (agent : AgentEntry)
    (d : ℕ)
    → lookup machine_id st.agents ≡ some agent
    → HasRoom (st.channels.at agent.tx)
    → ((notify_agent machine_id msg st).1.channels.at d ≡ (
        if d == agent.tx
        then record (st.channels.at agent.tx) {
          queue = (st.channels.at agent.tx).queue ++ msg ∷ [];
        }
        else st.channels.at d))
      × ((notify_agent machine_id msg st).1.clients ≡ st.clients)
unfolding notify_agent send
at-notify machine_id msg st agent d h r =
    ground (arith, lt→ltb (length (st.channels.at agent.tx).queue) 64 r.room)

pub queue-client :
    (session_id : String) (msg : SignalingMessage) (st : SignalingState) (tx : ℕ)
    → lookup session_id st.clients ≡ some tx
    → HasRoom (st.channels.at tx)
    → ((send_to_client session_id msg st).1.channels.at tx).queue
      ≡ (st.channels.at tx).queue ++ msg ∷ []
unfolding send_to_client send
queue-client session_id msg st tx h r =
    ground (arith, lt→ltb (length (st.channels.at tx).queue) 64 r.room)

pub register_client_session_lem :
    (session_id machine_id user_id : String) (tx : ℕ) (st : SignalingState)
    → let st' = register_client_session session_id machine_id user_id tx st in
      (st'.agents ≡ st.agents)
      × (st'.channels ≡ st.channels)
      × (lookup session_id st'.clients ≡ some tx)
unfolding register_client_session
register_client_session_lem session_id machine_id user_id tx st =
    (refl, refl, simp (lookup-insert, eq_refl))

-- Both directions over one registry: the request, and then the answer.
pub both_ways :
    (machine_id session_id user_id : String) (request response : SignalingMessage) (tx : ℕ)
    (old : SignalingState) (agent : AgentEntry)
    → lookup machine_id old.agents ≡ some agent
    → agent.tx ≢ tx
    → HasRoom (old.channels.at agent.tx)
    → HasRoom (old.channels.at tx)
    → let st =
        (notify_agent machine_id request
          (register_client_session session_id machine_id user_id tx old)).1 in
      ((st.channels.at agent.tx).queue ≡ (old.channels.at agent.tx).queue ++ request ∷ [])
      × (((send_to_client session_id response st).1.channels.at tx).queue
          ≡ (old.channels.at tx).queue ++ response ∷ [])
both_ways machine_id session_id user_id request response tx old agent online other room room' =
    let st = register_client_session session_id machine_id user_id tx old in
    let (agents, channels, client) =
      register_client_session_lem session_id machine_id user_id tx old in
    let online' : lookup machine_id st.agents ≡ some agent = rw agents online in
    let roomy : HasRoom (st.channels.at agent.tx) = rw channels room in
    let (to_agent, _) = at-notify machine_id request st agent agent.tx online' roomy in
    let (to_client, clients) = at-notify machine_id request st agent tx online' roomy in
    let st' = (notify_agent machine_id request st).1 in
    let same_end : st'.channels.at tx ≡ old.channels.at tx = ground arith in
    let roomy' : HasRoom (st'.channels.at tx) = rw same_end room' in
    let client' : lookup session_id st'.clients ≡ some tx = rw clients client in
    (ground arith, rw (queue-client session_id response st' tx client' roomy') (rw same_end refl))

abbrev pub with_usage : Session → ℕ → ℕ → Session
with_usage row sent received = record row {
  bytes_sent = row.bytes_sent + sent;
  bytes_received = row.bytes_received + received;
}

pub find-add_usage :
    (id : Uuid) (sent received : ℕ) (ss : List Session) (row : Session)
    → find (λ s. s.id == id) ss ≡ some row
    → find (λ s. s.id == id) (add_usage id sent received ss) ≡ some (with_usage row sent received)
unfolding add_usage
find-add_usage id sent received [] row h = cc
find-add_usage id sent received (s ∷ ss) row h =
    ground (arith, find-add_usage id sent received ss row)

abbrev pub activated : Session → Session
activated row = record row { status = (if is_pending row.status then active else row.status) }

pub find-set_active :
    (id : Uuid) (ss : List Session) (row : Session)
    → find (λ s. s.id == id) ss ≡ some row
    → find (λ s. s.id == id) (set_active id ss) ≡ some (activated row)
unfolding set_active
find-set_active id [] row h = cc
find-set_active id (s ∷ ss) row h = ground (arith, find-set_active id ss row)
