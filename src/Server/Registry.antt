-- ===== src/Server/Registry.antt =====
-- `SignalingState` of apps/server/src/websocket.rs: which socket speaks for a machine and for a
-- session. The `RwLock`s make each operation on a map one step. The store of channels stands beside
-- the maps, since clones of the state share both.

pub mod Laws
use remotekvm.Base.{
  ℕ, ◌+◌, ◌%◌, ◌^◌, List, [], ◌∷◌, Bool, true, false, Option, none, some, String, ◌==◌,
  if◌then◌else◌,
}
use remotekvm.Base.Maps.{Map, lookup, insert, remove}
use remotekvm.Server.Messages.{SignalingMessage}
use remotekvm.Server.Channels.{Channels, Delivery, dropped, send}
use remotekvm.Server.Redis
use remotekvm.Server.Redis.{RedisSignalingStore, AgentPresence}

-- `AgentEntry`: the connection id and the sender.
pub record AgentEntry : Type 0 where
  pub conn_id : ℕ
  pub tx : ℕ

pub record SignalingState : Type 0 where
  pub agents : Map AgentEntry
  pub clients : Map ℕ
  pub next_conn_id : ℕ
  pub instance_id : String
  pub redis : Option RedisSignalingStore
  pub channels : Channels

-- `SignalingState::new`, with the instance id that it draws.
abbrev pub new : String → Channels → SignalingState
new instance_id channels = record {
  agents = [];
  clients = [];
  next_conn_id = 1;
  instance_id = instance_id;
  redis = none;
  channels = channels;
}

-- `fetch_add` on an `AtomicU64`.
unfoldable pub next_conn_id : SignalingState → ℕ × SignalingState
next_conn_id st = (st.next_conn_id, record st { next_conn_id = (st.next_conn_id + 1) % 2 ^ 64 })

-- A Redis command whose error is logged and dropped.
with_redis :
    (RedisSignalingStore → Bool × RedisSignalingStore)
    → Option RedisSignalingStore
    → Option RedisSignalingStore
with_redis f none = none
with_redis f (some r) = some (f r).1

presence_in :
    String → Option RedisSignalingStore → Option AgentPresence × Option RedisSignalingStore
presence_in machine_id none = (none, none)
presence_in machine_id (some r) = let (p, r') = Redis.agent_presence machine_id r in (p, some r')

unfoldable pub redis_agent_presence :
    String → SignalingState → Option AgentPresence × SignalingState
unfolding presence_in
redis_agent_presence machine_id st =
    let (p, r) = presence_in machine_id st.redis in (p, record st { redis = r })

abbrev pub contains_key {ℓ} : {V : Type ℓ} → String → Map V → Bool
contains_key k m = elim (lookup k m) [ none ↦ false | some _ ↦ true ]

-- Redis is asked on a miss, for the log alone.
unfoldable pub is_agent_online : String → SignalingState → Bool × SignalingState
unfolding redis_agent_presence
is_agent_online machine_id st =
    if contains_key machine_id st.agents
    then (true, st)
    else (false, (redis_agent_presence machine_id st).1)

send_to : Option ℕ → SignalingMessage → SignalingState → Delivery × SignalingState
send_to none msg st = (dropped, st)
send_to (some tx) msg st = let (d, cs) = send tx msg st.channels in (d, record st { channels = cs })

abbrev pub agent_tx : Option AgentEntry → Option ℕ
agent_tx none = none
agent_tx (some e) = some e.tx

-- The source's `bool` is whether the outcome is `delivered`.
unfoldable pub notify_agent : String → SignalingMessage → SignalingState → Delivery × SignalingState
unfolding send_to
notify_agent machine_id msg st = send_to (agent_tx (lookup machine_id st.agents)) msg st

unfoldable pub send_to_client :
    String → SignalingMessage → SignalingState → Delivery × SignalingState
unfolding send_to
send_to_client session_id msg st = send_to (lookup session_id st.clients) msg st

unfoldable pub register_agent : String → ℕ → ℕ → SignalingState → SignalingState
unfolding with_redis
register_agent machine_id conn_id tx st = record st {
  agents = insert machine_id (record { conn_id = conn_id; tx = tx }) st.agents;
  redis = with_redis (Redis.set_agent_online machine_id conn_id) st.redis;
}

unfoldable pub refresh_agent : String → ℕ → SignalingState → SignalingState
unfolding with_redis
refresh_agent machine_id conn_id st = record st {
  redis = with_redis (Redis.refresh_agent machine_id conn_id) st.redis;
}

abbrev pub is_current : ℕ → Option AgentEntry → Bool
is_current conn_id none = false
is_current conn_id (some e) = e.conn_id == conn_id

unfoldable pub unregister_agent_if_current : String → ℕ → SignalingState → Bool × SignalingState
unfolding with_redis
unregister_agent_if_current machine_id conn_id st =
    if is_current conn_id (lookup machine_id st.agents)
    then (
      true,
      record st {
        agents = remove machine_id st.agents;
        redis = with_redis (Redis.clear_agent machine_id conn_id) st.redis;
      },
    )
    else (false, st)

instance_or : Option AgentPresence → String → String
instance_or none local = local
instance_or (some p) local = p.instance_id

-- The route is written only if Redis is configured.
unfoldable pub record_session_route : String → String → String → SignalingState → SignalingState
unfolding redis_agent_presence with_redis instance_or
record_session_route session_id machine_id user_id st =
    let (p, st') = redis_agent_presence machine_id st in
    record st' {
      redis =
          with_redis
            (Redis.set_session_route session_id machine_id user_id (instance_or p st.instance_id))
            st'.redis;
    }

unfoldable pub register_client_session :
    String → String → String → ℕ → SignalingState → SignalingState
unfolding record_session_route
register_client_session session_id machine_id user_id tx st =
    record_session_route session_id machine_id user_id
      (record st { clients = insert session_id tx st.clients })

remove_all : List String → Map ℕ → Map ℕ
remove_all [] m = m
remove_all (k ∷ ks) m = remove_all ks (remove k m)

clear_routes : List String → Option RedisSignalingStore → Option RedisSignalingStore
unfolding with_redis
clear_routes [] r = r
clear_routes (k ∷ ks) r = clear_routes ks (with_redis (Redis.clear_session_route k) r)

unfoldable pub unregister_client_sessions : List String → SignalingState → SignalingState
unfolding remove_all clear_routes
unregister_client_sessions session_ids st = record st {
  clients = remove_all session_ids st.clients;
  redis = clear_routes session_ids st.redis;
}
