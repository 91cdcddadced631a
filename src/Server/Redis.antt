-- ===== src/Server/Redis.antt =====
-- `RedisSignalingStore` of apps/server/src/websocket.rs. The Redis server is a map from keys to
-- hashes with a deadline. Each command may fail: `faults` says which of the next ones do.
use Prim.Native.String.{◌++◌ as str_append}
use remotekvm.Base.{
  ℕ, ◌+◌, ◌*◌, List, [], ◌∷◌, Bool, true, false, Option, none, some, String, ◌&&◌, ltb, ◌==◌,
  str_eq, if◌then◌else◌,
}
use remotekvm.Base.Maps.{Map, lookup, insert, remove}

-- The fields of the two kinds of hashes; numbers stand for their decimal texts.
pub record AgentHash : Type 0 where
  pub machine_id : String
  pub instance_id : String
  pub conn_id : ℕ
  pub connected_at_ms : ℕ
  pub last_seen_ms : ℕ

pub record SessionHash : Type 0 where
  pub session_id : String
  pub machine_id : String
  pub user_id : String
  pub agent_instance_id : String
  pub client_instance_id : String
  pub updated_at_ms : ℕ

pub data Hash : Type 0 where
  agent : AgentHash → Hash
  session : SessionHash → Hash

pub record Entry : Type 0 where
  pub hash : Hash
  pub deadline_ms : ℕ

pub record Connection : Type 0 where
  pub now_ms : ℕ
  pub hashes : Map Entry
  pub faults : List Bool

pub record RedisSignalingStore : Type 0 where
  pub connection : Connection
  pub instance_id : String
  pub ttl_seconds : ℕ

pub record AgentPresence : Type 0 where
  pub instance_id : String
  pub conn_id : ℕ

abbrev pub agent_key : String → String
agent_key machine_id = str_append "remotekvm:signaling:agent:" machine_id

abbrev pub session_key : String → String
session_key session_id = str_append "remotekvm:signaling:session:" session_id

-- An entry past its deadline is gone.
unfoldable pub live : ℕ → Option Entry → Option Hash
live now none = none
live now (some e) = if ltb now e.deadline_ms then some e.hash else none

unfoldable pub hget_all : String → Connection → Option Hash
unfolding live
hget_all key conn = live conn.now_ms (lookup key conn.hashes)

-- HSET of all fields, and EXPIRE, in one atomic pipeline.
unfoldable pub hset_expire : String → Hash → ℕ → Connection → Connection
hset_expire key h ttl conn = record conn {
  hashes = insert key (record { hash = h; deadline_ms = conn.now_ms + ttl }) conn.hashes;
}

-- One command: the next fault, if it is set, is returned as `Err`.
command_from : List Bool → (Connection → Connection) → Connection → Bool × Connection
command_from (true ∷ rest) f conn = (false, record conn { faults = rest })
command_from (false ∷ rest) f conn = (true, f (record conn { faults = rest }))
command_from [] f conn = (true, f conn)

unfoldable pub command : (Connection → Connection) → Connection → Bool × Connection
unfolding command_from
command f conn = command_from conn.faults f conn

abbrev ttl_ms : RedisSignalingStore → ℕ
ttl_ms r = r.ttl_seconds * 1000

-- The outcome is `false` where the source logs the error.
unfoldable pub run_command :
    (Connection → Connection) → RedisSignalingStore → Bool × RedisSignalingStore
unfolding command
run_command f r = ((command f r.connection).0, record r { connection = (command f r.connection).1 })

unfoldable pub set_agent_online : String → ℕ → RedisSignalingStore → Bool × RedisSignalingStore
unfolding hset_expire
set_agent_online machine_id conn_id r =
    run_command
      (λ conn.
        hset_expire (agent_key machine_id)
          (agent (record {
            machine_id = machine_id;
            instance_id = r.instance_id;
            conn_id = conn_id;
            connected_at_ms = conn.now_ms;
            last_seen_ms = conn.now_ms;
          }))
          (ttl_ms r) conn)
      r

-- The two comparisons at the head of both scripts.
abbrev owns : String → ℕ → Option Hash → Bool
owns instance_id conn_id (some (agent h)) = str_eq h.instance_id instance_id && h.conn_id == conn_id
owns instance_id conn_id _ = false

touch : ℕ → Option Hash → Option Hash
touch now (some (agent h)) = some (agent (record h { last_seen_ms = now }))
touch now o = o

put_back : String → Option Hash → ℕ → Connection → Connection
unfolding hset_expire
put_back key (some h) ttl conn = hset_expire key h ttl conn
put_back key none ttl conn = conn

unfoldable pub refresh_agent : String → ℕ → RedisSignalingStore → Bool × RedisSignalingStore
unfolding hget_all touch put_back
refresh_agent machine_id conn_id r =
    run_command
      (λ conn.
        if owns r.instance_id conn_id (hget_all (agent_key machine_id) conn)
        then put_back (agent_key machine_id)
            (touch conn.now_ms (hget_all (agent_key machine_id) conn)) (ttl_ms r) conn
        else conn)
      r

unfoldable pub clear_agent : String → ℕ → RedisSignalingStore → Bool × RedisSignalingStore
unfolding hget_all
clear_agent machine_id conn_id r =
    run_command
      (λ conn.
        if owns r.instance_id conn_id (hget_all (agent_key machine_id) conn)
        then record conn { hashes = remove (agent_key machine_id) conn.hashes }
        else conn)
      r

presence_of : Option Hash → Option AgentPresence
presence_of (some (agent h)) = some (record { instance_id = h.instance_id; conn_id = h.conn_id })
presence_of (some (session h)) = none
presence_of none = none

-- `Err` and an absent hash are both `none`, as `redis_agent_presence` makes them.
unfoldable pub agent_presence :
    String → RedisSignalingStore → Option AgentPresence × RedisSignalingStore
unfolding hget_all presence_of
agent_presence machine_id r =
    let (fine, r') = run_command (λ conn. conn) r in
    (if fine then presence_of (hget_all (agent_key machine_id) r.connection) else none, r')

unfoldable pub set_session_route :
    String → String → String → String → RedisSignalingStore → Bool × RedisSignalingStore
unfolding hset_expire
set_session_route session_id machine_id user_id agent_instance_id r =
    run_command
      (λ conn.
        hset_expire (session_key session_id)
          (session (record {
            session_id = session_id;
            machine_id = machine_id;
            user_id = user_id;
            agent_instance_id = agent_instance_id;
            client_instance_id = r.instance_id;
            updated_at_ms = conn.now_ms;
          }))
          (ttl_ms r) conn)
      r

unfoldable pub clear_session_route : String → RedisSignalingStore → Bool × RedisSignalingStore
clear_session_route session_id r =
    run_command (λ conn. record conn { hashes = remove (session_key session_id) conn.hashes }) r
