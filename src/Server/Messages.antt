-- ===== src/Server/Messages.antt =====
-- `SignalingMessage` of apps/server/src/websocket.rs: the texts of the two WebSockets, after
-- `serde_json`, which is a parameter of the handlers.
use remotekvm.Base.{Option, String, Bool}

pub data SignalingMessage : Type 0 where
  connect_request : (session_id client_id offer : String) → SignalingMessage
  connect_response : (session_id status : String) → (answer : Option String) → SignalingMessage
  signaling_offer : (session_id offer : String) → SignalingMessage
  signaling_answer : (session_id answer : String) → SignalingMessage
  ice_candidate : (session_id candidate : String) → SignalingMessage
  heartbeat : SignalingMessage
  hello : (machine_id version : Option String) → SignalingMessage
  machine_status : (online : Bool) → (tailscale_ip : Option String) → SignalingMessage
