-- ===== src/Protocol.antt =====
-- The messages of the control channel, crates/protocol/src/lib.rs. The numbers of an event that are
-- `f32` have a type that is a parameter. The encoding is that of bincode.
use remotekvm.Base.{ℕ, Bool, String}

abbrev pub protocol_version : ℕ
protocol_version = 0

pub data MouseButton : Type 0 where
  left : MouseButton
  right : MouseButton
  middle : MouseButton
  x1 : MouseButton
  x2 : MouseButton

pub data InputEvent (F : Type 0) : Type 0 where
  mouse_move : F → F → InputEvent F
  mouse_button : MouseButton → Bool → InputEvent F
  mouse_scroll : F → F → InputEvent F
  key_down : ℕ → InputEvent F
  key_up : ℕ → InputEvent F

pub data ControlMessage : Type 0 where
  hello : ℕ → String → ControlMessage
  set_bitrate_kbps : ℕ → ControlMessage
  request_keyframe : ControlMessage
  host_info : ℕ → ℕ → ℕ → ControlMessage

pub data ChannelMessage (F : Type 0) : Type 0 where
  input : InputEvent F → ChannelMessage F
  control : ControlMessage → ChannelMessage F
