-- ===== src/Server/Channels.antt =====
-- The bounded `tokio::sync::mpsc` channels that apps/server/src/websocket.rs opens, one for each
-- socket, as a store: a `Sender` is the number of its channel, and clones share it.
use remotekvm.Base.{
  ℕ, suc, List, [], ◌∷◌, ◌++◌, Bool, true, false, ltb, ◌==◌, if◌then◌else◌, length,
}
use remotekvm.Server.Messages.{SignalingMessage}

-- `WS_CHANNEL_SIZE`.
abbrev pub ws_channel_size : ℕ
ws_channel_size = 64

pub record Channel : Type 0 where
  pub queue : List SignalingMessage
  -- The receiver is alive: its socket's loop still runs.
  pub is_open : Bool

pub record Channels : Type 0 where
  pub next : ℕ
  pub at : ℕ → Channel

abbrev pub set_channel : Channels → ℕ → Channel → Channels
set_channel cs c ch = record cs { at = λ d. if d == c then ch else cs.at d }

-- What became of `tx.send(msg).await`: it returned `Ok`, it returned `Err` since the receiver is
-- gone, or it still waits for room.
pub data Delivery : Type 0 where
  delivered : Delivery
  dropped : Delivery
  awaiting : ℕ → SignalingMessage → Delivery

-- `tx.send(msg).await`, up to the point where it returns or waits.
unfoldable pub send : ℕ → SignalingMessage → Channels → Delivery × Channels
send c msg cs =
    if (cs.at c).is_open
    then if ltb (length (cs.at c).queue) ws_channel_size
      then (delivered, set_channel cs c (record (cs.at c) { queue = (cs.at c).queue ++ msg ∷ [] }))
      else (awaiting c msg, cs)
    else (dropped, cs)

-- `mpsc::channel(WS_CHANNEL_SIZE)`.
unfoldable pub open_channel : Channels → ℕ × Channels
open_channel cs = (
  cs.next,
  set_channel (record cs { next = suc cs.next }) cs.next (record { queue = []; is_open = true }),
)

-- The receiver is dropped at the end of its socket's task.
unfoldable pub close_channel : ℕ → Channels → Channels
close_channel c cs = set_channel cs c (record { queue = []; is_open = false })
