-- ===== src/Connection/Heartbeat.antt =====
-- `start_heartbeat` of node/connection/src/lib.rs. The broadcast channel and the interval timer
-- are tokio's, and the resolver is the system's: they are parameters.
use braidpool.Base.{
  ℕ, String, Bool, Option, none, some, List, [], ◌∷◌, Outcome, or_panic, ok, ◌>>=◌, if◌then◌else◌,
  ltb, false,
}
use braidpool.Protocol.Heartbeat
use braidpool.Protocol.Wire.{Codec, as_bytes}
use braidpool.Manager.{ConnectionManager, num_connections}
use braidpool.Connection.Io.{Progress, going, crashed}

-- `tokio::sync::broadcast`, seen from its sender.
pub record Broadcast (Bytes : Type 0) : Type 1 where
  pub Sender : Type 0
  -- `broadcast::channel`, whose receiver `main` drops; `none` is a panic.
  pub channel : ℕ → Option Sender
  -- `Sender::subscribe`, and the end of a receiver.
  pub subscribe : Sender → Sender
  pub unsubscribe : Sender → Sender
  -- `Sender::send`, with `false` for an error.
  pub send : Sender → Bytes → Bool × Sender

-- `tokio::time::interval` and `Interval::reset`; `none` is a panic.
pub record Timer : Type 1 where
  pub Interval : Type 0
  pub interval : ℕ → Option Interval
  pub reset : Interval → Interval

-- The task that `start_heartbeat` spawns.
pub record Heart (Bytes : Type 0) (t : Timer) : Type 0 where
  pub message : Bytes
  pub interval : t.Interval
  pub due : Bool  -- between a check that found a connection and the send that follows it

-- The steps of the task: a branch of its `select!` that is ready, or the send after a check. The
-- other tasks may run between the check and the send.
pub data Pulse : Type 0 where
  tick : Pulse  -- `interval.tick()` is ready, and `manager.num_connections()` is asked
  sends : Pulse  -- `sender.send`
  notified : Pulse  -- `notify.notified()` is ready

module _ {Bytes : Type 0} (b : Broadcast Bytes) (t : Timer) where
  expect_sent : Heart Bytes t → Bool × b.Sender → Progress (Heart Bytes t) × b.Sender
  expect_sent h (sent, sender) =
      (if sent then going (record h { due = false }) else crashed h, sender)

  -- One step of the task's loop. The `expect` panics when the send fails; while a send is due the
  -- task waits for nothing.
  unfoldable pub heartbeat_round :
      {Addr : Type 0}
      → ConnectionManager Addr
      → b.Sender
      → Heart Bytes t
      → Pulse
      → Progress (Heart Bytes t) × b.Sender
  unfolding expect_sent
  heartbeat_round manager sender h tick = (
    if h.due then going h else going (record h { due = ltb 0 (num_connections manager) }),
    sender,
  )
  heartbeat_round manager sender h sends =
      if h.due then expect_sent h (b.send sender h.message) else (going h, sender)
  heartbeat_round manager sender h notified =
      (if h.due then going h else going (record h { interval = t.reset h.interval }), sender)

module _ {Bytes Addr : Type 0} (c : Codec Bytes) (t : Timer) (resolve : String → Option (List Addr))
    (to_string : Addr → String) where
  abbrev first : List Addr → Option Addr
  first [] = none
  first (a ∷ _) = some a

  -- What runs before the task is spawned: the message is made here, once.
  unfoldable pub start_heartbeat : String → ℕ → ℕ → Outcome ⊥ (Heart Bytes t)
  unfolding Heartbeat.start as_bytes
  start_heartbeat addr duration now = do
    addresses ← or_panic (resolve addr)
    socket_addr ← or_panic (first addresses)
    beat ← or_panic (Heartbeat.start to_string socket_addr now)
    b ← as_bytes c beat
    message ← or_panic b
    interval ← or_panic (t.interval duration)
    ok (record { message = message; interval = interval; due = false })
