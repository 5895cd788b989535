-- ===== src/Connection/Tests/Loops.antt =====
-- The read loop, the message handler, the listener and the heartbeat task of
-- node/connection/src/lib.rs on small inputs.
use braidpool.Base.{
  ℕ, ◌≡◌, refl, String, true, false, Option, none, some, List, [], ◌∷◌, ◌++◌, map, arith, All,
}
use braidpool.Protocol.Ping.{ping_of}
use braidpool.Manager.{ConnectionManager, num_connections}
use braidpool.Sample.Tasks.{
  Bytes, codec, codec-IsRoundTrip, codec_total, mpsc, mpsc-IsMpsc, sink, timer, broadcast,
}
use braidpool.Connection.Io.{Backlog, returned, going, crashed}
use braidpool.Connection.ReadLoop.{start_read_loop}
use braidpool.Connection.Handler.{handle_received}
use braidpool.Connection.Listen.{Listener, start_listen}
use braidpool.Connection.Listen.Accepting.{peer_of, IsFresh, start_listen-spawns, start_listen_zero}
use braidpool.Connection.Heartbeat.{Heart, tick, sends, notified, heartbeat_round, start_heartbeat}
use braidpool.Connection.Backpressure.{read_loop_flooded}
use braidpool.Connection.Answers.{Handled, handle_received-Handled}
use braidpool.Connection.Pulse.{beat_of, Round, heartbeat_of_start}

abbrev ping : Bytes
ping = some (ping_of "ping")

abbrev pong : Bytes
pong = some (ping_of "pong")

abbrev garbage : Bytes
garbage = none

-- A channel for two messages.
abbrev empty_channel : Backlog Bytes
empty_channel = record { queue = []; limit = 2; shut = false }

read_loop_flooded_example :
    (ch : Backlog Bytes) × (start_read_loop mpsc empty_channel
        (map some (ping ∷ pong ∷ []) ++ (some garbage ∷ some ping ∷ []))
      ≡ returned "Sender flooding channel" ch)
    × (ch ≡ record { queue = ping ∷ pong ∷ []; limit = 2; shut = false })
read_loop_flooded_example =
    read_loop_flooded mpsc-IsMpsc (ping ∷ pong ∷ []) garbage (some ping ∷ []) empty_channel refl
      (omega arith)

handle_received-Handled_example :
    Handled codec sink
      (pong ∷ [])
      (some (ping_of "ping"))
      (handle_received codec sink (pong ∷ []) ping)
handle_received-Handled_example = handle_received-Handled codec sink (pong ∷ []) ping codec_total

abbrev idle : Listener Bytes mpsc ℕ ℕ
idle = record { spawned = []; permit = false }

start_listen-spawns_example :
    (l : Listener Bytes mpsc ℕ ℕ) × (start_listen mpsc 32 true idle
        (some (1, 7) ∷ none ∷ some (2, 8) ∷ [])
      ≡ going l)
    × (map (peer_of mpsc-IsMpsc) l.spawned ≡ (1, 7) ∷ (2, 8) ∷ [])
    × All (IsFresh mpsc-IsMpsc 32) l.spawned
    × (l.permit ≡ true)
start_listen-spawns_example =
    start_listen-spawns mpsc-IsMpsc 31 idle (some (1, 7) ∷ none ∷ some (2, 8) ∷ []) tt

start_listen_zero_example :
    (l : Listener Bytes mpsc ℕ ℕ) × (start_listen mpsc 0 true idle
        ((none ∷ []) ++ (some (1, 7) ∷ []))
      ≡ crashed l)
    × (l.spawned ≡ [])
start_listen_zero_example = start_listen_zero mpsc-IsMpsc idle (none ∷ []) (1, 7) [] refl

abbrev heart : Heart Bytes timer
heart = record { message = ping; interval = 1000; due = false }

abbrev one_listed : ConnectionManager ℕ
one_listed = record { capacity = 10; shared_state = (7, record { created_at = 1 }) ∷ [] }

abbrev resolve : String → Option (List ℕ)
resolve name = some (7 ∷ 8 ∷ [])

abbrev shown : ℕ → String
shown a = "127.0.0.1:6680"

abbrev started : Heart Bytes timer
started = record {
  message = some (beat_of codec timer resolve shown 7 17);
  interval = 1000;
  due = false;
}

-- Two ticks, the first of which finds nobody, and a notification.
abbrev first_rounds : List (Round codec timer resolve shown broadcast)
first_rounds =
    (record { capacity = 10; shared_state = [] }, 0, tick)
    ∷ (one_listed, 1, notified)
    ∷ (one_listed, 1, tick)
    ∷ []

heartbeat_of_start_example :
    let due = record started { due = true } in
    (a : ℕ) × (rest : List ℕ) × (bytes : Bytes) × (resolve "localhost:6680" ≡ some (a ∷ rest))
    × (bytes ≡ some (beat_of codec timer resolve shown a 17))
    × ((heartbeat_round broadcast timer one_listed 1 due sends).1 ≡ (broadcast.send 1 bytes).1)
    × ((heartbeat_round broadcast timer one_listed 1 due tick).1 ≡ 1)
    × ((heartbeat_round broadcast timer one_listed 1 due notified).1 ≡ 1)
unfolding start_heartbeat heartbeat_round num_connections
heartbeat_of_start_example =
    heartbeat_of_start codec timer resolve shown broadcast "localhost:6680" 1000 17 {h = started}
      {h' = record started { due = true }} first_rounds one_listed 1 codec-IsRoundTrip refl refl
