-- ===== src/Server/Tests.antt =====
-- A server with its connections (node/connection/src/lib.rs) on small inputs.
use braidpool.Base.{
  ℕ, ◌≡◌, refl, true, false, Option, some, List, [], ◌∷◌, ◌++◌, arith, get_elem?, ℕ_discrete,
}
use braidpool.Protocol.Ping.{ping_of}
use braidpool.Protocol.Replies.{oleh}
use braidpool.Sample.Tasks.{
  Bytes, codec, codec_total, mpsc, mpsc-IsMpsc, sink, sink-IsReliable, broadcast,
  broadcast-IsBroadcast, timer,
}
use braidpool.Connection.Io.{going, crashed}
use braidpool.Connection.Handler.{from_channel, from_broadcast}
use braidpool.Connection.Heartbeat.{Heart, tick, sends}
use braidpool.Connection.Listen.{Spawned}
use braidpool.Connection.Session.{Session, reads, handles}
use braidpool.Manager.{num_connections}
use braidpool.Node
use braidpool.Server.{
  Stream, serving, Conn, Server, Move, joins, registers, turns, cleans_up, beats, boot, run,
}
use braidpool.Server.View.{view, all_events}
use braidpool.Server.Refinement.{view-run}
use braidpool.Server.HangUp.{peer_hangs_up}
use braidpool.Server.Heartbeats.{heartbeat_written}

abbrev ping : Bytes
ping = some (ping_of "ping")

abbrev heart : Heart Bytes timer
heart = record { message = ping; interval = 1000; due = false }

-- A receiver that never lags.
abbrev enqueue : List (Option Bytes) → Bytes → List (Option Bytes)
enqueue items m = items ++ (some m ∷ [])

abbrev peer_stream : Stream sink
peer_stream = (some (some oleh) ∷ some ping ∷ [], [])

abbrev spawned : ℕ → Spawned Bytes mpsc ℕ (Stream sink)
spawned addr = record {
  stream = peer_stream;
  addr = addr;
  chan = record { queue = []; limit = 32; shut = false };
}

abbrev booted : Server ℕ mpsc sink broadcast timer
booted = boot ℕ_discrete mpsc codec sink broadcast timer enqueue 10 0 heart

-- A peer connects, talks, hears a heartbeat, and leaves.
abbrev moves : List (Move ℕ mpsc sink)
moves =
    joins (spawned 7)
    ∷ registers 0 1
    ∷ turns 0 reads
    ∷ beats tick
    ∷ beats sends
    ∷ turns 0 (handles from_broadcast)
    ∷ turns 0 (handles from_channel)
    ∷ turns 0 reads
    ∷ turns 0 reads
    ∷ cleans_up 0
    ∷ []

view-run_example :
    view (run ℕ_discrete mpsc codec sink broadcast timer enqueue booted moves)
    ≡ Node.run ℕ_discrete broadcast timer
        (view booted)
        (all_events ℕ_discrete mpsc codec sink broadcast timer enqueue booted moves)
unfolding boot
view-run_example =
    view-run ℕ_discrete mpsc-IsMpsc codec sink codec_total broadcast timer enqueue booted moves
      (refl, (tt, (tt, (tt, (tt, (tt, (tt, (tt, (tt, (tt, tt)))))))))) tt

abbrev session : Session Bytes mpsc sink
session = record {
  reader = [];
  handler = record {
    chan = record { queue = []; limit = 32; shut = false };
    announcements = [];
    out = [];
    channel_on = true;
    announce_on = true;
  };
}

abbrev served : Conn ℕ mpsc sink
served = record { addr = 7; life = serving session }

abbrev busy : Server ℕ mpsc sink broadcast timer
busy = record {
  manager = record { capacity = 10; shared_state = (7, record { created_at = 1 }) ∷ [] };
  sender = 1;
  heart = going heart;
  conns = served ∷ [];
}

heartbeat_written_example :
    let n' =
      run ℕ_discrete mpsc codec sink broadcast timer enqueue busy
        (beats tick ∷ beats sends ∷ turns 0 (handles from_broadcast) ∷ []) in
    (s' : Session Bytes mpsc sink) × (get_elem? n'.conns 0
      ≡ some (record { addr = 7; life = serving s' }))
    × (s'.handler.out ≡ ping ∷ [])
unfolding num_connections
heartbeat_written_example =
    heartbeat_written ℕ_discrete mpsc codec sink broadcast-IsBroadcast timer enqueue sink-IsReliable
      busy 0 7 session heart refl refl refl refl refl refl (omega arith)

-- A peer that sends nothing, and another that joins later.
abbrev silent : Spawned Bytes mpsc ℕ (Stream sink)
silent = record (spawned 7) { stream = ([], []) }

peer_hangs_up_example :
    (run ℕ_discrete mpsc codec sink broadcast timer enqueue booted (
      joins silent
      ∷ registers 0 1
      ∷ turns 0 reads
      ∷ beats tick
      ∷ beats sends
      ∷ joins (spawned 8)
      ∷ [])).heart
    ≡ crashed (record heart { due = true })
peer_hangs_up_example =
    peer_hangs_up ℕ_discrete mpsc-IsMpsc codec sink codec_total broadcast-IsBroadcast timer enqueue
      10 1 0 heart silent (joins (spawned 8) ∷ []) (omega arith) refl refl (refl, tt)
