-- ===== src/Server/View.antt =====
-- What the node of many tasks (Node) keeps of a server: the phases of its connections, and the
-- steps that change them.
use braidpool.Base.{ℕ, Option, none, some, List, [], ◌∷◌, ◌++◌, map, get_elem?}
use braidpool.Connection.Io.{Mpsc, Sink, Progress, going, returned, crashed}
use braidpool.Connection.Session.{Session, Turn, poll_session}
use braidpool.Connection.Heartbeat.{Broadcast, Timer}
use braidpool.Protocol.Wire.{Codec}
use braidpool.Node.{Phase, Peer, Node, Event}
use braidpool.Server.{
  Life, waiting, serving, leaving, Conn, Server, Move, joins, gives_up, registers, turns, cleans_up,
  beats, step,
}

abbrev pub phase_of : {S : Type 0} → Life S → Phase
phase_of (waiting _) = Phase.waiting
phase_of (serving _) = Phase.serving
phase_of (leaving _) = Phase.leaving

module _ {Bytes Addr : Type 0} {q : Mpsc Bytes} {w : Sink Bytes} where
  abbrev pub peer : Conn Addr q w → Peer Addr
  peer k = record { addr = k.addr; phase = phase_of k.life }

  abbrev pub view : {b : Broadcast Bytes} {t : Timer} → Server Addr q w b t → Node Addr b t
  view n = record {
    manager = n.manager;
    sender = n.sender;
    heart = n.heart;
    peers = map peer n.conns;
  }

  -- A turn is seen only where it ends the `select!`.
  abbrev pub progress_events : ℕ → Progress (Session Bytes q w) → List (Event Addr)
  progress_events i (going _) = []
  progress_events i (returned _ _) = Event.ends i ∷ []
  progress_events i (crashed _) = []

  abbrev pub turn_events : Codec Bytes → ℕ → Turn → Life (Session Bytes q w) → List (Event Addr)
  turn_events c i t (waiting s) = []
  turn_events c i t (serving s) = progress_events i (poll_session q c w s t)
  turn_events c i t (leaving s) = []

  abbrev pub found_events : Codec Bytes → ℕ → Turn → Option (Conn Addr q w) → List (Event Addr)
  found_events c i t none = []
  found_events c i t (some k) = turn_events c i t k.life

  abbrev pub events :
      {b : Broadcast Bytes} {t : Timer}
      → Codec Bytes
      → Server Addr q w b t
      → Move Addr q w
      → List (Event Addr)
  events c n (joins sp) = Event.joins sp.addr ∷ []
  events c n (gives_up i) = Event.gives_up i ∷ []
  events c n (registers i now) = Event.registers i now ∷ []
  events c n (turns i t) = found_events c i t (get_elem? n.conns i)
  events c n (cleans_up i) = Event.cleans_up i ∷ []
  events c n (beats p) = Event.beats p ∷ []

module _ {Bytes Addr : Type 0} (dec : Discrete Addr) (q : Mpsc Bytes) (c : Codec Bytes)
    (w : Sink Bytes) (b : Broadcast Bytes) (t : Timer)
    (enqueue : List (Option Bytes) → Bytes → List (Option Bytes)) where
  abbrev pub all_events : Server Addr q w b t → List (Move Addr q w) → List (Event Addr)
  all_events n [] = []
  all_events n (e ∷ es) = events c n e ++ all_events (step dec q c w b t enqueue n e) es
