-- ===== src/Server.antt =====
-- A running node with what each connection does: the tasks of `start` and `start_heartbeat`
-- (node/connection/src/lib.rs) over the one table and the one broadcast channel of
-- node/run/src/main.rs, each connection with its stream, its bounded channel, its receiver of the
-- broadcasts and its writer. A step is one use that a task makes of what the tasks share, with what
-- the task does on its own.
pub mod View
pub mod Fine
pub mod Steps
pub mod Refinement
pub mod Heartbeats
pub mod HangUp
pub mod Arrivals
mod Tests
use braidpool.Base.{
  ℕ, Bool, true, false, Option, none, some, List, [], ◌∷◌, ◌++◌, map, Outcome, ok, err, panic,
  String, get_elem?, set, remove_at, ltb, if◌then◌else◌,
}
use braidpool.Protocol.Wire.{Codec}
use braidpool.Manager.{Metadata, ConnectionManager, new, num_connections, insert, remove}
use braidpool.Connection.Io.{Mpsc, Sink, Progress, going, returned, crashed}
use braidpool.Connection.Session.{Session, Turn, hello, greet, poll_session, wind_up}
use braidpool.Connection.Heartbeat.{
  Broadcast, Timer, Heart, Pulse, tick, sends, notified, heartbeat_round,
}
use braidpool.Connection.Listen.{Spawned}

-- How far `start` has come for a connection, with what it holds.
pub data Life (S : Type 0) : Type 0 where
  waiting : S → Life S  -- spawned, before `manager.insert`
  serving : S → Life S  -- in the `select!`
  leaving : S → Life S  -- after the `select!`, before `manager.remove`

pub record Conn {Bytes : Type 0} (Addr : Type 0) (q : Mpsc Bytes) (w : Sink Bytes) : Type 0 where
  pub addr : Addr
  pub life : Life (Session Bytes q w)

pub record Server {Bytes : Type 0} (Addr : Type 0) (q : Mpsc Bytes) (w : Sink Bytes)
    (b : Broadcast Bytes) (t : Timer) : Type 0 where
  pub manager : ConnectionManager Addr
  pub sender : b.Sender
  pub heart : Progress (Heart Bytes t)
  pub conns : List (Conn Addr q w)

-- A stream: what its reading half will give, and the state of its writing half.
abbrev pub Stream : {Bytes : Type 0} → Sink Bytes → Type 0
Stream {Bytes} w = List (Option Bytes) × w.Out

-- The steps. A number is the place of a connection in the list.
pub data Move {Bytes : Type 0} (Addr : Type 0) (q : Mpsc Bytes) (w : Sink Bytes) : Type 0 where
  joins : Spawned Bytes q Addr (Stream w) → Move Addr q w  -- `start_connection`
  gives_up : ℕ → Move Addr q w  -- `connect` cannot reach the peer
  registers : ℕ → ℕ → Move Addr q w  -- `manager.insert` at the given time, and the greeting
  turns : ℕ → Turn → Move Addr q w  -- a turn of the `select!`
  cleans_up : ℕ → Move Addr q w  -- `manager.remove`
  beats : Pulse → Move Addr q w  -- a step of the heartbeat task

-- The session that `start` begins with.
abbrev pub session_of :
    {Bytes Addr : Type 0} {q : Mpsc Bytes} {w : Sink Bytes}
    → Spawned Bytes q Addr (Stream w)
    → Session Bytes q w
session_of sp = record {
  reader = sp.stream.0;
  handler = record {
    chan = sp.chan;
    announcements = [];
    out = sp.stream.1;
    channel_on = true;
    announce_on = true;
  };
}

-- `enqueue` is what a receiver of the broadcasts will give after one more message was sent.
module _ {Bytes Addr : Type 0} (dec : Discrete Addr) (q : Mpsc Bytes) (c : Codec Bytes)
    (w : Sink Bytes) (b : Broadcast Bytes) (t : Timer)
    (enqueue : List (Option Bytes) → Bytes → List (Option Bytes)) where
  pub hear : Bytes → Session Bytes q w → Session Bytes q w
  hear m s = record s {
    handler = record (s.handler) { announcements = enqueue s.handler.announcements m };
  }

  pub hear_in : Bytes → Life (Session Bytes q w) → Life (Session Bytes q w)
  unfolding hear
  hear_in m (waiting s) = waiting (hear m s)
  hear_in m (serving s) = serving (hear m s)
  hear_in m (leaving s) = leaving s

  pub hear_by : Bytes → Conn Addr q w → Conn Addr q w
  unfolding hear_in
  hear_by m k = record k { life = hear_in m k.life }

  -- The receivers, after a step of the heartbeat task.
  unfoldable pub announce :
      b.Sender → Heart Bytes t → Pulse → List (Conn Addr q w) → List (Conn Addr q w)
  unfolding hear_by
  announce sender h tick conns = conns
  announce sender h sends conns =
      if h.due
      then if (b.send sender h.message).0 then map (hear_by h.message) conns else conns
      else conns
  announce sender h notified conns = conns

  unfoldable pub boot : ℕ → b.Sender → Heart Bytes t → Server Addr q w b t
  boot capacity sender heart = record {
    manager = new capacity;
    sender = sender;
    heart = going heart;
    conns = [];
  }

  -- The task of a connection is over, and its receiver is dropped with it.
  drop_conn : Server Addr q w b t → ℕ → Server Addr q w b t
  drop_conn n i = record n { sender = b.unsubscribe n.sender; conns = remove_at n.conns i }

  pub move_to : Server Addr q w b t → ℕ → Addr → Life (Session Bytes q w) → Server Addr q w b t
  move_to n i addr life = record n { conns = set n.conns i (record { addr = addr; life = life }) }

  -- What becomes of a connection by the future that was polled: it goes on, or the `select!` is
  -- over and the receiver is dropped, or the task has panicked and its entry stays.
  outcome : Server Addr q w b t → ℕ → Addr → Progress (Session Bytes q w) → Server Addr q w b t
  unfolding drop_conn move_to
  outcome n i addr (going s) = move_to n i addr (serving s)
  outcome n i addr (returned e s) =
      move_to (record n { sender = b.unsubscribe n.sender }) i addr (leaving (wind_up q c w s))
  outcome n i addr (crashed s) = drop_conn n i

  after_insert :
      Server Addr q w b t
      → ℕ
      → Addr
      → ℕ
      → Session Bytes q w
      → Outcome String (Option Metadata) × ConnectionManager Addr
      → Server Addr q w b t
  unfolding outcome drop_conn
  after_insert n i addr now s (ok _, manager) =
      outcome (record n { manager = manager }) i addr (greet q c w s [] (hello c addr now))
  after_insert n i addr now s (err _, manager) = drop_conn (record n { manager = manager }) i
  after_insert n i addr now s (panic, manager) = n

  pub register : Server Addr q w b t → ℕ → ℕ → Addr → Life (Session Bytes q w) → Server Addr q w b t
  unfolding after_insert
  register n i now addr (waiting s) =
      after_insert n i addr now s (insert dec n.manager addr (record { created_at = now }))
  register n i now addr (serving s) = n
  register n i now addr (leaving s) = n

  pub give_up : Server Addr q w b t → ℕ → Life (Session Bytes q w) → Server Addr q w b t
  unfolding drop_conn
  give_up n i (waiting s) = drop_conn n i
  give_up n i (serving s) = n
  give_up n i (leaving s) = n

  turn : Server Addr q w b t → ℕ → Turn → Addr → Life (Session Bytes q w) → Server Addr q w b t
  unfolding outcome
  turn n i t' addr (waiting s) = n
  turn n i t' addr (serving s) = outcome n i addr (poll_session q c w s t')
  turn n i t' addr (leaving s) = n

  pub clean : Server Addr q w b t → ℕ → Addr → Life (Session Bytes q w) → Server Addr q w b t
  clean n i addr (waiting s) = n
  clean n i addr (serving s) = n
  clean n i addr (leaving s) = record n {
    manager = (remove dec n.manager addr).1;
    conns = remove_at n.conns i;
  }

  pub beat : Server Addr q w b t → Pulse → Progress (Heart Bytes t) → Server Addr q w b t
  unfolding announce
  beat n p (going h) =
      let (heart, sender) = heartbeat_round b t n.manager n.sender h p in
      record n { heart = heart; sender = sender; conns = announce n.sender h p n.conns }
  beat n p (returned _ _) = n
  beat n p (crashed _) = n

  on_conn :
      Server Addr q w b t
      → Option (Conn Addr q w)
      → (Addr → Life (Session Bytes q w) → Server Addr q w b t)
      → Server Addr q w b t
  on_conn n none f = n
  on_conn n (some k) f = f k.addr k.life

  -- One step; a step that its task is not ready for changes nothing.
  unfoldable pub step : Server Addr q w b t → Move Addr q w → Server Addr q w b t
  unfolding register give_up turn clean beat on_conn
  step n (joins sp) = record n {
    sender = b.subscribe n.sender;
    conns = n.conns ++ (record { addr = sp.addr; life = waiting (session_of sp) } ∷ []);
  }
  step n (gives_up i) = on_conn n (get_elem? n.conns i) (λ addr. give_up n i)
  step n (registers i now) = on_conn n (get_elem? n.conns i) (register n i now)
  step n (turns i t') = on_conn n (get_elem? n.conns i) (turn n i t')
  step n (cleans_up i) = on_conn n (get_elem? n.conns i) (clean n i)
  step n (beats p) = beat n p n.heart

  unfoldable pub run : Server Addr q w b t → List (Move Addr q w) → Server Addr q w b t
  run n [] = n
  run n (e ∷ es) = run (step n e) es
