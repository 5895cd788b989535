-- ===== src/Node.antt =====
-- A running node: the tasks that `start` and `start_heartbeat` of node/connection/src/lib.rs run,
-- over the one table of connections and the one broadcast channel that node/run/src/main.rs
-- shares among them. The tasks run on a multi-threaded executor, so any order of their steps can
-- happen; a step is one use that a task makes of what they share, with what the task does on its
-- own. A task that the table refuses drops its receiver in the step of the refusal.
pub mod Receivers
pub mod Races
pub mod Peers
pub mod Entries
pub mod Limit
pub mod Duplicates
mod Tests
use braidpool.Base.{
  ℕ, String, Bool, true, false, Option, none, some, List, [], ◌∷◌, ◌++◌, Outcome, ok, err, panic,
  get_elem?, set, remove_at,
}
use braidpool.Manager.{Metadata, ConnectionManager, new, insert, remove}
use braidpool.Connection.Io.{Progress, going, returned, crashed}
use braidpool.Connection.Heartbeat.{Broadcast, Timer, Heart, Pulse, heartbeat_round}

-- How far `start` has come for a peer. It holds a receiver of the broadcasts from the beginning,
-- and drops it when the `select!` ends, before it closes the writer and removes the entry.
pub data Phase : Type 0 where
  waiting : Phase  -- spawned, before `manager.insert`
  serving : Phase  -- in the `select!`
  leaving : Phase  -- awaiting `writer.close()`, before `manager.remove`

pub record Peer (Addr : Type 0) : Type 0 where
  pub addr : Addr
  pub phase : Phase

pub record Node {Bytes : Type 0} (Addr : Type 0) (b : Broadcast Bytes) (t : Timer) : Type 0 where
  pub manager : ConnectionManager Addr
  pub sender : b.Sender
  pub heart : Progress (Heart Bytes t)
  pub peers : List (Peer Addr)

-- The steps. A number is the place of a peer in the list.
pub data Event (Addr : Type 0) : Type 0 where
  joins : Addr → Event Addr  -- accepted or dialled: `subscribe`, then the task is spawned
  registers : ℕ → ℕ → Event Addr  -- `manager.insert`, at the given time
  gives_up : ℕ → Event Addr  -- `connect` cannot reach the peer: the task panics or ends
  ends : ℕ → Event Addr  -- the `select!` is over
  cleans_up : ℕ → Event Addr  -- `manager.remove`
  beats : Pulse → Event Addr  -- a step of the heartbeat task

module _ {Bytes Addr : Type 0} (dec : Discrete Addr) (b : Broadcast Bytes) (t : Timer) where
  unfoldable pub boot : ℕ → b.Sender → Heart Bytes t → Node Addr b t
  unfolding new
  boot capacity sender heart = record {
    manager = new capacity;
    sender = sender;
    heart = going heart;
    peers = [];
  }

  -- What `start` does with the result of `manager.insert`: on an error it returns, and its receiver
  -- is dropped.
  unfoldable pub after_insert :
      Node Addr b t
      → ℕ
      → Addr
      → Outcome String (Option Metadata) × ConnectionManager Addr
      → Node Addr b t
  after_insert n i addr (ok _, manager) = record n {
    manager = manager;
    peers = set n.peers i (record { addr = addr; phase = serving });
  }
  after_insert n i addr (err _, manager) = record n {
    manager = manager;
    sender = b.unsubscribe n.sender;
    peers = remove_at n.peers i;
  }
  after_insert n i addr (panic, manager) = n

  unfoldable pub register : Node Addr b t → ℕ → ℕ → Addr → Phase → Node Addr b t
  unfolding after_insert
  register n i now addr waiting =
      after_insert n i addr (insert dec n.manager addr (record { created_at = now }))
  register n i now addr _ = n

  -- The task of `connect` ends before `start`, and its receiver is dropped with it.
  unfoldable pub give_up : Node Addr b t → ℕ → Addr → Phase → Node Addr b t
  give_up n i addr waiting = record n {
    sender = b.unsubscribe n.sender;
    peers = remove_at n.peers i;
  }
  give_up n i addr _ = n

  unfoldable pub end_select : Node Addr b t → ℕ → Addr → Phase → Node Addr b t
  end_select n i addr serving = record n {
    sender = b.unsubscribe n.sender;
    peers = set n.peers i (record { addr = addr; phase = leaving });
  }
  end_select n i addr _ = n

  unfoldable pub clean : Node Addr b t → ℕ → Addr → Phase → Node Addr b t
  clean n i addr leaving = record n {
    manager = (remove dec n.manager addr).1;
    peers = remove_at n.peers i;
  }
  clean n i addr _ = n

  -- A task that has panicked runs no more.
  unfoldable pub beat : Node Addr b t → Pulse → Progress (Heart Bytes t) → Node Addr b t
  beat n p (going h) =
      let (heart, sender) = heartbeat_round b t n.manager n.sender h p in
      record n { heart = heart; sender = sender }
  beat n p (returned _ _) = n
  beat n p (crashed _) = n

  unfoldable pub on_peer :
      Node Addr b t → Option (Peer Addr) → (Addr → Phase → Node Addr b t) → Node Addr b t
  on_peer n none f = n
  on_peer n (some p) f = f p.addr p.phase

  -- One step; a step that its task is not ready for changes nothing.
  unfoldable pub step : Node Addr b t → Event Addr → Node Addr b t
  unfolding register give_up end_select clean beat on_peer
  step n (joins addr) = record n {
    sender = b.subscribe n.sender;
    peers = n.peers ++ (record { addr = addr; phase = waiting } ∷ []);
  }
  step n (registers i now) = on_peer n (get_elem? n.peers i) (register n i now)
  step n (gives_up i) = on_peer n (get_elem? n.peers i) (give_up n i)
  step n (ends i) = on_peer n (get_elem? n.peers i) (end_select n i)
  step n (cleans_up i) = on_peer n (get_elem? n.peers i) (clean n i)
  step n (beats p) = beat n p n.heart

  unfoldable pub run : Node Addr b t → List (Event Addr) → Node Addr b t
  run n [] = n
  run n (e ∷ es) = run (step n e) es
