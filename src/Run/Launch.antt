-- ===== src/Run/Launch.antt =====
-- The node that `main` of node/run/src/main.rs has put together when it comes to listen: a task for
-- each seed, with its receiver of the broadcasts.
use braidpool.Base.{
  ℕ, ◌<◌, String, Option, ok, ◌≡◌, refl, sym, ◌∙◌, List, [], ◌∷◌, map, length, count, arith,
}
use braidpool.Config.{Config}
use braidpool.Protocol.Wire.{Codec}
use braidpool.Connection.Heartbeat.{Broadcast, Timer}
use braidpool.Connection.Io.{going}
use braidpool.Connection.Pulse.{IsBroadcast}
use braidpool.Node.{waiting, Peer, Node, Event, run}
use braidpool.Node.Receivers.{has_receiver, IsCounted, run-IsCounted}
use braidpool.Run.{Started, System, main}
use braidpool.Run.Startup.{IsTimer, CanStart, main-IsStarted}

module _ {Addr : Type 0} where
  abbrev pub dialling : Addr → Peer Addr
  dialling addr = record { addr = addr; phase = waiting }

  count-dialling : (addrs : List Addr) → count has_receiver (map dialling addrs) ≡ length addrs
  count-dialling [] = refl
  count-dialling (a ∷ addrs) = omega (arith, count-dialling addrs)

module _ {Bytes Addr : Type 0} {b : Broadcast Bytes} {t : Timer} where
  -- The node, where the seeds resolve to these addresses.
  abbrev pub launch : Started Bytes Addr b t → List Addr → Node Addr b t
  launch st addrs = record {
    manager = st.manager;
    sender = st.sender;
    heart = going st.heart;
    peers = map dialling addrs;
  }

  module _ (dec : Discrete Addr) (c : Codec Bytes) (L : IsBroadcast b) (T : IsTimer t)
      (s : System Addr) where
    -- If the configuration loads, the logging is set up, the bind address resolves, the
    -- heartbeat can be written, and neither the capacity of the broadcast channel nor the
    -- heartbeat interval is 0, then `main` starts a node in which, if its seeds stand for one
    -- address each, the subscribers of the broadcasts are the peers whose task has not left its
    -- `select!`, whatever the tasks do in whatever order.
    pub launch-IsCounted :
        (arg : Option String) (now : ℕ) (cfg : Config) (a : Addr) (rest : List Addr) (bytes : Bytes)
        (addrs : List Addr) (es : List (Event Addr))
        → CanStart c L T s arg now cfg a rest bytes
        → 0 < cfg.peer.max_pending_send_to_all
        → 0 < cfg.peer.heartbeat_interval
        → length addrs ≡ length cfg.peer.seeds
        → (st : Started Bytes Addr b t) × (main c b t s arg now [] ≡ (ok st, cfg.peer.seeds))
          × IsCounted dec L t (run dec b t (launch st addrs) es)
    launch-IsCounted arg now cfg a rest bytes addrs es h p q same =
        let (st, started, v) = main-IsStarted c L T s arg now cfg a rest bytes h p q in
        (
          st,
          started,
          run-IsCounted dec L t (launch st addrs) es
              (v.subscribed ∙ sym same ∙ sym (count-dialling addrs)),
        )
