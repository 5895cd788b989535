-- ===== src/Server/Arrivals.antt =====
-- The listener (`start_listen`, node/connection/src/lib.rs) in front of the server: its connections
-- are such as the server's theorems ask for.
use braidpool.Base.{ℕ, suc, ◌≡◌, ◌≢◌, ap, true, false, Option, none, List, [], ◌∷◌, ◌++◌, map, All}
use braidpool.Protocol.Message.{Message}
use braidpool.Protocol.Wire.{Codec}
use braidpool.Connection.Io.{Mpsc, IsMpsc, Sink, going}
use braidpool.Connection.Heartbeat.{Broadcast, Timer}
use braidpool.Connection.Listen.{Spawned, Listener, start_listen}
use braidpool.Connection.Listen.Accepting.{IsFresh, arrivals, peer_of, start_listen-spawns}
use braidpool.Node
use braidpool.Node.{Event}
use braidpool.Server.{Stream, Server, Move, joins, run}
use braidpool.Server.View.{view, all_events}
use braidpool.Server.Fine.{IsFine, IsOpen}
use braidpool.Server.Refinement.{view-run}

module _ {Bytes Addr : Type 0} (dec : Discrete Addr) {q : Mpsc Bytes} (L : IsMpsc q)
    (c : Codec Bytes) (w : Sink Bytes) (total : (m : Message) → c.serialize m ≢ none)
    (b : Broadcast Bytes) (t : Timer)
    (enqueue : List (Option Bytes) → Bytes → List (Option Bytes)) where
  joins-IsOpen :
      (n : ℕ) (sps : List (Spawned Bytes q Addr (Stream w))) (es : List (Move Addr q w))
      → All (IsFresh L n) sps
      → All (IsOpen dec L c w total b t enqueue) es
      → All (IsOpen dec L c w total b t enqueue) (map joins sps ++ es)
  joins-IsOpen n [] es f o = o
  joins-IsOpen n (sp ∷ sps) es f o = (ap (λ k. k.shut) (f.0), joins-IsOpen n sps es (f.1) o)

  -- A bound listener with room for a pending message hands every connection that it accepts to the
  -- server, and the server that takes them all, and then makes any moves on open channels, runs in
  -- what the node keeps of it as the node does.
  pub listener_view-run :
      (n : ℕ) (accepts : List (Option (Stream w × Addr))) (s : Server Addr q w b t)
      (es : List (Move Addr q w))
      → All (IsOpen dec L c w total b t enqueue) es
      → IsFine dec L c w total b t enqueue s
      → let fresh : Listener Bytes q Addr (Stream w) = record { spawned = []; permit = false } in
        (l : Listener Bytes q Addr (Stream w)) × (start_listen q (suc n) true fresh accepts
          ≡ going l)
        × (map (peer_of L) l.spawned ≡ arrivals L accepts)
        × (let moves = map joins l.spawned ++ es in
            view (run dec q c w b t enqueue s moves)
            ≡ Node.run dec b t (view s) (all_events dec q c w b t enqueue s moves))
  listener_view-run n accepts s es o v =
      let (l, e, peers, fresh', _) =
        start_listen-spawns L n (record { spawned = []; permit = false }) accepts tt in
      (
        l,
        e,
        peers,
        view-run dec L c w total b t enqueue s _ (joins-IsOpen (suc n) l.spawned es fresh' o) v,
      )
