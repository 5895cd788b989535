-- ===== src/Server/Steps.antt =====
-- What the parts of a step of the server (node/connection/src/lib.rs) come to in the node of many
-- tasks.
use braidpool.Base.{
  ℕ, ◌≡◌, ◌≢◌, refl, inl, inr, String, Option, none, List, [], ◌∷◌, map, Outcome, ok, err, panic,
  arith, Option-cases, set, remove_at, map-set, map-remove_at,
}
use braidpool.Protocol.Message.{Message}
use braidpool.Protocol.Handshake.{handshake_of}
use braidpool.Protocol.Wire.{Codec, as_bytes}
use braidpool.Manager.{Metadata, ConnectionManager, remove}
use braidpool.Connection.Io.{Mpsc, IsMpsc, Sink, Progress, going, returned, crashed}
use braidpool.Connection.Session.{Session, hello, greet, select}
use braidpool.Connection.Heartbeat.{
  Broadcast, Timer, Heart, Pulse, tick, sends, notified, heartbeat_round,
}
use braidpool.Node
use braidpool.Node.{Phase, Peer, Node, Event}
use braidpool.Server.{
  Life, waiting, serving, leaving, Conn, Server, hear_in, hear_by, announce, drop_conn, move_to,
  outcome, after_insert, register, give_up, clean, beat,
}
use braidpool.Server.View.{phase_of, peer, view}

module _ {Bytes Addr : Type 0} (dec : Discrete Addr) {q : Mpsc Bytes} (L : IsMpsc q)
    (c : Codec Bytes) (w : Sink Bytes) (total : (m : Message) → c.serialize m ≢ none)
    (b : Broadcast Bytes) (t : Timer)
    (enqueue : List (Option Bytes) → Bytes → List (Option Bytes)) where
  view-drop_conn :
      (n : Server Addr q w b t) (i : ℕ)
      → view (drop_conn dec q c w b t enqueue n i) ≡ record (view n) {
        sender = b.unsubscribe n.sender;
        peers = remove_at (map peer n.conns) i;
      }
  unfolding drop_conn
  view-drop_conn n i = λ j. record {
    manager = n.manager;
    sender = b.unsubscribe n.sender;
    heart = n.heart;
    peers = map-remove_at peer n.conns i j;
  }

  pub view-move_to :
      (n : Server Addr q w b t) (i : ℕ) (addr : Addr) (life : Life (Session Bytes q w))
      → view (move_to dec q c w b t enqueue n i addr life) ≡ record (view n) {
        peers = set (map peer n.conns) i (record { addr = addr; phase = phase_of life });
      }
  unfolding move_to
  view-move_to n i addr life = λ j. record {
    manager = n.manager;
    sender = n.sender;
    heart = n.heart;
    peers = map-set peer n.conns i (record { addr = addr; life = life }) j;
  }

  abbrev pub greeted : Session Bytes q w → Bytes → Session Bytes q w
  greeted s m = record s { handler = record (s.handler) { out = (w.send s.handler.out m).1 } }

  -- A greeting only leaves the connection in its `select!`.
  pub greet_going :
      (addr : Addr) (now : ℕ) (s : Session Bytes q w)
      → (s' : Session Bytes q w) × (greet q c w s [] (hello c addr now) ≡ going s')
  unfolding greet hello as_bytes select
  greet_going addr now s =
      elim (Option-cases (c.serialize (Message.handshake (handshake_of "helo" "0.1.0")))) [
        | inl none' ↦ absurd (total _ none')
        | inr (m, e) ↦ (greeted s m, rw e)
      ]

  view-after_insert :
      (n : Server Addr q w b t) (i : ℕ) (addr : Addr) (now : ℕ) (s : Session Bytes q w)
      (r : Outcome String (Option Metadata) × ConnectionManager Addr)
      → view (after_insert dec q c w b t enqueue n i addr now s r)
        ≡ Node.after_insert dec b t (view n) i addr r
  unfolding after_insert Node.after_insert outcome
  view-after_insert n i addr now s (ok o, m) =
      let (s', e) = greet_going addr now s in
      rw (e, outcome) (view-move_to (record n { manager = m }) i addr (serving s'))
  view-after_insert n i addr now s (err _, m) = view-drop_conn (record n { manager = m }) i
  view-after_insert n i addr now s (panic, m) = refl

  pub view-register :
      (n : Server Addr q w b t) (i now : ℕ) (addr : Addr) (life : Life (Session Bytes q w))
      → view (register dec q c w b t enqueue n i now addr life)
        ≡ Node.register dec b t (view n) i now addr (phase_of life)
  unfolding register Node.register
  view-register n i now addr (waiting s) = view-after_insert n i addr now s _
  view-register n i now addr (serving s) = refl
  view-register n i now addr (leaving s) = refl

  pub view-give_up :
      (n : Server Addr q w b t) (i : ℕ) (addr : Addr) (life : Life (Session Bytes q w))
      → view (give_up dec q c w b t enqueue n i life)
        ≡ Node.give_up dec b t (view n) i addr (phase_of life)
  unfolding give_up Node.give_up
  view-give_up n i addr (waiting s) = view-drop_conn n i
  view-give_up n i addr (serving s) = refl
  view-give_up n i addr (leaving s) = refl

  pub view-clean :
      (n : Server Addr q w b t) (i : ℕ) (addr : Addr) (life : Life (Session Bytes q w))
      → view (clean dec q c w b t enqueue n i addr life)
        ≡ Node.clean dec b t (view n) i addr (phase_of life)
  unfolding clean Node.clean
  view-clean n i addr (waiting s) = refl
  view-clean n i addr (serving s) = refl
  view-clean n i addr (leaving s) = λ j. record {
    manager = (remove dec n.manager addr).1;
    sender = n.sender;
    heart = n.heart;
    peers = map-remove_at peer n.conns i j;
  }

  peer-hear_by :
      (m : Bytes) (addr : Addr) (life : Life (Session Bytes q w))
      → peer (hear_by dec q c w b t enqueue m (record { addr = addr; life = life }))
        ≡ record { addr = addr; phase = phase_of life }
  unfolding hear_by hear_in
  peer-hear_by m addr (waiting s) = refl
  peer-hear_by m addr (serving s) = refl
  peer-hear_by m addr (leaving s) = refl

  -- A heartbeat reaches the receivers and changes no phase.
  map-hear_by :
      (m : Bytes) (ks : List (Conn Addr q w))
      → map peer (map (hear_by dec q c w b t enqueue m) ks) ≡ map peer ks
  map-hear_by m [] = refl
  map-hear_by m (k ∷ ks) = λ j. peer-hear_by m k.addr k.life j ∷ map-hear_by m ks j

  map-announce :
      (s : b.Sender) (h : Heart Bytes t) (p : Pulse) (ks : List (Conn Addr q w))
      → map peer (announce dec q c w b t enqueue s h p ks) ≡ map peer ks
  unfolding announce
  map-announce s h tick ks = refl
  map-announce s h sends ks = let heard = map-hear_by h.message ks in ground arith
  map-announce s h notified ks = refl

  pub view-beat :
      (n : Server Addr q w b t) (p : Pulse) (o : Progress (Heart Bytes t))
      → view (beat dec q c w b t enqueue n p o) ≡ Node.beat dec b t (view n) p o
  unfolding beat Node.beat
  view-beat n p (going h) = λ j. record {
    manager = n.manager;
    sender = (heartbeat_round b t n.manager n.sender h p).1;
    heart = (heartbeat_round b t n.manager n.sender h p).0;
    peers = map-announce n.sender h p n.conns j;
  }
  view-beat n p (returned _ _) = refl
  view-beat n p (crashed _) = refl
