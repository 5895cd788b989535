-- ===== src/Server/Fine.antt =====
-- What every connection of a running server satisfies (node/connection/src/lib.rs): its channel is
-- open and read until its `select!` ends.
use braidpool.Base.{
  ℕ, ◌≡◌, ◌≢◌, refl, inl, inr, false, String, Option, none, List, [], Outcome, ok, err, panic,
  arith, Option-cases, All, All-get, All-set, All-remove_at, All-append, All-map, get_elem?,
}
use braidpool.Protocol.Message.{Message}
use braidpool.Protocol.Wire.{Codec}
use braidpool.Manager.{Metadata, ConnectionManager}
use braidpool.Connection.Io.{Mpsc, IsMpsc, Sink, Progress, going, returned, crashed}
use braidpool.Connection.Session.{Session, Turn}
use braidpool.Connection.Heartbeat.{Broadcast, Timer, Heart, Pulse, tick, sends, notified}
use braidpool.Connection.Liveness.{IsSound, Survives, turn-Survives}
use braidpool.Connection.Session.Registration.{greet-Survives}
use braidpool.Server.{
  Life, waiting, serving, leaving, Conn, Server, Move, joins, gives_up, registers, turns, cleans_up,
  beats, hear, hear_in, hear_by, announce, drop_conn, move_to, outcome, after_insert, register,
  give_up, turn, clean, beat, on_conn, step,
}

module _ {Bytes Addr : Type 0} (dec : Discrete Addr) {q : Mpsc Bytes} (L : IsMpsc q)
    (c : Codec Bytes) (w : Sink Bytes) (total : (m : Message) → c.serialize m ≢ none)
    (b : Broadcast Bytes) (t : Timer)
    (enqueue : List (Option Bytes) → Bytes → List (Option Bytes)) where
  -- The channel of a connection that is not at its end is open and read.
  abbrev pub IsSoundLife : Life (Session Bytes q w) → Type 0
  IsSoundLife (waiting s) = IsSound L c w total s
  IsSoundLife (serving s) = IsSound L c w total s
  IsSoundLife (leaving s) = Unit

  abbrev pub IsSoundConn : Conn Addr q w → Type 0
  IsSoundConn k = IsSoundLife k.life

  abbrev pub IsFine : Server Addr q w b t → Type 0
  IsFine n = All IsSoundConn n.conns

  -- A connection comes with an open channel.
  abbrev pub IsOpen : Move Addr q w → Type 0
  IsOpen (joins sp) = (L.look sp.chan).shut ≡ false
  IsOpen (gives_up i) = Unit
  IsOpen (registers i now) = Unit
  IsOpen (turns i t') = Unit
  IsOpen (cleans_up i) = Unit
  IsOpen (beats p) = Unit

  outcome-IsFine :
      (n : Server Addr q w b t) (i : ℕ) (addr : Addr) (p : Progress (Session Bytes q w))
      → Survives L c w total p
      → IsFine n
      → IsFine (outcome dec q c w b t enqueue n i addr p)
  unfolding outcome move_to
  outcome-IsFine n i addr (going s) k v = All-set IsSoundConn n.conns i _ v k
  outcome-IsFine n i addr (returned e s) k v = All-set IsSoundConn n.conns i _ v tt
  outcome-IsFine n i addr (crashed s) k v = absurd k

  after_insert-IsFine :
      (n : Server Addr q w b t) (i : ℕ) (addr : Addr) (now : ℕ) (s : Session Bytes q w)
      (r : Outcome String (Option Metadata) × ConnectionManager Addr)
      → IsSound L c w total s
      → IsFine n
      → IsFine (after_insert dec q c w b t enqueue n i addr now s r)
  unfolding after_insert drop_conn
  after_insert-IsFine n i addr now s (ok _, m) k v =
      outcome-IsFine (record n { manager = m }) i addr _
        (greet-Survives L c w total dec addr now s [] k) v
  after_insert-IsFine n i addr now s (err _, m) k v = All-remove_at IsSoundConn n.conns i v
  after_insert-IsFine n i addr now s (panic, m) k v = v

  hear_in-IsSoundLife :
      (m : Bytes) (life : Life (Session Bytes q w))
      → IsSoundLife life
      → IsSoundLife (hear_in dec q c w b t enqueue m life)
  unfolding hear_in hear
  hear_in-IsSoundLife m (waiting s) k = record { is_open = k.is_open; on = k.on }
  hear_in-IsSoundLife m (serving s) k = record { is_open = k.is_open; on = k.on }
  hear_in-IsSoundLife m (leaving s) k = k

  announce-IsFine :
      (s : b.Sender) (h : Heart Bytes t) (p : Pulse) (ks : List (Conn Addr q w))
      → All IsSoundConn ks
      → All IsSoundConn (announce dec q c w b t enqueue s h p ks)
  unfolding announce hear_by
  announce-IsFine s h tick ks v = v
  announce-IsFine s h sends ks v =
      let heard =
        All-map IsSoundConn (hear_by dec q c w b t enqueue h.message) ks
          (λ k. hear_in-IsSoundLife h.message k.life) v in
      ground (arith, heard)
  announce-IsFine s h notified ks v = v

  beat-IsFine :
      (n : Server Addr q w b t) (p : Pulse) (o : Progress (Heart Bytes t))
      → IsFine n
      → IsFine (beat dec q c w b t enqueue n p o)
  unfolding beat
  beat-IsFine n p (going h) v = announce-IsFine n.sender h p n.conns v
  beat-IsFine n p (returned _ _) v = v
  beat-IsFine n p (crashed _) v = v

  register-IsFine :
      (n : Server Addr q w b t) (i now : ℕ) (addr : Addr) (life : Life (Session Bytes q w))
      → IsSoundLife life
      → IsFine n
      → IsFine (register dec q c w b t enqueue n i now addr life)
  unfolding register
  register-IsFine n i now addr (waiting s) k v = after_insert-IsFine n i addr now s _ k v
  register-IsFine n i now addr (serving s) k v = v
  register-IsFine n i now addr (leaving s) k v = v

  give_up-IsFine :
      (n : Server Addr q w b t) (i : ℕ) (life : Life (Session Bytes q w))
      → IsFine n
      → IsFine (give_up dec q c w b t enqueue n i life)
  unfolding give_up drop_conn
  give_up-IsFine n i (waiting s) v = All-remove_at IsSoundConn n.conns i v
  give_up-IsFine n i (serving s) v = v
  give_up-IsFine n i (leaving s) v = v

  turn-IsFine :
      (n : Server Addr q w b t) (i : ℕ) (t' : Turn) (addr : Addr) (life : Life (Session Bytes q w))
      → IsSoundLife life
      → IsFine n
      → IsFine (turn dec q c w b t enqueue n i t' addr life)
  unfolding turn
  turn-IsFine n i t' addr (waiting s) k v = v
  turn-IsFine n i t' addr (serving s) k v =
      outcome-IsFine n i addr _ (turn-Survives L c w total s t' k) v
  turn-IsFine n i t' addr (leaving s) k v = v

  clean-IsFine :
      (n : Server Addr q w b t) (i : ℕ) (addr : Addr) (life : Life (Session Bytes q w))
      → IsFine n
      → IsFine (clean dec q c w b t enqueue n i addr life)
  unfolding clean
  clean-IsFine n i addr (waiting s) v = v
  clean-IsFine n i addr (serving s) v = v
  clean-IsFine n i addr (leaving s) v = All-remove_at IsSoundConn n.conns i v

  on_conn-IsFine :
      (n : Server Addr q w b t) (i : ℕ) (f : Addr → Life (Session Bytes q w) → Server Addr q w b t)
      → ((addr : Addr) (life : Life (Session Bytes q w)) → IsSoundLife life → IsFine (f addr life))
      → IsFine n
      → IsFine (on_conn dec q c w b t enqueue n (get_elem? n.conns i) f)
  unfolding on_conn
  on_conn-IsFine n i f keep v = elim (Option-cases (get_elem? n.conns i)) [
    | inl e ↦ rw (e, on_conn) v
    | inr (k, e) ↦ rw (e, on_conn) (keep k.addr k.life (All-get IsSoundConn n.conns i v e))
  ]

  pub step-IsFine :
      (n : Server Addr q w b t) (e : Move Addr q w)
      → IsOpen e
      → IsFine n
      → IsFine (step dec q c w b t enqueue n e)
  unfolding step
  step-IsFine n (joins sp) o v =
      All-append IsSoundConn n.conns _ v (record { is_open = o; on = refl })
  step-IsFine n (gives_up i) o v = on_conn-IsFine n i _ (λ addr life k. give_up-IsFine n i life v) v
  step-IsFine n (registers i now) o v =
      on_conn-IsFine n i _ (λ addr life k. register-IsFine n i now addr life k v) v
  step-IsFine n (turns i t') o v =
      on_conn-IsFine n i _ (λ addr life k. turn-IsFine n i t' addr life k v) v
  step-IsFine n (cleans_up i) o v =
      on_conn-IsFine n i _ (λ addr life k. clean-IsFine n i addr life v) v
  step-IsFine n (beats p) o v = beat-IsFine n p n.heart v
