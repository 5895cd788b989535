-- ===== src/Server/Heartbeats.antt =====
-- The way of a heartbeat in a running server, from the task of `start_heartbeat` through the
-- broadcast channel to the peers (node/connection/src/lib.rs).
use braidpool.Base.{
  ℕ, ◌<◌, ◌≡◌, ◌≢◌, refl, sym, subst, true, false, Option, none, some, List, [], ◌∷◌, ◌++◌, map,
  arith, All, get_elem?, get_elem?-map, get_elem?-set_self, lt-length_of_get_elem?,
  count_pos_of_get_elem?,
}
use braidpool.Protocol.Message.{Message}
use braidpool.Protocol.Wire.{Codec}
use braidpool.Manager.{num_connections}
use braidpool.Connection.Io.{Mpsc, IsMpsc, Sink, going}
use braidpool.Connection.Handler.{from_broadcast, poll_handler, transmit}
use braidpool.Connection.Session.{Session, handles, poll_session}
use braidpool.Connection.Answers.{IsReliable}
use braidpool.Connection.Heartbeat.{Broadcast, Timer, Heart, tick, sends}
use braidpool.Connection.Pulse.{IsBroadcast, tick_listed, sends_due}
use braidpool.Node.Receivers.{has_receiver, IsCounted, run-IsCounted}
use braidpool.Server.{
  serving, Conn, Server, Move, turns, beats, hear, hear_in, hear_by, announce, move_to, outcome,
  turn, beat, on_conn, step, run,
}
use braidpool.Server.View.{peer, view, all_events}
use braidpool.Server.Fine.{IsFine, IsOpen}
use braidpool.Server.Refinement.{view-run}

module _ {Bytes Addr : Type 0} (dec : Discrete Addr) (q : Mpsc Bytes) (c : Codec Bytes)
    (w : Sink Bytes) {b : Broadcast Bytes} (S : IsBroadcast b) (t : Timer)
    (enqueue : List (Option Bytes) → Bytes → List (Option Bytes)) where
  send_works :
      (n : Server Addr q w b t) (i : ℕ) (k : Conn Addr q w) (m : Bytes)
      → IsCounted dec S t (view n)
      → get_elem? n.conns i ≡ some k
      → has_receiver (peer k) ≡ true
      → (b.send n.sender m).0 ≡ true
  send_works n i k m v e r =
      let some_receiver =
        count_pos_of_get_elem? has_receiver (map peer n.conns) i (get_elem?-map peer n.conns i e)
          r in
      ground (arith, S.send_lem n.sender m)

  announce_all :
      (n : Server Addr q w b t) (h : Heart Bytes t)
      → (b.send n.sender h.message).0 ≡ true
      → h.due ≡ true
      → announce dec q c w b t enqueue n.sender h sends n.conns
        ≡ map (hear_by dec q c w b t enqueue h.message) n.conns
  unfolding announce
  announce_all n h sent due = ground arith

  -- In a server whose subscribers are counted, where some connection is listed and some connection
  -- waits or is served, a tick and its send reach the receiver of every connection that does, and
  -- the heartbeats go on.
  pub beats_heard :
      (n : Server Addr q w b t) (i : ℕ) (k : Conn Addr q w) (h : Heart Bytes t)
      → IsCounted dec S t (view n)
      → n.heart ≡ going h
      → get_elem? n.conns i ≡ some k
      → has_receiver (peer k) ≡ true
      → 0 < num_connections n.manager
      → let n' = run dec q c w b t enqueue n (beats tick ∷ beats sends ∷ []) in
        (n'.heart ≡ going (record h { due = false }))
        × (n'.conns ≡ map (hear_by dec q c w b t enqueue h.message) n.conns)
  unfolding run step beat announce
  beats_heard n i k h v alive e r listed =
      let h' = record h { due = true } in
      let sent = send_works n i k h.message v e r in
      let ticked = tick_listed S t n.manager n.sender h listed in
      (
        rw (alive, ticked) (rw (sends_due S t n.manager n.sender h' refl, sent) refl),
        rw (alive, ticked, sent) refl,
      )

  -- A session that has written an announcement, its only one.
  abbrev written_on : Session Bytes q w → Bytes → Session Bytes q w
  written_on s m = record s {
    handler = record (s.handler) {
      announcements = [];
      out = (w.send s.handler.out m).1;
      channel_on = true;
      announce_on = true;
    };
  }

  module _ (R : IsReliable w) where
    poll_announced :
        (s : Session Bytes q w) (m : Bytes)
        → s.handler.announce_on ≡ true
        → s.handler.announcements ≡ some m ∷ []
        → poll_session q c w s (handles from_broadcast) ≡ going (written_on s m)
    unfolding poll_session poll_handler transmit
    poll_announced s m on one = ground (arith, R.send_ok s.handler.out m)

    turn_announced :
        (n : Server Addr q w b t) (i : ℕ) (addr : Addr) (s : Session Bytes q w) (m : Bytes)
        → get_elem? n.conns i ≡ some (record { addr = addr; life = serving s })
        → s.handler.announce_on ≡ true
        → s.handler.announcements ≡ some m ∷ []
        → step dec q c w b t enqueue n (turns i (handles from_broadcast))
          ≡ move_to dec q c w b t enqueue n i addr (serving (written_on s m))
    unfolding step on_conn turn
    turn_announced n i addr s m e on one =
        rw (e, on_conn, turn, poll_announced s m on one, outcome) refl

    -- In a server whose subscribers are counted and whose heartbeats go on, where some connection
    -- is listed, and where a connection is served, polls its announcements and has none waiting: if
    -- its receiver gets what is sent and the writers take everything, a tick, its send and a turn of
    -- its handler write the heartbeat to its peer, and it is still served.
    pub heartbeat_written :
        (n : Server Addr q w b t) (i : ℕ) (addr : Addr) (s : Session Bytes q w) (h : Heart Bytes t)
        → IsCounted dec S t (view n)
        → n.heart ≡ going h
        → get_elem? n.conns i ≡ some (record { addr = addr; life = serving s })
        → s.handler.announce_on ≡ true
        → s.handler.announcements ≡ []
        → enqueue [] h.message ≡ some h.message ∷ []
        → 0 < num_connections n.manager
        → let n' =
            run dec q c w b t enqueue n
              (beats tick ∷ beats sends ∷ turns i (handles from_broadcast) ∷ []) in
          (s' : Session Bytes q w) × (get_elem? n'.conns i
            ≡ some (record { addr = addr; life = serving s' }))
          × (R.sent s'.handler.out ≡ R.sent s.handler.out ++ (h.message ∷ []))
    unfolding run hear_by hear_in hear move_to
    heartbeat_written n i addr s h v alive e on none' law listed =
        let n1 = run dec q c w b t enqueue n (beats tick ∷ beats sends ∷ []) in
        let k : Conn Addr q w = record { addr = addr; life = serving s } in
        let (_, heard) = beats_heard n i k h v alive e refl listed in
        let at : get_elem? n1.conns i
            ≡ some
                (record { addr = addr; life = serving (hear dec q c w b t enqueue h.message s) }) =
          rw heard (get_elem?-map (hear_by dec q c w b t enqueue h.message) n.conns i e) in
        let s1 = hear dec q c w b t enqueue h.message s in
        let moved = turn_announced n1 i addr s1 h.message at on (rw none' law) in
        (
          written_on s1 h.message,
          rw moved (get_elem?-set_self n1.conns i _ (lt-length_of_get_elem? n1.conns i at)),
          R.sent-send s.handler.out h.message,
        )

module _ {Bytes Addr : Type 0} (dec : Discrete Addr) {q : Mpsc Bytes} (L : IsMpsc q)
    (c : Codec Bytes) (w : Sink Bytes) (total : (m : Message) → c.serialize m ≢ none)
    {b : Broadcast Bytes} (S : IsBroadcast b) (t : Timer)
    (enqueue : List (Option Bytes) → Bytes → List (Option Bytes)) where
  -- Through any run of a server whose connections are sound the subscribers stay counted.
  pub view-run-IsCounted :
      (n : Server Addr q w b t) (es : List (Move Addr q w))
      → All (IsOpen dec L c w total b t enqueue) es
      → IsFine dec L c w total b t enqueue n
      → IsCounted dec S t (view n)
      → IsCounted dec S t (view (run dec q c w b t enqueue n es))
  view-run-IsCounted n es o f v =
      subst (IsCounted dec S t) (sym (view-run dec L c w total b t enqueue n es o f))
        (run-IsCounted dec S t (view n) (all_events dec q c w b t enqueue n es) v)
