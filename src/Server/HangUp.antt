-- ===== src/Server/HangUp.antt =====
-- A peer that hangs up, and the heartbeats of the server that it was connected to
-- (node/connection/src/lib.rs, `start` and `start_heartbeat`).
use braidpool.Base.{
  ℕ, ◌<◌, ◌≡◌, ◌≢◌, refl, sym, ap, ◌∙◌, subst, true, Option, none, List, [], ◌∷◌, arith, All,
  Option-cases, inl, inr,
}
use braidpool.Protocol.Message.{Message}
use braidpool.Protocol.Handshake.{handshake_of}
use braidpool.Protocol.Wire.{Codec, as_bytes}
use braidpool.Manager.{num_connections}
use braidpool.Manager.Methods.{insert-new}
use braidpool.Connection.Io.{Mpsc, IsMpsc, Sink, going, returned, crashed}
use braidpool.Connection.Heartbeat.{Broadcast, Timer, Heart, tick, sends}
use braidpool.Connection.Pulse.{IsBroadcast}
use braidpool.Connection.Listen.{Spawned}
use braidpool.Connection.ReadLoop.{read_round}
use braidpool.Connection.Session.{Session, reads, hello, greet, select, poll_session, wind_up}
use braidpool.Node
use braidpool.Node.{Node}
use braidpool.Node.Races.{tick_unheard, run_crashed}
use braidpool.Server.{
  leaving, Conn, Server, Stream, Move, joins, registers, turns, beats, session_of, boot, outcome,
  move_to, step, run,
}
use braidpool.Server.View.{view, all_events}
use braidpool.Server.Fine.{IsFine, IsOpen, step-IsFine}
use braidpool.Server.Steps.{greeted, greet_going}
use braidpool.Server.Refinement.{view-run}

module _ {Bytes Addr : Type 0} (dec : Discrete Addr) {q : Mpsc Bytes} (L : IsMpsc q)
    (c : Codec Bytes) (w : Sink Bytes) (total : (m : Message) → c.serialize m ≢ none)
    {b : Broadcast Bytes} (S : IsBroadcast b) (t : Timer)
    (enqueue : List (Option Bytes) → Bytes → List (Option Bytes)) where
  greet-reader :
      (addr : Addr) (now : ℕ) (s s' : Session Bytes q w)
      → greet q c w s [] (hello c addr now) ≡ going s'
      → s'.reader ≡ s.reader
  unfolding greet hello as_bytes select
  greet-reader addr now s s' e =
      elim (Option-cases (c.serialize (Message.handshake (handshake_of "helo" "0.1.0")))) [
        | inl none' ↦ absurd (total _ none')
        | inr (m, g) ↦
            let there : greet q c w s [] (hello c addr now)
                ≡ going (greeted dec L c w total b t enqueue s m) =
              rw g in
            let same : greeted dec L c w total b t enqueue s m ≡ s' =
              (let k = sym there ∙ e in cc) in
            sym (ap (λ k. k.reader) same)
      ]

  poll_silent :
      (s : Session Bytes q w)
      → s.reader ≡ []
      → poll_session q c w s reads
        ≡ returned "Receive: peer closed connection" (record s { reader = [] })
  unfolding poll_session read_round
  poll_silent s e = rw e refl

  -- The connection of the peer at the end of its `select!`.
  abbrev hung_up : Spawned Bytes q Addr (Stream w) → ℕ → Conn Addr q w
  hung_up sp now =
      let (s, _) = greet_going dec L c w total b t enqueue sp.addr now (session_of sp) in
      record { addr = sp.addr; life = leaving (wind_up q c w (record s { reader = [] })) }

  abbrev at_the_end :
      ℕ → ℕ → b.Sender → Heart Bytes t → Spawned Bytes q Addr (Stream w) → Server Addr q w b t
  at_the_end capacity now sender h sp = record {
    manager = record {
      capacity = capacity;
      shared_state = (sp.addr, record { created_at = now }) ∷ [];
    };
    sender = b.unsubscribe (b.subscribe sender);
    heart = going h;
    conns = hung_up sp now ∷ [];
  }

  first_peer :
      (capacity now : ℕ) (sender : b.Sender) (h : Heart Bytes t)
      (sp : Spawned Bytes q Addr (Stream w))
      → 0 < capacity
      → sp.stream.0 ≡ []
      → run dec q c w b t enqueue
          (boot dec q c w b t enqueue capacity sender h)
          (joins sp ∷ registers 0 now ∷ turns 0 reads ∷ [])
        ≡ at_the_end capacity now sender h sp
  unfolding run step boot
  first_peer capacity now sender h sp room silent =
      let (s, e) = greet_going dec L c w total b t enqueue sp.addr now (session_of sp) in
      rw (insert-new dec capacity sp.addr (record { created_at = now }) room, e)
        (rw
          (poll_silent s (greet-reader sp.addr now (session_of sp) s e ∙ silent), outcome, move_to)
          refl)

  tick_crashed :
      (capacity now : ℕ) (sender : b.Sender) (h : Heart Bytes t)
      (sp : Spawned Bytes q Addr (Stream w))
      → S.receivers sender ≡ 0
      → (run dec q c w b t enqueue
          (at_the_end capacity now sender h sp)
          (beats tick ∷ beats sends ∷ [])).heart
        ≡ crashed (record h { due = true })
  unfolding Node.run num_connections
  tick_crashed capacity now sender h sp quiet =
      let n = at_the_end capacity now sender h sp in
      let silent : S.receivers (b.unsubscribe (b.subscribe sender)) ≡ 0 =
        omega (arith, S.receivers-subscribe sender, S.receivers-unsubscribe (b.subscribe sender)) in
      ap (λ k. k.heart)
        (view-run dec L c w total b t enqueue n (beats tick ∷ beats sends ∷ []) (tt, (tt, tt))
          (tt, tt))
      ∙ tick_unheard dec S t (view n) h refl (omega arith) silent

  still_crashed :
      (n : Server Addr q w b t) (later : List (Move Addr q w)) (h : Heart Bytes t)
      → All (IsOpen dec L c w total b t enqueue) later
      → IsFine dec L c w total b t enqueue n
      → n.heart ≡ crashed h
      → (run dec q c w b t enqueue n later).heart ≡ crashed h
  still_crashed n later h open' fine over =
      ap (λ k. k.heart) (view-run dec L c w total b t enqueue n later open' fine)
      ∙ run_crashed dec S t (view n) (all_events dec q c w b t enqueue n later) h over

  -- In a fresh server with room for a connection and without a subscriber, where every message can
  -- be written: if a peer connects and its stream ends at once, and a tick and its send come
  -- before the connection is taken out of the table, then the heartbeats have ended for good,
  -- whatever else happens on open channels.
  pub peer_hangs_up :
      (capacity now : ℕ) (sender : b.Sender) (h : Heart Bytes t)
      (sp : Spawned Bytes q Addr (Stream w)) (later : List (Move Addr q w))
      → 0 < capacity
      → S.receivers sender ≡ 0
      → sp.stream.0 ≡ []
      → All (IsOpen dec L c w total b t enqueue) later
      → (run dec q c w b t enqueue
          (boot dec q c w b t enqueue capacity sender h)
          (joins sp ∷ registers 0 now ∷ turns 0 reads ∷ beats tick ∷ beats sends ∷ later)).heart
        ≡ crashed (record h { due = true })
  unfolding run num_connections
  peer_hangs_up capacity now sender h sp later room quiet silent open' =
      let n = at_the_end capacity now sender h sp in
      let h' = record h { due = true } in
      let n1 = step dec q c w b t enqueue n (beats tick) in
      subst
        (λ k. (run dec q c w b t enqueue k (beats tick ∷ beats sends ∷ later)).heart ≡ crashed h')
        (sym (first_peer capacity now sender h sp room silent))
        (still_crashed (step dec q c w b t enqueue n1 (beats sends)) later h' open'
          (step-IsFine dec L c w total b t enqueue n1 (beats sends) tt
            (step-IsFine dec L c w total b t enqueue n (beats tick) tt (tt, tt)))
          (tick_crashed capacity now sender h sp quiet))
