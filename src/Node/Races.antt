-- ===== src/Node/Races.antt =====
-- How a node loses its heartbeats: `start` of node/connection/src/lib.rs drops its receiver of the
-- broadcasts before it takes its entry out of the table, and the heartbeat task, which asks whether
-- the table has an entry and then sends, panics when nobody is subscribed by then.
use braidpool.Base.{
  ℕ, ◌<◌, ◌≡◌, ◌↔◌, refl, sym, ◌∙◌, subst, List, [], ◌∷◌, arith, count, All, ltb, false, true,
}
use braidpool.Manager.Methods.{insert-new}
use braidpool.Manager.{num_connections}
use braidpool.Connection.Io.{Progress, going, returned, crashed}
use braidpool.Connection.Heartbeat.{Broadcast, Timer, Heart, Pulse, tick, sends}
use braidpool.Connection.Pulse.{IsBroadcast, heartbeat_crash_iff, checked, tick_listed}
use braidpool.Node.{
  leaving, Node, Event, joins, registers, gives_up, ends, cleans_up, beats, boot, after_insert,
  register, give_up, end_select, clean, beat, on_peer, step, run,
}
use braidpool.Node.Receivers.{has_receiver, IsCounted, run-IsCounted}

module _ {Bytes Addr : Type 0} (dec : Discrete Addr) {b : Broadcast Bytes} (L : IsBroadcast b)
    (t : Timer) where
  -- What the other tasks do.
  abbrev pub IsOther : Event Addr → Type 0
  IsOther (beats _) = ⊥
  IsOther _ = Unit

  heart-step : (n : Node Addr b t) (e : Event Addr) → IsOther e → (step dec b t n e).heart ≡ n.heart
  unfolding step register give_up end_select clean on_peer after_insert
  heart-step n (joins addr) o = refl
  heart-step n (registers i now) o = ground arith
  heart-step n (gives_up i) o = ground arith
  heart-step n (ends i) o = ground arith
  heart-step n (cleans_up i) o = ground arith
  heart-step n (beats p) o = absurd o

  heart-run :
      (n : Node Addr b t) (es : List (Event Addr))
      → All IsOther es
      → (run dec b t n es).heart ≡ n.heart
  unfolding run
  heart-run n [] o = refl
  heart-run n (e ∷ es) (o, os) = heart-run (step dec b t n e) es os ∙ heart-step n e o

  -- In any node whose subscribers are counted and whose heartbeat task waits for its next tick:
  -- whatever the other tasks do between the check of a tick and the send that follows it, the
  -- send ends the heartbeats just if the table listed a connection at the check while every peer
  -- is past its `select!` at the send.
  pub tick_crash_iff :
      (n : Node Addr b t) (h : Heart Bytes t) (es : List (Event Addr))
      → IsCounted dec L t n
      → n.heart ≡ going h
      → h.due ≡ false
      → All IsOther es
      → let n' = run dec b t n (beats tick ∷ es) in
        ((step dec b t n' (beats sends)).heart ≡ crashed (record h { due = true }))
        ↔ ((0 < num_connections n.manager) × (count has_receiver n'.peers ≡ 0))
  unfolding run step beat
  tick_crash_iff n h es v alive idle others =
      let n' = run dec b t n (beats tick ∷ es) in
      let listed = ltb 0 (num_connections n.manager) in
      let ticked : (step dec b t n (beats tick)).heart ≡ going (record h { due = listed }) =
        rw alive (checked L t n.manager n.sender h idle) in
      let on = heart-run (step dec b t n (beats tick)) es others ∙ ticked in
      let counted = run-IsCounted dec L t n (beats tick ∷ es) v in
      let (iff, _, _) = heartbeat_crash_iff L t n'.manager n'.sender (record h { due = listed }) in
      rw (on, ← counted) (ground (arith, iff))

  beat_crashed :
      (n : Node Addr b t) (p : Pulse) (h : Heart Bytes t) (o : Progress (Heart Bytes t))
      → n.heart ≡ o
      → o ≡ crashed h
      → (beat dec b t n p o).heart ≡ crashed h
  unfolding beat
  beat_crashed n p h (going x) e d = absurd (cc)
  beat_crashed n p h (returned x y) e d = absurd (cc)
  beat_crashed n p h (crashed x) e d = e ∙ d

  step_crashed :
      (n : Node Addr b t) (e : Event Addr) (h : Heart Bytes t)
      → n.heart ≡ crashed h
      → (step dec b t n e).heart ≡ crashed h
  unfolding step
  step_crashed n (joins addr) h d = d
  step_crashed n (registers i now) h d = heart-step n (registers i now) tt ∙ d
  step_crashed n (gives_up i) h d = heart-step n (gives_up i) tt ∙ d
  step_crashed n (ends i) h d = heart-step n (ends i) tt ∙ d
  step_crashed n (cleans_up i) h d = heart-step n (cleans_up i) tt ∙ d
  step_crashed n (beats p) h d = beat_crashed n p h n.heart refl d

  -- Heartbeats that have ended never start again, whatever connects later.
  pub run_crashed :
      (n : Node Addr b t) (es : List (Event Addr)) (h : Heart Bytes t)
      → n.heart ≡ crashed h
      → (run dec b t n es).heart ≡ crashed h
  unfolding run
  run_crashed n [] h d = d
  run_crashed n (e ∷ es) h d = run_crashed (step dec b t n e) es h (step_crashed n e h d)

  abbrev at_the_end : ℕ → ℕ → b.Sender → Heart Bytes t → Addr → Node Addr b t
  at_the_end capacity now sender h addr = record {
    manager = record {
      capacity = capacity;
      shared_state = (addr, record { created_at = now }) ∷ [];
    };
    sender = b.unsubscribe (b.subscribe sender);
    heart = going h;
    peers = record { addr = addr; phase = leaving } ∷ [];
  }

  first_connection :
      (capacity now : ℕ) (sender : b.Sender) (h : Heart Bytes t) (addr : Addr)
      → 0 < capacity
      → run dec b t (boot dec b t capacity sender h) (joins addr ∷ registers 0 now ∷ ends 0 ∷ [])
        ≡ at_the_end capacity now sender h addr
  unfolding run step register end_select on_peer after_insert boot
  first_connection capacity now sender h addr room =
      rw (insert-new dec capacity addr (record { created_at = now }) room)

  quiet_again :
      (sender : b.Sender)
      → L.receivers sender ≡ 0
      → L.receivers (b.unsubscribe (b.subscribe sender)) ≡ 0
  quiet_again sender quiet =
      omega (arith, L.receivers-subscribe sender, L.receivers-unsubscribe (b.subscribe sender))

  -- A check and its send while a connection is listed and nobody is subscribed.
  pub tick_unheard :
      (n : Node Addr b t) (h : Heart Bytes t)
      → n.heart ≡ going h
      → 0 < num_connections n.manager
      → L.receivers n.sender ≡ 0
      → (run dec b t n (beats tick ∷ beats sends ∷ [])).heart ≡ crashed (record h { due = true })
  unfolding run step beat
  tick_unheard n h alive listed quiet =
      let h' = record h { due = true } in
      let (iff, _, _) = heartbeat_crash_iff L t n.manager n.sender h' in
      rw alive (rw (tick_listed L t n.manager n.sender h listed) (iff.1 (refl, quiet)))

  -- In every fresh node with room for a connection and without a subscriber, a tick and its send
  -- between the end of the first connection's `select!` and its removal from the table end the
  -- heartbeats, whatever happens later.
  pub heartbeats_lost :
      (capacity now : ℕ) (sender : b.Sender) (h : Heart Bytes t) (addr : Addr)
      (later : List (Event Addr))
      → 0 < capacity
      → L.receivers sender ≡ 0
      → (run dec b t
          (boot dec b t capacity sender h)
          (joins addr ∷ registers 0 now ∷ ends 0 ∷ beats tick ∷ beats sends ∷ later)).heart
        ≡ crashed (record h { due = true })
  unfolding run num_connections
  heartbeats_lost capacity now sender h addr later room quiet =
      let n = at_the_end capacity now sender h addr in
      let h' = record h { due = true } in
      subst (λ k. (run dec b t k (beats tick ∷ beats sends ∷ later)).heart ≡ crashed h')
        (sym (first_connection capacity now sender h addr room))
        (run_crashed (run dec b t n (beats tick ∷ beats sends ∷ [])) later h'
          (tick_unheard n h refl (omega arith) (quiet_again sender quiet)))
