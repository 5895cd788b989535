-- ===== src/Node/Receivers.antt =====
-- Who is subscribed to the broadcasts of a node, and when the heartbeats are safe.
use braidpool.Base.{
  ◌<◌, ℕ, String, Outcome, ok, err, panic, ◌≡◌, refl, inl, inr, Bool, true, false, Option, some,
  List, [], ◌∷◌, arith, Option-cases, get_elem?, count, count-append, count-set, count-remove_at,
  count_pos_of_get_elem?,
}
use braidpool.Manager.{Metadata, ConnectionManager}
use braidpool.Connection.Io.{Progress, going, returned, crashed}
use braidpool.Connection.Heartbeat.{Broadcast, Timer, Heart, Pulse}
use braidpool.Connection.Pulse.{IsBroadcast, receivers-heartbeat_round, heartbeat_goes_on}
use braidpool.Node.{
  Phase, waiting, serving, leaving, Peer, Node, Event, joins, registers, gives_up, ends, cleans_up,
  beats, after_insert, register, give_up, end_select, clean, beat, on_peer, step, run,
}

abbrev pub subscribed : Phase → Bool
subscribed waiting = true
subscribed serving = true
subscribed leaving = false

abbrev pub has_receiver : {Addr : Type 0} → Peer Addr → Bool
has_receiver p = subscribed p.phase

module _ {Bytes Addr : Type 0} (dec : Discrete Addr) {b : Broadcast Bytes} (L : IsBroadcast b)
    (t : Timer) where
  -- The subscribers are the peers whose task has not left its `select!`.
  abbrev pub IsCounted : Node Addr b t → Type 0
  IsCounted n = L.receivers n.sender ≡ count has_receiver n.peers

  after_insert-IsCounted :
      (n : Node Addr b t) (i : ℕ) (p : Peer Addr)
      (r : Outcome String (Option Metadata) × ConnectionManager Addr)
      → p.phase ≡ waiting
      → get_elem? n.peers i ≡ some p
      → IsCounted n
      → IsCounted (after_insert dec b t n i p.addr r)
  unfolding after_insert
  after_insert-IsCounted n i p (ok _, m) e h v =
      ground (arith, count-set has_receiver n.peers i (record { addr = p.addr; phase = serving }) h)
  after_insert-IsCounted n i p (err _, m) e h v =
      ground (arith, count-remove_at has_receiver n.peers i h, L.receivers-unsubscribe n.sender)
  after_insert-IsCounted n i p (panic, m) e h v = v

  register-IsCounted :
      (n : Node Addr b t) (i now : ℕ) (p : Peer Addr) (ph : Phase)
      → p.phase ≡ ph
      → get_elem? n.peers i ≡ some p
      → IsCounted n
      → IsCounted (register dec b t n i now p.addr ph)
  unfolding register
  register-IsCounted n i now p waiting e h v = after_insert-IsCounted n i p _ e h v
  register-IsCounted n i now p _ e h v = v

  give_up-IsCounted :
      (n : Node Addr b t) (i : ℕ) (p : Peer Addr) (ph : Phase)
      → p.phase ≡ ph
      → get_elem? n.peers i ≡ some p
      → IsCounted n
      → IsCounted (give_up dec b t n i p.addr ph)
  unfolding give_up
  give_up-IsCounted n i p waiting e h v =
      ground (arith, count-remove_at has_receiver n.peers i h, L.receivers-unsubscribe n.sender)
  give_up-IsCounted n i p _ e h v = v

  end_select-IsCounted :
      (n : Node Addr b t) (i : ℕ) (p : Peer Addr) (ph : Phase)
      → p.phase ≡ ph
      → get_elem? n.peers i ≡ some p
      → IsCounted n
      → IsCounted (end_select dec b t n i p.addr ph)
  unfolding end_select
  end_select-IsCounted n i p serving e h v = ground (
    arith,
    count-set has_receiver n.peers i (record { addr = p.addr; phase = leaving }) h,
    count_pos_of_get_elem? has_receiver n.peers i h,
    L.receivers-unsubscribe n.sender,
  )
  end_select-IsCounted n i p _ e h v = v

  clean-IsCounted :
      (n : Node Addr b t) (i : ℕ) (p : Peer Addr) (ph : Phase)
      → p.phase ≡ ph
      → get_elem? n.peers i ≡ some p
      → IsCounted n
      → IsCounted (clean dec b t n i p.addr ph)
  unfolding clean
  clean-IsCounted n i p leaving e h v = ground (arith, count-remove_at has_receiver n.peers i h)
  clean-IsCounted n i p _ e h v = v

  beat-IsCounted :
      (n : Node Addr b t) (p : Pulse) (h : Progress (Heart Bytes t))
      → IsCounted n
      → IsCounted (beat dec b t n p h)
  unfolding beat
  beat-IsCounted n p (going h) v = rw (receivers-heartbeat_round L t n.manager n.sender h p) v
  beat-IsCounted n p (returned _ _) v = v
  beat-IsCounted n p (crashed _) v = v

  -- A step on a peer that is there.
  on_peer-IsCounted :
      (n : Node Addr b t) (i : ℕ) (f : Addr → Phase → Node Addr b t)
      → ((p : Peer Addr) → get_elem? n.peers i ≡ some p → IsCounted (f p.addr p.phase))
      → IsCounted n
      → IsCounted (on_peer dec b t n (get_elem? n.peers i) f)
  unfolding on_peer
  on_peer-IsCounted n i f keep v = elim (Option-cases (get_elem? n.peers i)) [
    | inl e ↦ rw (e, on_peer) v
    | inr (p, e) ↦ rw (e, on_peer) (keep p e)
  ]

  step-IsCounted : (n : Node Addr b t) (e : Event Addr) → IsCounted n → IsCounted (step dec b t n e)
  unfolding step
  step-IsCounted n (joins addr) v = omega (
    arith,
    L.receivers-subscribe n.sender,
    count-append has_receiver n.peers (record { addr = addr; phase = waiting } ∷ []),
  )
  step-IsCounted n (registers i now) v =
      on_peer-IsCounted n i _ (λ p h. register-IsCounted n i now p p.phase refl h v) v
  step-IsCounted n (gives_up i) v =
      on_peer-IsCounted n i _ (λ p h. give_up-IsCounted n i p p.phase refl h v) v
  step-IsCounted n (ends i) v =
      on_peer-IsCounted n i _ (λ p h. end_select-IsCounted n i p p.phase refl h v) v
  step-IsCounted n (cleans_up i) v =
      on_peer-IsCounted n i _ (λ p h. clean-IsCounted n i p p.phase refl h v) v
  step-IsCounted n (beats p) v = beat-IsCounted n p n.heart v

  -- If it is so at the start, then through any steps of any tasks the number of subscribers is
  -- the number of peers whose task has not yet left its `select!`.
  pub run-IsCounted :
      (n : Node Addr b t) (es : List (Event Addr)) → IsCounted n → IsCounted (run dec b t n es)
  unfolding run
  run-IsCounted n [] v = v
  run-IsCounted n (e ∷ es) v = run-IsCounted (step dec b t n e) es (step-IsCounted n e v)

  -- In a node whose subscribers are counted and whose heartbeats go on, no step ends them while
  -- some peer is waiting or being served.
  pub beats_safe :
      (n : Node Addr b t) (i : ℕ) (p : Peer Addr) (h : Heart Bytes t) (p' : Pulse)
      → IsCounted n
      → n.heart ≡ going h
      → get_elem? n.peers i ≡ some p
      → has_receiver p ≡ true
      → (h' : Heart Bytes t) × ((step dec b t n (beats p')).heart ≡ going h')
        × (h'.message ≡ h.message)
  unfolding step beat
  beats_safe n i p h p' v alive e r =
      let some_receiver : 0 < L.receivers n.sender =
        ground (arith, count_pos_of_get_elem? has_receiver n.peers i e r) in
      let (h', on, same) = heartbeat_goes_on L t n.manager n.sender h p' some_receiver in
      (h', rw alive on, same)
