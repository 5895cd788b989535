-- ===== src/Connection/Pulse.antt =====
-- When the heartbeat task of node/connection/src/lib.rs lives, and what it sends.
use braidpool.Base.{
  subst, ◌≢◌, Bool, true, false, if◌then◌else◌, Bool-cases, inl, inr, ℕ, suc, ◌+◌, ◌<◌, ◌≡◌, ◌↔◌,
  refl, String, Option, none, some, List, [], ◌∷◌, ok, arith, ltb,
}
use braidpool.Protocol.Message.{Message}
use braidpool.Protocol.Wire.{Codec, IsRoundTrip, as_bytes}
use braidpool.Manager.{ConnectionManager, num_connections}
use braidpool.Connection.Io.{Progress, going, returned, crashed}
use braidpool.Connection.Heartbeat.{
  Broadcast, Timer, Heart, Pulse, tick, sends, notified, heartbeat_round, start_heartbeat,
}

-- What tokio documents of the sender: `send` fails exactly if nobody is subscribed.
pub record IsBroadcast {Bytes : Type 0} (b : Broadcast Bytes) : Type 0 where
  pub receivers : b.Sender → ℕ
  pub channel_zero : b.channel 0 ≡ none
  pub channel_suc : (n : ℕ) → (s : b.Sender) × (b.channel (suc n) ≡ some s) × (receivers s ≡ 0)
  pub receivers-subscribe : (s : b.Sender) → receivers (b.subscribe s) ≡ receivers s + 1
  pub receivers-unsubscribe :
      (s : b.Sender) → 0 < receivers s → receivers (b.unsubscribe s) + 1 ≡ receivers s
  pub send_lem : (s : b.Sender) (m : Bytes) → (b.send s m).0 ≡ ltb 0 (receivers s)
  pub receivers-send : (s : b.Sender) (m : Bytes) → receivers (b.send s m).1 ≡ receivers s

module _ {Bytes : Type 0} {b : Broadcast Bytes} (L : IsBroadcast b) (t : Timer) where
  crash_iff :
      {Addr : Type 0} (m : ConnectionManager Addr) (s : b.Sender) (h : Heart Bytes t) (due : Bool)
      → h.due ≡ due
      → ((heartbeat_round b t m s h sends).0 ≡ crashed (record h { due = true }))
        ↔ ((h.due ≡ true) × (L.receivers s ≡ 0))
  unfolding heartbeat_round
  crash_iff m s h true e = rw e (ground (arith, L.send_lem s h.message))
  crash_iff m s h false e = rw e (ground arith)

  -- A step of the heartbeat task makes it panic just if a send is due while nobody is subscribed to
  -- the broadcasts; neither a tick nor a notification ever does.
  pub heartbeat_crash_iff :
      {Addr : Type 0} (m : ConnectionManager Addr) (s : b.Sender) (h : Heart Bytes t)
      → (((heartbeat_round b t m s h sends).0 ≡ crashed (record h { due = true }))
          ↔ ((h.due ≡ true) × (L.receivers s ≡ 0)))
        × ((heartbeat_round b t m s h tick).0 ≢ crashed h)
        × ((heartbeat_round b t m s h notified).0 ≢ crashed h)
  unfolding heartbeat_round
  heartbeat_crash_iff m s h = (crash_iff m s h h.due refl, ground arith, ground arith)

  -- No step changes the number of subscribers.
  pub receivers-heartbeat_round :
      {Addr : Type 0} (m : ConnectionManager Addr) (s : b.Sender) (h : Heart Bytes t) (p : Pulse)
      → L.receivers (heartbeat_round b t m s h p).1 ≡ L.receivers s
  unfolding heartbeat_round
  receivers-heartbeat_round m s h tick = refl
  receivers-heartbeat_round m s h sends = ground (arith, L.receivers-send s h.message)
  receivers-heartbeat_round m s h notified = refl

  -- While somebody is subscribed, a step goes on.
  pub heartbeat_goes_on :
      {Addr : Type 0} (m : ConnectionManager Addr) (s : b.Sender) (h : Heart Bytes t) (p : Pulse)
      → 0 < L.receivers s
      → (h' : Heart Bytes t) × ((heartbeat_round b t m s h p).0 ≡ going h')
        × (h'.message ≡ h.message)
  unfolding heartbeat_round
  heartbeat_goes_on m s h tick some_receiver = elim (Bool-cases h.due) [
    | inl e ↦ (h, rw e, refl)
    | inr e ↦ (record h { due = ltb 0 (num_connections m) }, rw e, refl)
  ]
  heartbeat_goes_on m s h sends some_receiver =
      let sent : (b.send s h.message).0 ≡ true = ground (arith, L.send_lem s h.message) in
      elim (Bool-cases h.due) [
        | inl e ↦ (record h { due = false }, rw (e, sent), refl)
        | inr e ↦ (h, rw e, refl)
      ]
  heartbeat_goes_on m s h notified some_receiver = elim (Bool-cases h.due) [
    | inl e ↦ (h, rw e, refl)
    | inr e ↦ (record h { interval = t.reset h.interval }, rw e, refl)
  ]

  -- A tick of a task that waits makes a send due just if a connection is listed.
  pub checked :
      {Addr : Type 0} (m : ConnectionManager Addr) (s : b.Sender) (h : Heart Bytes t)
      → h.due ≡ false
      → (heartbeat_round b t m s h tick).0 ≡ going (record h { due = ltb 0 (num_connections m) })
  unfolding heartbeat_round
  checked m s h e = rw e

  -- A tick while a connection is listed makes a send due.
  pub tick_listed :
      {Addr : Type 0} (m : ConnectionManager Addr) (s : b.Sender) (h : Heart Bytes t)
      → 0 < num_connections m
      → heartbeat_round b t m s h tick ≡ (going (record h { due = true }), s)
  unfolding heartbeat_round
  tick_listed m s h listed = elim (Bool-cases h.due) [
    | inl e ↦ rw e
    | inr e ↦ let some' : ltb 0 (num_connections m) ≡ true = ground arith in rw (e, some')
  ]

  -- What the receivers are sent when a send is due, and what becomes of the task.
  pub sends_due :
      {Addr : Type 0} (m : ConnectionManager Addr) (s : b.Sender) (h : Heart Bytes t)
      → h.due ≡ true
      → heartbeat_round b t m s h sends ≡ (
        if (b.send s h.message).0 then going (record h { due = false }) else crashed h,
        (b.send s h.message).1,
      )
  unfolding heartbeat_round
  sends_due m s h e = rw e

module _ {Bytes Addr : Type 0} (c : Codec Bytes) (t : Timer) (resolve : String → Option (List Addr))
    (to_string : Addr → String) where
  abbrev pub beat_of : Addr → ℕ → Message
  beat_of a now = Message.heartbeat (record { from = to_string a; time = now })

  message_of_start :
      (addr : String) (duration now : ℕ) (a : Addr) (rest : List Addr) (bytes : Option Bytes)
      {h : Heart Bytes t}
      → resolve addr ≡ some (a ∷ rest)
      → c.serialize (beat_of a now) ≡ bytes
      → start_heartbeat c t resolve to_string addr duration now ≡ ok h
      → bytes ≡ some h.message
  unfolding start_heartbeat as_bytes
  message_of_start addr duration now a rest none r s e = ground arith
  message_of_start addr duration now a rest (some b) r s e = ground arith

  resolved_of_start :
      (addr : String) (duration now : ℕ) (o : Option (List Addr)) {h : Heart Bytes t}
      → resolve addr ≡ o
      → start_heartbeat c t resolve to_string addr duration now ≡ ok h
      → (a : Addr) × (rest : List Addr) × (o ≡ some (a ∷ rest))
  unfolding start_heartbeat
  resolved_of_start addr duration now none r e = absurd (ground arith)
  resolved_of_start addr duration now (some []) r e = absurd (ground arith)
  resolved_of_start addr duration now (some (a ∷ rest)) r e = (a, rest, refl)

  module _ (b : Broadcast Bytes) where
    -- A step of the heartbeat task, with the table and the sender as the other tasks have left them.
    abbrev pub Round : Type 0
    Round = ConnectionManager Addr × b.Sender × Pulse

    -- The task after some steps.
    abbrev pub rounds : Progress (Heart Bytes t) → List Round → Progress (Heart Bytes t)
    rounds p [] = p
    rounds (going h) ((m, s, p) ∷ rs) = rounds (heartbeat_round b t m s h p).0 rs
    rounds (returned e h) (_ ∷ rs) = returned e h
    rounds (crashed h) (_ ∷ rs) = crashed h

    abbrev Tells : Bytes → Progress (Heart Bytes t) → Type 0
    Tells x (going h) = h.message ≡ x
    Tells x (returned _ h) = h.message ≡ x
    Tells x (crashed h) = h.message ≡ x

    heartbeat_round-Tells :
        (m : ConnectionManager Addr) (s : b.Sender) (h : Heart Bytes t) (p : Pulse)
        → Tells h.message (heartbeat_round b t m s h p).0
    unfolding heartbeat_round
    heartbeat_round-Tells m s h tick = ground arith
    heartbeat_round-Tells m s h sends = ground arith
    heartbeat_round-Tells m s h notified = ground arith

    rounds-Tells :
        (x : Bytes) (p : Progress (Heart Bytes t)) (rs : List Round)
        → Tells x p
        → Tells x (rounds p rs)
    rounds-Tells x p [] v = v
    rounds-Tells x (going h) ((m, s, p) ∷ rs) v =
        rounds-Tells x (heartbeat_round b t m s h p).0 rs
          (subst (λ y. Tells y (heartbeat_round b t m s h p).0) v (heartbeat_round-Tells m s h p))
    rounds-Tells x (returned e h) (_ ∷ rs) v = v
    rounds-Tells x (crashed h) (_ ∷ rs) v = v

    -- If the codec reads back what it writes and `start_heartbeat` gives a task, then after any
    -- steps of the task, whatever the other tasks have made of the table and the channel, its send,
    -- when one is due, sends one message, and nothing else it does sends any; the message parses to
    -- the first address that the bind address resolves to and the time at which the task was
    -- started.
    pub heartbeat_of_start :
        (addr : String) (duration now : ℕ) {h h' : Heart Bytes t} (rs : List Round)
        (m : ConnectionManager Addr) (s : b.Sender)
        → IsRoundTrip c
        → start_heartbeat c t resolve to_string addr duration now ≡ ok h
        → rounds (going h) rs ≡ going h'
        → (a : Addr) × (rest : List Addr) × (bytes : Bytes) × (resolve addr ≡ some (a ∷ rest))
          × (c.from_slice bytes ≡ some (beat_of a now))
          × ((heartbeat_round b t m s h' sends).1 ≡ (if h'.due then (b.send s bytes).1 else s))
          × ((heartbeat_round b t m s h' tick).1 ≡ s)
          × ((heartbeat_round b t m s h' notified).1 ≡ s)
    unfolding heartbeat_round
    heartbeat_of_start addr duration now {h} {h'} rs m s codec e later =
        let (a, rest, r) = resolved_of_start addr duration now (resolve addr) refl e in
        let same : h'.message ≡ h.message =
          subst (Tells h.message) later (rounds-Tells h.message (going h) rs refl) in
        (
          a,
          rest,
          h.message,
          r,
          codec.from_slice-serialize (beat_of a now) h.message
              (message_of_start addr duration now a rest (c.serialize (beat_of a now)) r refl e),
          rw same (ground arith),
          refl,
          refl,
        )
