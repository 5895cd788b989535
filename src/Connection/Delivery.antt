-- ===== src/Connection/Delivery.antt =====
-- What reaches the message handler of a connection, through any interleaving of the two futures
-- of `start` (node/connection/src/lib.rs).
use braidpool.Base.{◌≡◌, refl, sym, ap, ◌∙◌, Option, none, some, List, [], ◌∷◌, ◌++◌, arith}
use mathlib.Core.List.{append-nil, append_assoc}
use braidpool.Protocol.Wire.{Codec}
use braidpool.Connection.Io.{Mpsc, IsMpsc, Sink, Progress, going, returned, crashed}
use braidpool.Connection.Channels.{try_send_lem}
use braidpool.Connection.Session.{Session, Turn, reads, handles, poll_session, select}
use braidpool.Connection.Flow.{reached, queued, took, put, Flows, turn-Flows}

module _ {Bytes : Type 0} {q : Mpsc Bytes} (L : IsMpsc q) (c : Codec Bytes) (w : Sink Bytes) where
  abbrev pub taken : Session Bytes q w → List Turn → List Bytes
  taken s [] = []
  taken s (t ∷ ts) = took L c w s t ++ elim (poll_session q c w s t) [
    | going s' ↦ taken s' ts
    | returned _ _ ↦ []
    | crashed _ ↦ []
  ]

  -- The messages that the stream would still give.
  abbrev pub received : List (Option Bytes) → List Bytes
  received [] = []
  received (some b ∷ items) = b ∷ received items
  received (none ∷ items) = received items

  -- A read puts what it took from the stream into the channel, or nothing where it ends the loop.
  abbrev IsFed : Session Bytes q w → Turn → Progress (Session Bytes q w) → Type 0
  IsFed s t (going s') = put L c w s t ++ received s'.reader ≡ received s.reader
  IsFed s t (returned _ _) = put L c w s t ≡ []
  IsFed s t (crashed _) = put L c w s t ≡ []

  read-IsFed :
      (s : Session Bytes q w) (items : List (Option Bytes))
      → s.reader ≡ items
      → IsFed s reads (poll_session q c w s reads)
  unfolding poll_session
  read-IsFed s [] e = ground arith
  read-IsFed s (none ∷ rest) e = ground arith
  read-IsFed s (some b ∷ rest) e = ground (arith, try_send_lem L s.handler.chan b)

  turn-IsFed : (s : Session Bytes q w) (t : Turn) → IsFed s t (poll_session q c w s t)
  unfolding poll_session
  turn-IsFed s reads = read-IsFed s s.reader refl
  turn-IsFed s (handles b) = ground arith

  abbrev Delivers : Session Bytes q w → List Turn → Type 0
  Delivers s ts =
      (rest : List Bytes) × (taken s ts ++ (queued L c w (reached (select q c w s ts)) ++ rest)
        ≡ queued L c w s ++ received s.reader)

  -- The case where the turn ends the `select!`: what is left of the stream is not delivered.
  last_turn :
      (s : Session Bytes q w) (t : Turn) (s' : Session Bytes q w)
      → took L c w s t ++ queued L c w s' ≡ queued L c w s ++ put L c w s t
      → put L c w s t ≡ []
      → (took L c w s t ++ []) ++ (queued L c w s' ++ received s.reader)
        ≡ queued L c w s ++ received s.reader
  last_turn s t s' order none_put = rw (append-nil, ← append_assoc, order, none_put, append-nil)

  going_turn :
      (s : Session Bytes q w) (t : Turn) (s' : Session Bytes q w) (taken' kept rest : List Bytes)
      → took L c w s t ++ queued L c w s' ≡ queued L c w s ++ put L c w s t
      → put L c w s t ++ received s'.reader ≡ received s.reader
      → taken' ++ (kept ++ rest) ≡ queued L c w s' ++ received s'.reader
      → (took L c w s t ++ taken') ++ (kept ++ rest) ≡ queued L c w s ++ received s.reader
  going_turn s t s' taken' kept rest order fed ih =
      append_assoc (took L c w s t) taken' (kept ++ rest)
      ∙ ap (◌++◌ (took L c w s t)) ih
      ∙ sym (append_assoc (took L c w s t) (queued L c w s') (received s'.reader))
      ∙ ap (λ xs. xs ++ received s'.reader) order
      ∙ append_assoc (queued L c w s) (put L c w s t) (received s'.reader)
      ∙ ap (◌++◌ (queued L c w s)) fed

  first_turn :
      (s : Session Bytes q w) (t : Turn) (ts : List Turn) (p : Progress (Session Bytes q w))
      → poll_session q c w s t ≡ p
      → Flows L c w s t (reached p)
      → IsFed s t p
      → ((s' : Session Bytes q w) → Delivers s' ts)
      → Delivers s (t ∷ ts)
  unfolding select
  first_turn s t ts (going s') e flows fed ih =
      let (rest, same) = ih s' in
      (rest, rw (e, select) (going_turn s t s' (taken s' ts) _ rest flows.order fed same))
  first_turn s t ts (returned x s') e flows fed ih =
      (received s.reader, rw (e, select) (last_turn s t s' flows.order fed))
  first_turn s t ts (crashed s') e flows fed ih =
      (received s.reader, rw (e, select) (last_turn s t s' flows.order fed))

  -- Over a channel as tokio documents it, whatever the interleaving of reads, receives and
  -- broadcasts, the messages that the handler has taken, then those still queued, are the queue
  -- at the start followed by a prefix of the messages of the stream: none is lost in between,
  -- repeated or out of order.
  pub select-delivers :
      (s : Session Bytes q w) (ts : List Turn)
      → (rest : List Bytes) × (taken s ts ++ (queued L c w (reached (select q c w s ts)) ++ rest)
          ≡ queued L c w s ++ received s.reader)
  unfolding select
  select-delivers s [] = (received s.reader, refl)
  select-delivers s (t ∷ ts) =
      first_turn s t ts (poll_session q c w s t) refl (turn-Flows L c w s t) (turn-IsFed s t)
        (λ s'. select-delivers s' ts)
