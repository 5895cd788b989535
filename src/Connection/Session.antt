-- ===== src/Connection/Session.antt =====
-- `start` of node/connection/src/lib.rs: one connection from its registration to its removal.
pub mod Registration
use braidpool.Base.{
  ℕ, String, Option, none, some, List, [], ◌∷◌, Outcome, ok, err, panic, or_panic, ◌>>=◌,
}
use braidpool.Protocol.Handshake
use braidpool.Protocol.Wire.{Codec, as_bytes}
use braidpool.Manager.{Metadata, ConnectionManager, insert, remove}
use braidpool.Connection.Io.{Mpsc, Sink, Progress, going, returned, crashed}
use braidpool.Connection.ReadLoop.{read_round}
use braidpool.Connection.Handler.{Handler, Branch, poll_handler}

-- The two halves of the stream and of the channel, as the two futures of the `select!` hold them.
pub record Session (Bytes : Type 0) (q : Mpsc Bytes) (w : Sink Bytes) : Type 0 where
  pub reader : List (Option Bytes)
  pub handler : Handler Bytes q w

-- Which future moves: the read loop takes what the stream gives next, or the handler polls.
pub data Turn : Type 0 where
  reads : Turn
  handles : Branch → Turn

-- How `start` stands: the connection was refused, is served, was closed, or its task panicked.
pub data Stage (S : Type 0) : Type 0 where
  turned_away : Stage S
  serving : S → Stage S
  closed : S → Stage S
  died : S → Stage S

module _ {Bytes : Type 0} (c : Codec Bytes) where
  -- `HandshakeMessage::start(&addr).unwrap()` and `message.as_bytes().unwrap()`.
  unfoldable pub hello {ℓ} : {Addr : Type ℓ} → Addr → ℕ → Outcome ⊥ Bytes
  unfolding Handshake.start as_bytes
  hello addr now = do
    message ← or_panic (Handshake.start addr now)
    b ← as_bytes c message
    or_panic b

module _ {Bytes : Type 0} (q : Mpsc Bytes) (c : Codec Bytes) (w : Sink Bytes) where
  after_read :
      Session Bytes q w → List (Option Bytes) → Progress q.Chan → Progress (Session Bytes q w)
  after_read s rest (going ch) =
      going (record s { reader = rest; handler = record (s.handler) { chan = ch } })
  after_read s rest (returned e ch) =
      returned e (record s { reader = rest; handler = record (s.handler) { chan = ch } })
  after_read s rest (crashed ch) =
      crashed (record s { reader = rest; handler = record (s.handler) { chan = ch } })

  poll_reader : Session Bytes q w → List (Option Bytes) → Progress (Session Bytes q w)
  unfolding after_read read_round
  poll_reader s [] = after_read s [] (read_round q s.handler.chan none)
  poll_reader s (item ∷ rest) = after_read s rest (read_round q s.handler.chan (some item))

  after_handler : Session Bytes q w → Progress (Handler Bytes q w) → Progress (Session Bytes q w)
  after_handler s (going h) = going (record s { handler = h })
  after_handler s (returned e h) = returned e (record s { handler = h })
  after_handler s (crashed h) = crashed (record s { handler = h })

  unfoldable pub poll_session : Session Bytes q w → Turn → Progress (Session Bytes q w)
  unfolding poll_reader after_handler
  poll_session s reads = poll_reader s s.reader
  poll_session s (handles b) = after_handler s (poll_handler q c w s.handler b)

  -- The `select!` of the two futures: it ends when either returns.
  unfoldable pub select : Session Bytes q w → List Turn → Progress (Session Bytes q w)
  select s [] = going s
  select s (t ∷ ts) = elim (poll_session s t) [
    | going s' ↦ select s' ts
    | returned e s' ↦ returned e s'
    | crashed s' ↦ crashed s'
  ]

  -- The greeting is sent, and whether that works is ignored.
  unfoldable pub greet :
      Session Bytes q w → List Turn → Outcome ⊥ Bytes → Progress (Session Bytes q w)
  unfolding select
  greet s ts (ok b) =
      select (record s { handler = record (s.handler) { out = (w.send s.handler.out b).1 } }) ts
  greet s ts (err e) = absurd e
  greet s ts panic = crashed s

  -- `channel_receiver.close()`, in both arms, and `writer.close()`.
  unfoldable pub wind_up : Session Bytes q w → Session Bytes q w
  wind_up s = record s {
    handler = record (s.handler) { chan = q.close s.handler.chan; out = (w.close s.handler.out).1 };
  }

  module _ {Addr : Type 0} (dec : Discrete Addr) where
    -- A panic unwinds the task before the cleanup.
    clean_up :
        ConnectionManager Addr
        → Addr
        → Progress (Session Bytes q w)
        → Stage (Session Bytes q w) × ConnectionManager Addr
    unfolding wind_up
    clean_up manager addr (going s) = (serving s, manager)
    clean_up manager addr (returned e s) = (closed (wind_up s), (remove dec manager addr).1)
    clean_up manager addr (crashed s) = (died s, manager)

    admit :
        Addr
        → ℕ
        → Session Bytes q w
        → List Turn
        → Outcome String (Option Metadata) × ConnectionManager Addr
        → Stage (Session Bytes q w) × ConnectionManager Addr
    unfolding greet hello clean_up
    admit addr now s ts (ok _, manager) = clean_up manager addr (greet s ts (hello c addr now))
    admit addr now s ts (err _, manager) = (turned_away, manager)
    admit addr now s ts (panic, manager) = (died s, manager)

    -- `start`, up to the last of the given turns.
    unfoldable pub start :
        ConnectionManager Addr
        → Addr
        → ℕ
        → Session Bytes q w
        → List Turn
        → Stage (Session Bytes q w) × ConnectionManager Addr
    unfolding admit
    start manager addr now s ts =
        admit addr now s ts (insert dec manager addr (record { created_at = now }))
