-- ===== src/Link.antt =====
-- Two nodes that run `start` (node/connection/src/lib.rs) at the two ends of one TCP stream: what
-- the one has written the other reads, in order and once.
pub mod Side
pub mod Talks
pub mod Simulation
pub mod Handshakes
pub mod Flow
pub mod Delivery
mod Tests
use braidpool.Base.{ℕ, suc, Option, none, some, List, [], ◌∷◌, get_elem?}
use braidpool.Protocol.Wire.{Codec}
use braidpool.Connection.Io.{Mpsc, Sink, Progress, going, returned, crashed}
use braidpool.Connection.Handler.{Branch}
use braidpool.Connection.Answers.{IsReliable}
use braidpool.Connection.Session.{Session, reads, handles, poll_session}

-- The two sessions, and how much each has read of what the other has written.
pub record Link {Bytes : Type 0} (q : Mpsc Bytes) (w : Sink Bytes) : Type 0 where
  pub a : Session Bytes q w
  pub b : Session Bytes q w
  pub read_a : ℕ
  pub read_b : ℕ

-- Which end moves: its read loop or its handler.
pub data LinkMove : Type 0 where
  a_reads b_reads : LinkMove
  a_handles b_handles : Branch → LinkMove

module _ {Bytes : Type 0} (q : Mpsc Bytes) (c : Codec Bytes) {w : Sink Bytes}
    (R : IsReliable w) where
  -- A read loop that the stream gives a message, or that waits for one.
  unfoldable pub read_next : Session Bytes q w → Option Bytes → Progress (Session Bytes q w)
  read_next s none = going s
  read_next s (some m) = poll_session q c w (record s { reader = some m ∷ [] }) reads

  unfoldable pub advance : ℕ → Option Bytes → ℕ
  advance n none = n
  advance n (some m) = suc n

  unfoldable pub with_a : Link q w → ℕ → Progress (Session Bytes q w) → Progress (Link q w)
  with_a l n (going s) = going (record l { a = s; read_a = n })
  with_a l n (returned e s) = returned e (record l { a = s; read_a = n })
  with_a l n (crashed s) = crashed (record l { a = s; read_a = n })

  unfoldable pub with_b : Link q w → ℕ → Progress (Session Bytes q w) → Progress (Link q w)
  with_b l n (going s) = going (record l { b = s; read_b = n })
  with_b l n (returned e s) = returned e (record l { b = s; read_b = n })
  with_b l n (crashed s) = crashed (record l { b = s; read_b = n })

  unfoldable pub step : Link q w → LinkMove → Progress (Link q w)
  unfolding read_next advance with_a with_b
  step l a_reads =
      let m = get_elem? (R.sent l.b.handler.out) l.read_a in
      with_a l (advance l.read_a m) (read_next l.a m)
  step l b_reads =
      let m = get_elem? (R.sent l.a.handler.out) l.read_b in
      with_b l (advance l.read_b m) (read_next l.b m)
  step l (a_handles br) = with_a l l.read_a (poll_session q c w l.a (handles br))
  step l (b_handles br) = with_b l l.read_b (poll_session q c w l.b (handles br))

  -- The link lives as long as neither end returns or panics.
  unfoldable pub run : Link q w → List LinkMove → Progress (Link q w)
  run l [] = going l
  run l (m ∷ ms) = elim (step l m) [
    | going l' ↦ run l' ms
    | returned e l' ↦ returned e l'
    | crashed l' ↦ crashed l'
  ]
