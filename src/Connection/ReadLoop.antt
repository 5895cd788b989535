-- ===== src/Connection/ReadLoop.antt =====
-- `start_read_loop` of node/connection/src/lib.rs. The reader is the list of what it will give:
-- `some b` for `Ok(b)`, `none` for `Err(_)`, and the end of the list for the end of the stream.
use braidpool.Base.{Option, none, some, List, [], ◌∷◌, Outcome, ok, err, panic}
use braidpool.Connection.Io.{TrySendError, full, closed, Mpsc, Progress, going, returned, crashed}

module _ {Bytes : Type 0} (q : Mpsc Bytes) where
  -- The inner `match` on the result of `try_send`.
  forwarded : Outcome TrySendError (Unit {0}) × q.Chan → Progress q.Chan
  forwarded (ok _, ch) = going ch
  forwarded (err full, ch) = returned "Sender flooding channel" ch
  forwarded (err closed, ch) = returned "Receiver closed for channel" ch
  forwarded (panic, ch) = crashed ch

  -- One round of the loop, on what `reader.next()` gives.
  unfoldable pub read_round : q.Chan → Option (Option Bytes) → Progress q.Chan
  unfolding forwarded
  read_round ch (some (some message)) = forwarded (q.try_send ch message)
  read_round ch (some none) = returned "Message receive: peer closed connection" ch
  read_round ch none = returned "Receive: peer closed connection" ch

  -- The whole loop, with nobody at the other end of the channel meanwhile.
  unfoldable pub start_read_loop : q.Chan → List (Option Bytes) → Progress q.Chan
  start_read_loop ch [] = read_round ch none
  start_read_loop ch (item ∷ items) = elim (read_round ch (some item)) [
    | going ch' ↦ start_read_loop ch' items
    | returned e ch' ↦ returned e ch'
    | crashed ch' ↦ crashed ch'
  ]
