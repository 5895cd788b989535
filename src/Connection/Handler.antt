-- ===== src/Connection/Handler.antt =====
-- `handle_received` and `start_message_handler` of node/connection/src/lib.rs.
use braidpool.Base.{
  String, Bool, true, false, ◌||◌, Option, none, some, List, [], ◌∷◌, Outcome, ok, err, panic,
  if◌then◌else◌,
}
use braidpool.Protocol.Message.{Message}
use braidpool.Protocol.Wire.{Codec, ParseError, as_bytes, from_bytes, response_for_received}
use braidpool.Connection.Io.{Poll, ready, pending, Mpsc, Sink, Progress, going, returned, crashed}

module _ {Bytes : Type 0} (w : Sink Bytes) where
  -- `writer.send(b).await.is_err()`, and the error that the callers return for it.
  unfoldable pub transmit : w.Out → Bytes → Outcome String (Unit {0}) × w.Out
  transmit out b =
      let (sent, out') = w.send out b in
      (if sent then ok tt else err "Send failed: Closing peer connection", out')

module _ {Bytes : Type 0} (c : Codec Bytes) (w : Sink Bytes) where
  send_response : w.Out → Outcome String (Option Bytes) → Outcome String (Unit {0}) × w.Out
  unfolding transmit
  send_response out (ok (some to_send)) = transmit w out to_send
  send_response out (ok none) = (err "Error serializing: Closing peer connection", out)
  send_response out (err e) = (err e, out)
  send_response out panic = (panic, out)

  -- The `match` on `message.response_for_received()`.
  respond : w.Out → Outcome String (Option Message) → Outcome String (Unit {0}) × w.Out
  unfolding send_response as_bytes
  respond out (ok (some response)) = send_response out (as_bytes c response)
  respond out (ok none) = (ok tt, out)
  respond out (err _) = (err "Error constructing response: Closing peer connection", out)
  respond out panic = (panic, out)

  parsed : w.Out → Outcome ParseError Message → Outcome String (Unit {0}) × w.Out
  unfolding respond response_for_received
  parsed out (ok message) = respond out (response_for_received message)
  parsed out (err _) = (err "Error parsing message", out)
  parsed out panic = (panic, out)

  unfoldable pub handle_received : w.Out → Bytes → Outcome String (Unit {0}) × w.Out
  unfolding parsed from_bytes
  handle_received out msg = parsed out (from_bytes c msg)

-- The receivers and the writer that `start_message_handler` holds. The broadcast receiver is the
-- list of what it will give: `some b` for `Ok(b)`, `none` for an error, which is a lag or the end
-- of the senders. The flags say which branches of the `select!` are on in the present round.
pub record Handler (Bytes : Type 0) (q : Mpsc Bytes) (w : Sink Bytes) : Type 0 where
  pub chan : q.Chan
  pub announcements : List (Option Bytes)
  pub out : w.Out
  pub channel_on : Bool
  pub announce_on : Bool

-- The branch that `select!` polls next.
pub data Branch : Type 0 where
  from_channel from_broadcast : Branch

module _ {Bytes : Type 0} (q : Mpsc Bytes) (c : Codec Bytes) (w : Sink Bytes) where
  -- The end of a branch's body: an error leaves the loop with the given text, and all else begins
  -- a new round, with both branches on.
  next_round :
      String → Handler Bytes q w → Outcome String (Unit {0}) × w.Out → Progress (Handler Bytes q w)
  next_round text h (ok _, out) =
      going (record h { out = out; channel_on = true; announce_on = true })
  next_round text h (err _, out) = returned text (record h { out = out })
  next_round text h (panic, out) = crashed (record h { out = out })

  -- A value that the branch's pattern refuses switches the branch off for the round; the macro
  -- panics when no branch is left.
  refused : Handler Bytes q w → Progress (Handler Bytes q w)
  refused h = if h.channel_on || h.announce_on then going h else crashed h

  on_channel : Handler Bytes q w → Poll (Option Bytes) × q.Chan → Progress (Handler Bytes q w)
  unfolding next_round refused handle_received
  on_channel h (ready (some msg), ch) =
      next_round "Message handling failure: Closing peer connection" (record h { chan = ch })
        (handle_received c w h.out msg)
  on_channel h (ready none, ch) = refused (record h { chan = ch; channel_on = false })
  on_channel h (pending, ch) = going (record h { chan = ch })

  on_broadcast : Handler Bytes q w → List (Option Bytes) → Progress (Handler Bytes q w)
  unfolding next_round refused transmit
  on_broadcast h (some msg_bytes ∷ rest) =
      next_round "Send failed: Closing peer connection" (record h { announcements = rest })
        (transmit w h.out msg_bytes)
  on_broadcast h (none ∷ rest) = refused (record h { announcements = rest; announce_on = false })
  on_broadcast h [] = going h

  -- A poll of one branch; a branch that is off is passed over.
  unfoldable pub poll_handler : Handler Bytes q w → Branch → Progress (Handler Bytes q w)
  unfolding on_channel on_broadcast
  poll_handler h from_channel = if h.channel_on then on_channel h (q.recv h.chan) else going h
  poll_handler h from_broadcast = if h.announce_on then on_broadcast h h.announcements else going h

  -- The loop, under the order in which `select!` polls.
  unfoldable pub start_message_handler :
      Handler Bytes q w → List Branch → Progress (Handler Bytes q w)
  start_message_handler h [] = going h
  start_message_handler h (b ∷ bs) = elim (poll_handler h b) [
    | going h' ↦ start_message_handler h' bs
    | returned e h' ↦ returned e h'
    | crashed h' ↦ crashed h'
  ]
