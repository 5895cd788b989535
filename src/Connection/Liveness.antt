-- ===== src/Connection/Liveness.antt =====
-- How the two futures of a connection end (`start` of node/connection/src/lib.rs): by an error
-- or by a panic.
use braidpool.Base.{◌≡◌, ◌≢◌, refl, String, true, false, Option, none, some, List, [], ◌∷◌, arith}
use braidpool.Protocol.Message.{Message}
use braidpool.Protocol.Wire.{Codec}
use braidpool.Connection.Io.{
  Mpsc, IsMpsc, Sink, Progress, going, returned, crashed, Poll, ready, pending,
}
use braidpool.Connection.Channels.{recv_lem, recv_open, try_send_lem}
use braidpool.Connection.Answers.{handle_received-ne-panic}
use braidpool.Connection.Handler.{Handler, Branch, from_channel, from_broadcast, poll_handler}
use braidpool.Connection.Session.{Session, Turn, reads, handles, poll_session, select}

module _ {Bytes : Type 0} (q : Mpsc Bytes) (c : Codec Bytes) (w : Sink Bytes) where
  abbrev pub farewell : Branch → String
  farewell from_channel = "Message handling failure: Closing peer connection"
  farewell from_broadcast = "Send failed: Closing peer connection"

  -- The handler returns one of two texts, by the branch that failed: the reason that
  -- `handle_received` gives is not passed on.
  pub poll_handler_errors :
      (h : Handler Bytes q w) (b : Branch) {h' : Handler Bytes q w} {e : String}
      → poll_handler q c w h b ≡ returned e h'
      → e ≡ farewell b
  unfolding poll_handler
  poll_handler_errors h from_channel k = ground arith
  poll_handler_errors h from_broadcast k = ground arith

module _ {Bytes : Type 0} {q : Mpsc Bytes} (L : IsMpsc q) (c : Codec Bytes) (w : Sink Bytes)
    (total : (m : Message) → c.serialize m ≢ none) where
  -- The channel is open and the branch that reads it is on.
  pub record IsSound (s : Session Bytes q w) : Type 0 where
    pub is_open : (L.look s.handler.chan).shut ≡ false
    pub on : s.handler.channel_on ≡ true

  abbrev pub Survives : Progress (Session Bytes q w) → Type 0
  Survives (going s) = IsSound s
  Survives (returned _ _) = Unit
  Survives (crashed _) = ⊥

  read-Survives :
      (s : Session Bytes q w) (items : List (Option Bytes))
      → s.reader ≡ items
      → IsSound s
      → Survives (poll_session q c w s reads)
  unfolding poll_session
  read-Survives s [] e v = ground arith
  read-Survives s (none ∷ rest) e v = ground arith
  read-Survives s (some b ∷ rest) e v = ground (arith, try_send_lem L s.handler.chan b)

  receive-Survives :
      (s : Session Bytes q w) (p : Poll (Option Bytes))
      → (q.recv s.handler.chan).0 ≡ p
      → IsSound s
      → Survives (poll_session q c w s (handles from_channel))
  unfolding poll_session poll_handler
  receive-Survives s (ready (some msg)) e v =
      ground
        (arith, recv_lem L s.handler.chan, handle_received-ne-panic c w s.handler.out msg total)
  receive-Survives s (ready none) e v = absurd (recv_open L s.handler.chan v.is_open e)
  receive-Survives s pending e v = ground (arith, recv_lem L s.handler.chan)

  pub turn-Survives :
      (s : Session Bytes q w) (t : Turn) → IsSound s → Survives (poll_session q c w s t)
  unfolding poll_session poll_handler
  turn-Survives s reads v = read-Survives s s.reader refl v
  turn-Survives s (handles from_channel) v = receive-Survives s (q.recv s.handler.chan).0 refl v
  turn-Survives s (handles from_broadcast) v = ground arith

  first_turn-Survives :
      (s : Session Bytes q w) (t : Turn) (ts : List Turn) (p : Progress (Session Bytes q w))
      → poll_session q c w s t ≡ p
      → Survives p
      → ((s' : Session Bytes q w) → IsSound s' → Survives (select q c w s' ts))
      → Survives (select q c w s (t ∷ ts))
  unfolding select
  first_turn-Survives s t ts (going s') e v ih = rw (e, select) (ih s' v)
  first_turn-Survives s t ts (returned x s') e v ih = rw (e, select) tt
  first_turn-Survives s t ts (crashed s') e v ih = absurd v

  -- If every message can be written, and the channel is open and read at the start, the two
  -- futures of a connection go on or return an error, and never panic; the channel stays open
  -- and read as long as they go on.
  pub select-Survives :
      (s : Session Bytes q w) (ts : List Turn) → IsSound s → Survives (select q c w s ts)
  unfolding select
  select-Survives s [] v = v
  select-Survives s (t ∷ ts) v =
      first_turn-Survives s t ts (poll_session q c w s t) refl (turn-Survives s t v)
        (λ s' v'. select-Survives s' ts v')
