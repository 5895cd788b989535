-- ===== src/Connection/Flow.antt =====
-- What a turn of `start` (node/connection/src/lib.rs) puts into the channel of its connection and
-- takes out of it.
use braidpool.Base.{◌≡◌, refl, Option, none, some, List, [], ◌∷◌, ◌++◌, arith, if◌then◌else◌}
use mathlib.Core.List.{append-nil}
use braidpool.Protocol.Wire.{Codec}
use braidpool.Connection.Io.{Mpsc, IsMpsc, Sink, Progress, going, returned, crashed}
use braidpool.Connection.Channels.{pulled, pushed, recv_lem, try_send_lem}
use braidpool.Connection.Handler.{Handler, Branch, from_channel, from_broadcast, poll_handler}
use braidpool.Connection.Session.{Session, Turn, reads, handles, poll_session}

-- The state that a task has reached.
abbrev pub reached {ℓ} : {S : Type ℓ} → Progress S → S
reached (going s) = s
reached (returned _ s) = s
reached (crashed s) = s

module _ {Bytes : Type 0} {q : Mpsc Bytes} (L : IsMpsc q) (c : Codec Bytes) (w : Sink Bytes) where
  abbrev pub queued : Session Bytes q w → List Bytes
  queued s = (L.look s.handler.chan).queue

  -- The message that a turn of the handler takes from the channel.
  abbrev pub took : Session Bytes q w → Turn → List Bytes
  took s reads = []
  took s (handles from_channel) =
      if s.handler.channel_on then pulled (q.recv s.handler.chan).0 else []
  took s (handles from_broadcast) = []

  abbrev pub offered : q.Chan → List (Option Bytes) → List Bytes
  offered ch (some b ∷ _) = pushed b (q.try_send ch b).0
  offered ch _ = []

  -- The message that a turn of the read loop puts into it.
  abbrev pub put : Session Bytes q w → Turn → List Bytes
  put s reads = offered s.handler.chan s.reader
  put s (handles _) = []

  abbrev polled : Handler Bytes q w → Branch → q.Chan
  polled h from_channel = if h.channel_on then (q.recv h.chan).1 else h.chan
  polled h from_broadcast = h.chan

  poll_handler-chan :
      (h : Handler Bytes q w) (b : Branch) → (reached (poll_handler q c w h b)).chan ≡ polled h b
  unfolding poll_handler
  poll_handler-chan h from_channel = ground arith
  poll_handler-chan h from_broadcast = ground arith

  -- What a turn does to the channel, put together.
  pub record Flows (s : Session Bytes q w) (t : Turn) (s' : Session Bytes q w) : Type 0 where
    pub order : took s t ++ queued s' ≡ queued s ++ put s t

  read-Flows :
      (s : Session Bytes q w) (items : List (Option Bytes))
      → s.reader ≡ items
      → Flows s reads (reached (poll_session q c w s reads))
  unfolding poll_session
  read-Flows s [] e = record { order = ground (arith, append-nil (queued s)) }
  read-Flows s (none ∷ rest) e = record { order = ground (arith, append-nil (queued s)) }
  read-Flows s (some b ∷ rest) e = record {
    order = ground (arith, try_send_lem L s.handler.chan b);
  }

  handle-Flows :
      (s : Session Bytes q w) (b : Branch)
      → Flows s (handles b) (reached (poll_session q c w s (handles b)))
  unfolding poll_session
  handle-Flows s from_channel = record {
    order = ground (
      arith,
      poll_handler-chan s.handler from_channel,
      recv_lem L s.handler.chan,
      append-nil (queued s),
    );
  }
  handle-Flows s from_broadcast = record {
    order = ground (arith, poll_handler-chan s.handler from_broadcast, append-nil (queued s));
  }

  pub turn-Flows : (s : Session Bytes q w) (t : Turn) → Flows s t (reached (poll_session q c w s t))
  turn-Flows s reads = read-Flows s s.reader refl
  turn-Flows s (handles b) = handle-Flows s b
