-- ===== src/Connection/Writes.antt =====
-- What a connection writes to its peer, through any interleaving of the two futures of `start`
-- (node/connection/src/lib.rs).
use braidpool.Base.{
  ◌≡◌, refl, sym, ap, ◌∙◌, String, Option, none, some, List, [], ◌∷◌, ◌++◌, Outcome, ok, err, panic,
  arith, if◌then◌else◌, inl, inr, Option-cases,
}
use mathlib.Core.List.{append-nil, append_assoc}
use braidpool.Protocol.Message.{Message}
use braidpool.Protocol.Wire.{Codec, as_bytes, response_for_received}
use braidpool.Connection.Io.{Poll, ready, pending, Mpsc, Sink, Progress, going, returned, crashed}
use braidpool.Connection.Handler.{
  from_channel, from_broadcast, transmit, handle_received, poll_handler,
}
use braidpool.Connection.Session.{Session, Turn, reads, handles, poll_session, select}
use braidpool.Connection.Answers.{IsReliable}
use braidpool.Connection.Flow.{reached}

module _ {Bytes : Type 0} (q : Mpsc Bytes) (c : Codec Bytes) {w : Sink Bytes}
    (R : IsReliable w) where
  abbrev one : Option Bytes → List Bytes
  one none = []
  one (some b) = b ∷ []

  abbrev answer : Outcome String (Option Message) → List Bytes
  answer (ok (some reply)) = one (c.serialize reply)
  answer (ok none) = []
  answer (err e) = []
  answer panic = []

  abbrev answer_to : Option Message → List Bytes
  answer_to none = []
  answer_to (some m) = answer (response_for_received m)

  -- The reply that the protocol has for a message, if it has one.
  abbrev pub reply_to : Bytes → List Bytes
  reply_to msg = answer_to (c.from_slice msg)

  abbrev replies : Poll (Option Bytes) → List Bytes
  replies (ready (some msg)) = reply_to msg
  replies (ready none) = []
  replies pending = []

  abbrev announced : List (Option Bytes) → List Bytes
  announced [] = []
  announced (none ∷ _) = []
  announced (some b ∷ _) = b ∷ []

  -- What the protocol and the broadcasts ask to be written in a turn: the reply to the message
  -- that is taken from the channel, or the announcement.
  abbrev pub due : Session Bytes q w → Turn → List Bytes
  due s reads = []
  due s (handles from_channel) =
      if s.handler.channel_on then replies (q.recv s.handler.chan).0 else []
  due s (handles from_broadcast) =
      if s.handler.announce_on then announced s.handler.announcements else []

  abbrev pub all_due : Session Bytes q w → List Turn → List Bytes
  all_due s [] = []
  all_due s (t ∷ ts) = due s t ++ elim (poll_session q c w s t) [
    | going s' ↦ all_due s' ts
    | returned _ _ ↦ []
    | crashed _ ↦ []
  ]

  abbrev written : Session Bytes q w → List Bytes
  written s = R.sent s.handler.out

  handle_respond :
      (out : w.Out) (msg : Bytes) (m : Message) (o : Outcome String (Option Message))
      → c.from_slice msg ≡ some m
      → response_for_received m ≡ o
      → R.sent (handle_received c w out msg).1 ≡ R.sent out ++ reply_to msg
  unfolding handle_received as_bytes transmit
  handle_respond out msg m (ok none) p e = rw (p, e) (sym (append-nil _))
  handle_respond out msg m (ok (some reply)) p e = elim (Option-cases (c.serialize reply)) [
    | inl s ↦ rw (p, e, s) (sym (append-nil _))
    | inr (b, s) ↦ rw (p, e, s) (R.sent-send out b)
  ]
  handle_respond out msg m (err x) p e = rw (p, e) (sym (append-nil _))
  handle_respond out msg m panic p e = rw (p, e) (sym (append-nil _))

  pub sent-handle_received :
      (out : w.Out) (msg : Bytes)
      → R.sent (handle_received c w out msg).1 ≡ R.sent out ++ reply_to msg
  unfolding handle_received
  sent-handle_received out msg = elim (Option-cases (c.from_slice msg)) [
    | inl e ↦ rw e (sym (append-nil _))
    | inr (m, e) ↦ handle_respond out msg m _ e refl
  ]

  receive-Writes :
      (s : Session Bytes q w) (p : Poll (Option Bytes))
      → (q.recv s.handler.chan).0 ≡ p
      → written (reached (poll_session q c w s (handles from_channel)))
        ≡ written s ++ due s (handles from_channel)
  unfolding poll_session poll_handler
  receive-Writes s (ready (some msg)) e =
      ground (arith, sent-handle_received s.handler.out msg, append-nil (written s))
  receive-Writes s (ready none) e = ground (arith, append-nil (written s))
  receive-Writes s pending e = ground (arith, append-nil (written s))

  announce-Writes :
      (s : Session Bytes q w) (items : List (Option Bytes))
      → s.handler.announcements ≡ items
      → written (reached (poll_session q c w s (handles from_broadcast)))
        ≡ written s ++ due s (handles from_broadcast)
  unfolding poll_session poll_handler transmit
  announce-Writes s [] e = ground (arith, append-nil (written s))
  announce-Writes s (none ∷ rest) e = ground (arith, append-nil (written s))
  announce-Writes s (some b ∷ rest) e =
      ground (arith, R.sent-send s.handler.out b, append-nil (written s))

  pub turn-Writes :
      (s : Session Bytes q w) (t : Turn)
      → written (reached (poll_session q c w s t)) ≡ written s ++ due s t
  unfolding poll_session
  turn-Writes s reads = ground (arith, append-nil (written s))
  turn-Writes s (handles from_channel) = receive-Writes s _ refl
  turn-Writes s (handles from_broadcast) = announce-Writes s _ refl

  first_turn-Writes :
      (s : Session Bytes q w) (t : Turn) (ts : List Turn) (p : Progress (Session Bytes q w))
      → poll_session q c w s t ≡ p
      → written (reached p) ≡ written s ++ due s t
      → ((s' : Session Bytes q w)
          → written (reached (select q c w s' ts)) ≡ written s' ++ all_due s' ts)
      → written (reached (select q c w s (t ∷ ts))) ≡ written s ++ all_due s (t ∷ ts)
  unfolding select
  first_turn-Writes s t ts (going s') e v ih =
      rw (e, select)
        (ih s'
          ∙ ap (λ l. l ++ all_due s' ts) v
          ∙ append_assoc (written s) (due s t) (all_due s' ts))
  first_turn-Writes s t ts (returned x s') e v ih = rw (e, select, append-nil (due s t)) v
  first_turn-Writes s t ts (crashed s') e v ih = rw (e, select, append-nil (due s t)) v

  -- If the writer takes everything, then through every interleaving of reads, receives and
  -- broadcasts exactly this is written to the peer, in order: the reply of the protocol to each
  -- message that is taken from the channel, where there is one, and each announcement that is
  -- received.
  pub select-writes :
      (s : Session Bytes q w) (ts : List Turn)
      → R.sent (reached (select q c w s ts)).handler.out ≡ R.sent s.handler.out ++ all_due s ts
  unfolding select
  select-writes s [] = sym (append-nil _)
  select-writes s (t ∷ ts) =
      first_turn-Writes s t ts (poll_session q c w s t) refl (turn-Writes s t)
        (λ s'. select-writes s' ts)
