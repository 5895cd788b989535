-- ===== src/Connection/Backlog.antt =====
-- The messages that wait in the channel of a connection, and their answers
-- (`start_message_handler` and `handle_received` of node/connection/src/lib.rs).
use braidpool.Base.{
  ◌≡◌, refl, true, false, none, some, List, [], ◌∷◌, ◌++◌, ok, length, replicate, All, arith,
}
use mathlib.Core.List.{append-nil, append_assoc}
use braidpool.Protocol.Message.{Message}
use braidpool.Protocol.Wire.{Codec, as_bytes, response_for_received}
use braidpool.Connection.Io.{Mpsc, IsMpsc, Sink, Progress, going, returned, crashed}
use braidpool.Connection.Handler.{from_channel, transmit, handle_received, poll_handler}
use braidpool.Connection.Answers.{IsReliable}
use braidpool.Connection.Session.{Session, Turn, handles, poll_session, select}
use braidpool.Connection.Writes.{reply_to, sent-handle_received}

module _ {Bytes : Type 0} {q : Mpsc Bytes} (L : IsMpsc q) (c : Codec Bytes) {w : Sink Bytes}
    (R : IsReliable w) where
  -- A message that is parsed and not refused, and whose reply can be written if there is one.
  pub data IsAcceptable (msg : Bytes) : Type 0 where
    silent :
        {m : Message}
        → c.from_slice msg ≡ some m
        → response_for_received m ≡ ok none
        → IsAcceptable msg
    answered :
        {m reply : Message} {b : Bytes}
        → c.from_slice msg ≡ some m
        → response_for_received m ≡ ok (some reply)
        → c.serialize reply ≡ some b
        → IsAcceptable msg

  -- The replies to messages, in order.
  abbrev pub replies_to : List Bytes → List Bytes
  replies_to [] = []
  replies_to (msg ∷ msgs) = reply_to q c R msg ++ replies_to msgs

  -- A session that serves, with its channel and its log.
  pub record Serves (queue log : List Bytes) (s : Session Bytes q w) : Type 0 where
    pub is_open : (L.look s.handler.chan).shut ≡ false
    pub on : s.handler.channel_on ≡ true
    pub queued : (L.look s.handler.chan).queue ≡ queue
    pub written : R.sent s.handler.out ≡ log

  abbrev Goes : List Bytes → List Bytes → Progress (Session Bytes q w) → Type 0
  Goes queue log (going s) = Serves queue log s
  Goes queue log (returned _ _) = ⊥
  Goes queue log (crashed _) = ⊥

  handled_ok :
      (out : w.Out) (msg : Bytes) → IsAcceptable msg → (handle_received c w out msg).0 ≡ ok tt
  unfolding handle_received as_bytes transmit
  handled_ok out msg (silent p e) = rw (p, e) refl
  handled_ok out msg (answered {b} p e s) = rw (p, e, s, R.send_ok out b) refl

  turn-Goes :
      (s : Session Bytes q w) (msg : Bytes) (rest log : List Bytes)
      → IsAcceptable msg
      → Serves (msg ∷ rest) log s
      → Goes rest (log ++ reply_to q c R msg) (poll_session q c w s (handles from_channel))
  unfolding poll_session poll_handler
  turn-Goes s msg rest log a v =
      let (r, look') = L.recv_some s.handler.chan msg rest v.queued in
      ground (
        arith,
        r,
        look',
        handled_ok s.handler.out msg a,
        sent-handle_received q c R s.handler.out msg,
        v,
      )

  first_turn-Goes :
      (s : Session Bytes q w) (t : Turn) (ts : List Turn) (queue log queue' log' : List Bytes)
      (p : Progress (Session Bytes q w))
      → poll_session q c w s t ≡ p
      → Goes queue log p
      → ((s' : Session Bytes q w) → Serves queue log s' → Goes queue' log' (select q c w s' ts))
      → Goes queue' log' (select q c w s (t ∷ ts))
  unfolding select
  first_turn-Goes s t ts queue log queue' log' (going s') e v ih = rw (e, select) (ih s' v)
  first_turn-Goes s t ts queue log queue' log' (returned x s') e v ih = absurd v
  first_turn-Goes s t ts queue log queue' log' (crashed s') e v ih = absurd v

  clears :
      (s : Session Bytes q w) (queue log : List Bytes)
      → All IsAcceptable queue
      → Serves queue log s
      → Goes []
          (log ++ replies_to queue)
          (select q c w s (replicate (length queue) (handles from_channel)))
  unfolding select
  clears s [] log a v = rw (append-nil log) v
  clears s (msg ∷ rest) log a v =
      first_turn-Goes s (handles from_channel) _ rest (log ++ reply_to q c R msg) [] _ _ refl
        (turn-Goes s msg rest log (a.0) v)
        (λ s' v'.
          rw⁻¹ (append_assoc log (reply_to q c R msg) (replies_to rest))
            (clears s' rest (log ++ reply_to q c R msg) (a.1) v'))

  going-Serves :
      (queue log : List Bytes) (p : Progress (Session Bytes q w))
      → Goes queue log p
      → (s : Session Bytes q w) × (p ≡ going s) × Serves queue log s
  going-Serves queue log (going s) v = (s, refl, v)
  going-Serves queue log (returned e s) v = absurd v
  going-Serves queue log (crashed s) v = absurd v

  -- Over a channel as tokio documents it and a writer that takes everything: if the channel is open
  -- and read, and every message that waits in it can be parsed, is not refused, and has no
  -- reply or one that can be written, then as many turns of the handler as there are messages empty
  -- the channel and write exactly the replies, in order, and the connection goes on.
  pub backlog_answered :
      (s : Session Bytes q w)
      → (L.look s.handler.chan).shut ≡ false
      → s.handler.channel_on ≡ true
      → All IsAcceptable (L.look s.handler.chan).queue
      → let waiting = (L.look s.handler.chan).queue in
        (s' : Session Bytes q w) × (select q c w s
            (replicate (length waiting) (handles from_channel))
          ≡ going s')
        × Serves [] (R.sent s.handler.out ++ replies_to waiting) s'
  backlog_answered s open' on a =
      let waiting = (L.look s.handler.chan).queue in
      going-Serves [] _ _ (
        clears s waiting (R.sent s.handler.out) a
          (record { is_open = open'; on = on; queued = refl; written = refl }))
