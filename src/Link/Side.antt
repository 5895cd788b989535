-- ===== src/Link/Side.antt =====
-- One end of a link (node/connection/src/lib.rs, node/protocol/src/handshake.rs) as a small state
-- machine: which of the two handshake messages it has heard, and which of these it has handled.
use braidpool.Base.{
  ℕ, ◌≤◌, ◌<◌, ◌≡◌, refl, sym, ap, ◌∙◌, true, false, some, List, [], ◌∷◌, ◌++◌, ok, length, arith,
}
use braidpool.Protocol.Message.{Message}
use braidpool.Protocol.Handshake.{handshake_of}
use braidpool.Protocol.Wire.{Codec, IsRoundTrip, as_bytes, response_for_received}
use braidpool.Protocol.Replies.{oleh}
use braidpool.Connection.Io.{Mpsc, IsMpsc, Sink, Progress, going, returned, crashed}
use braidpool.Connection.Handler.{
  transmit, from_channel, from_broadcast, handle_received, poll_handler,
}
use braidpool.Connection.Answers.{IsReliable}
use braidpool.Connection.Session.{Session, reads, handles, poll_session}

abbrev pub helo : Message
helo = Message.handshake (handshake_of "helo" "0.1.0")

-- The bytes of the two handshake messages.
pub record Words {Bytes : Type 0} (c : Codec Bytes) : Type 0 where
  pub first : Bytes
  pub second : Bytes
  pub first_lem : c.serialize helo ≡ some first
  pub second_lem : c.serialize oleh ≡ some second
  pub codec : IsRoundTrip c

-- Nothing heard; "helo" in the channel; both in the channel; "helo" answered; that and "oleh" in
-- the channel; both handled.
pub data Talk : Type 0 where
  fresh helo_waiting both_waiting answered oleh_waiting done : Talk

-- How many messages an end has read from the stream.
abbrev pub heard : Talk → ℕ
heard fresh = 0
heard helo_waiting = 1
heard both_waiting = 2
heard answered = 1
heard oleh_waiting = 2
heard done = 2

-- What its handler does.
abbrev pub take : Talk → Talk
take fresh = fresh
take helo_waiting = answered
take both_waiting = oleh_waiting
take answered = answered
take oleh_waiting = done
take done = done

module _ {Bytes : Type 0} {c : Codec Bytes} (W : Words c) where
  -- What an end has written, and what waits in its channel.
  abbrev pub spoken : Talk → List Bytes
  spoken fresh = W.first ∷ []
  spoken helo_waiting = W.first ∷ []
  spoken both_waiting = W.first ∷ []
  spoken answered = W.first ∷ W.second ∷ []
  spoken oleh_waiting = W.first ∷ W.second ∷ []
  spoken done = W.first ∷ W.second ∷ []

  abbrev pub unhandled : Talk → List Bytes
  unhandled fresh = []
  unhandled helo_waiting = W.first ∷ []
  unhandled both_waiting = W.first ∷ W.second ∷ []
  unhandled answered = []
  unhandled oleh_waiting = W.second ∷ []
  unhandled done = []

module _ {Bytes : Type 0} {q : Mpsc Bytes} (L : IsMpsc q) {c : Codec Bytes} {w : Sink Bytes}
    (R : IsReliable w) (W : Words c) where
  pub record IsAt (k : Talk) (s : Session Bytes q w) : Type 0 where
    pub is_open : (L.look s.handler.chan).shut ≡ false
    pub room : 2 ≤ (L.look s.handler.chan).limit
    pub queued : (L.look s.handler.chan).queue ≡ unhandled W k
    pub said : R.sent s.handler.out ≡ spoken W k
    pub channel_on : s.handler.channel_on ≡ true
    pub silence : s.handler.announcements ≡ []

  abbrev pub Stays : Talk → Progress (Session Bytes q w) → Type 0
  Stays k (going s) = IsAt k s
  Stays k (returned _ _) = ⊥
  Stays k (crashed _) = ⊥

  -- A message is read into a channel with room for it.
  pub read-Stays :
      (k k' : Talk) (s : Session Bytes q w) (m : Bytes)
      → IsAt k s
      → length (unhandled W k) < 2
      → unhandled W k' ≡ unhandled W k ++ (m ∷ [])
      → spoken W k' ≡ spoken W k
      → Stays k' (poll_session q c w (record s { reader = some m ∷ [] }) reads)
  unfolding poll_session
  read-Stays k k' s m v space queue' said' =
      let fits : length (L.look s.handler.chan).queue < (L.look s.handler.chan).limit =
        rw v.queued (omega arith) in
      let (r, look') = L.try_send_room s.handler.chan m v.is_open fits in
      rw r (record {
        is_open = ap (λ b. b.shut) look' ∙ v.is_open;
        room = rw look' v.room;
        queued = ap (λ b. b.queue) look' ∙ ap (λ l. l ++ (m ∷ [])) v.queued ∙ sym queue';
        said = v.said ∙ sym said';
        channel_on = v.channel_on;
        silence = v.silence;
      })

  -- The handler on an empty channel.
  idle-Stays :
      (k : Talk) (s : Session Bytes q w)
      → IsAt k s
      → unhandled W k ≡ []
      → Stays k (poll_session q c w s (handles from_channel))
  unfolding poll_session poll_handler
  idle-Stays k s v e =
      rw (v.channel_on, L.recv_pending s.handler.chan (v.queued ∙ e) v.is_open)
        (record {
          is_open = v.is_open;
          room = v.room;
          queued = v.queued;
          said = v.said;
          channel_on = refl;
          silence = v.silence;
        })

  -- The handler on a message that it answers, or not.
  take-Stays :
      (k k' : Talk) (s : Session Bytes q w) (m : Bytes)
      → IsAt k s
      → unhandled W k ≡ m ∷ unhandled W k'
      → (handle_received c w s.handler.out m).0 ≡ ok tt
      → R.sent (handle_received c w s.handler.out m).1 ≡ spoken W k'
      → Stays k' (poll_session q c w s (handles from_channel))
  unfolding poll_session poll_handler
  take-Stays k k' s m v e o said' =
      let (r, look') = L.recv_some s.handler.chan m (unhandled W k') (v.queued ∙ e) in
      ground (arith, r, look', o, said', v.is_open, v.room)

  pub handle-Stays :
      (k : Talk) (s : Session Bytes q w)
      → IsAt k s
      → Stays (take k) (poll_session q c w s (handles from_channel))
  unfolding handle_received response_for_received as_bytes transmit
  handle-Stays fresh s v = idle-Stays fresh s v refl
  handle-Stays helo_waiting s v =
      let heard' = W.codec.from_slice-serialize helo W.first W.first_lem in
      let sent' = R.sent-send s.handler.out W.second in
      take-Stays helo_waiting answered s W.first v refl
        (rw (heard', W.second_lem, R.send_ok s.handler.out W.second))
        (rw (heard', W.second_lem) (sent' ∙ ap (λ l. l ++ (W.second ∷ [])) v.said))
  handle-Stays both_waiting s v =
      let heard' = W.codec.from_slice-serialize helo W.first W.first_lem in
      let sent' = R.sent-send s.handler.out W.second in
      take-Stays both_waiting oleh_waiting s W.first v refl
        (rw (heard', W.second_lem, R.send_ok s.handler.out W.second))
        (rw (heard', W.second_lem) (sent' ∙ ap (λ l. l ++ (W.second ∷ [])) v.said))
  handle-Stays answered s v = idle-Stays answered s v refl
  handle-Stays oleh_waiting s v =
      let heard' = W.codec.from_slice-serialize oleh W.second W.second_lem in
      take-Stays oleh_waiting done s W.second v refl (rw heard') (rw heard' v.said)
  handle-Stays done s v = idle-Stays done s v refl

  -- Nothing is announced.
  pub broadcast-Stays :
      (k : Talk) (s : Session Bytes q w)
      → IsAt k s
      → Stays k (poll_session q c w s (handles from_broadcast))
  unfolding poll_session poll_handler
  broadcast-Stays k s v = ground (arith, v)
