-- ===== src/Protocol/Replies.antt =====
-- What a peer answers (node/protocol/src), and what is answered to that.
use braidpool.Base.{◌≡◌, refl, ◌≢◌, ◌↔◌, ◌⊎◌, inl, inr, String, none, some, ok, err, arith, eq_iff}
use braidpool.Protocol.Message.{HandshakeMessage, Message}
use braidpool.Protocol.Ping.{ping_of}
use braidpool.Protocol.Handshake.{handshake_of}
use braidpool.Protocol.Wire.{response_for_received}

abbrev pub oleh : Message
oleh = Message.handshake (handshake_of "oleh" "0.1.0")

-- The only replies that there are.
pub reply_cases :
    (m r : Message) → response_for_received m ≡ ok (some r) → (r ≡ ping_of "pong") ⊎ (r ≡ oleh)
unfolding response_for_received
reply_cases (Message.ping m) r h = ground arith
reply_cases (Message.handshake m) r h = ground arith
reply_cases (Message.heartbeat m) r h = ground arith

-- A reply is never answered: whatever message it replies to, the protocol has no reply to it and
-- does not refuse it.
pub reply_to_reply :
    (m r : Message) → response_for_received m ≡ ok (some r) → response_for_received r ≡ ok none
unfolding response_for_received
reply_to_reply m r h = elim (reply_cases m r h) [ inl e ↦ rw e | inr e ↦ rw e ]

helo-ne-oleh : ◌≢◌ {A = String} "helo" "oleh"
helo-ne-oleh h = cc ((eq_iff "helo" "oleh").1 h)

-- A handshake is answered by "oleh" exactly if it is the opening message of version 0.1.0, is
-- accepted without an answer exactly if it is "oleh" of version 0.1.0, and is refused exactly if
-- it is neither.
pub handshake_iff :
    (m : HandshakeMessage)
    → ((response_for_received (Message.handshake m) ≡ ok (some oleh))
        ↔ (m ≡ handshake_of "helo" "0.1.0"))
      × ((response_for_received (Message.handshake m) ≡ ok none)
          ↔ (m ≡ handshake_of "oleh" "0.1.0"))
      × ((response_for_received (Message.handshake m) ≡ err "Bad message")
          ↔ ((m ≢ handshake_of "helo" "0.1.0") × (m ≢ handshake_of "oleh" "0.1.0")))
unfolding response_for_received
handshake_iff m =
    let helo_iff = eq_iff m.message "helo" in
    let oleh_iff = eq_iff m.message "oleh" in
    let version_iff = eq_iff m.version "0.1.0" in
    (
      ground (arith, helo_iff, oleh_iff, version_iff, helo-ne-oleh),
      ground (arith, helo_iff, oleh_iff, version_iff, helo-ne-oleh),
      ground (arith, helo_iff, oleh_iff, version_iff, helo-ne-oleh),
    )

-- Nothing but a handshake is refused, and a message is refused for one reason only.
pub refused :
    (m : Message) {e : String}
    → response_for_received m ≡ err e
    → (e ≡ "Bad message") × ((h : HandshakeMessage) × (m ≡ Message.handshake h))
unfolding response_for_received
refused (Message.ping m) h = ground arith
refused (Message.handshake m) h = (ground arith, (m, refl))
refused (Message.heartbeat m) h = ground arith
