-- ===== src/Protocol/Tests.antt =====
-- The replies of node/protocol/src on small inputs.
use braidpool.Base.{◌≡◌, refl, ◌≢◌, ◌↔◌, none, some, ok, err}
use braidpool.Protocol.Message.{Message}
use braidpool.Protocol.Handshake.{handshake_of}
use braidpool.Protocol.Wire.{response_for_received}
use braidpool.Protocol.Replies.{oleh, reply_to_reply, handshake_iff}

reply_to_reply_example : response_for_received oleh ≡ ok none
unfolding response_for_received
reply_to_reply_example = reply_to_reply (Message.handshake (handshake_of "helo" "0.1.0")) oleh refl

handshake_iff_example :
    ((response_for_received (Message.handshake (handshake_of "helo" "0.2.0")) ≡ ok (some oleh))
      ↔ (handshake_of "helo" "0.2.0" ≡ handshake_of "helo" "0.1.0"))
    × ((response_for_received (Message.handshake (handshake_of "helo" "0.2.0")) ≡ ok none)
        ↔ (handshake_of "helo" "0.2.0" ≡ handshake_of "oleh" "0.1.0"))
    × ((response_for_received (Message.handshake (handshake_of "helo" "0.2.0")) ≡ err "Bad message")
        ↔ ((handshake_of "helo" "0.2.0" ≢ handshake_of "helo" "0.1.0")
            × (handshake_of "helo" "0.2.0" ≢ handshake_of "oleh" "0.1.0")))
handshake_iff_example = handshake_iff (handshake_of "helo" "0.2.0")
