-- ===== src/Protocol/Handshake.antt =====
-- node/protocol/src/handshake.rs.
use braidpool.Base.{ℕ, String, ◌&&◌, Option, none, some, Outcome, ok, err, str_eq, if◌then◌else◌}
use braidpool.Protocol.Message.{HandshakeMessage, Message, ProtocolMessage}

abbrev pub handshake_of : String → String → HandshakeMessage
handshake_of message version = record { message = message; version = version }

unfoldable pub start {ℓ} : {Addr : Type ℓ} → Addr → ℕ → Option Message
start addr now = some (Message.handshake (handshake_of "helo" "0.1.0"))

-- The two guarded arms of the `match`, then the catch-all.
unfoldable pub response_for_received : HandshakeMessage → Outcome String (Option Message)
response_for_received m =
    if str_eq m.message "helo" && str_eq m.version "0.1.0"
    then ok (some (Message.handshake (handshake_of "oleh" "0.1.0")))
    else if str_eq m.message "oleh" && str_eq m.version "0.1.0"
    then ok none
    else err "Bad message"

-- `impl ProtocolMessage for HandshakeMessage`.
abbrev pub handshake_protocol : {Addr : Type 0} → ProtocolMessage Addr HandshakeMessage
handshake_protocol = record { start = start; response_for_received = response_for_received }
