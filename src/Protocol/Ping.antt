-- ===== src/Protocol/Ping.antt =====
-- node/protocol/src/ping.rs.
use braidpool.Base.{ℕ, String, Option, none, some, Outcome, ok, str_eq, if◌then◌else◌}
use braidpool.Protocol.Message.{PingMessage, Message, ProtocolMessage}

abbrev pub ping_of : String → Message
ping_of text = Message.ping (record { message = text })

unfoldable pub start {ℓ} : {Addr : Type ℓ} → Addr → ℕ → Option Message
start addr now = some (ping_of "ping")

unfoldable pub response_for_received : PingMessage → Outcome String (Option Message)
response_for_received m = if str_eq m.message "ping" then ok (some (ping_of "pong")) else ok none

-- `impl ProtocolMessage for PingMessage`.
abbrev pub ping_protocol : {Addr : Type 0} → ProtocolMessage Addr PingMessage
ping_protocol = record { start = start; response_for_received = response_for_received }
