-- ===== src/Protocol/Heartbeat.antt =====
-- node/protocol/src/heartbeat.rs. The text of an address is the standard library's; it is the
-- argument `to_string`.
use braidpool.Base.{ℕ, String, Option, none, some, Outcome, ok}
use braidpool.Protocol.Message.{HeartbeatMessage, Message, ProtocolMessage}

unfoldable pub start : {Addr : Type 0} → (Addr → String) → Addr → ℕ → Option Message
start to_string addr now = some (Message.heartbeat (record { from = to_string addr; time = now }))

unfoldable pub response_for_received : HeartbeatMessage → Outcome String (Option Message)
response_for_received m = ok none

-- `impl ProtocolMessage for HeartbeatMessage`.
abbrev pub heartbeat_protocol :
    {Addr : Type 0} → (Addr → String) → ProtocolMessage Addr HeartbeatMessage
heartbeat_protocol to_string = record {
  start = start to_string;
  response_for_received = response_for_received;
}
