-- ===== src/Protocol/Message.antt =====
-- The message types of node/protocol/src: the structs of ping.rs, handshake.rs and heartbeat.rs,
-- the enum `Message` and the trait `ProtocolMessage` of lib.rs. A `SystemTime` is a number of
-- nanoseconds since the epoch.
use braidpool.Base.{ℕ, String, Option, Outcome}

pub record PingMessage : Type 0 where
  pub message : String

pub record HandshakeMessage : Type 0 where
  pub message : String
  pub version : String

pub record HeartbeatMessage : Type 0 where
  pub from : String
  pub time : ℕ

pub data Message : Type 0 where
  ping : PingMessage → Message
  handshake : HandshakeMessage → Message
  heartbeat : HeartbeatMessage → Message

-- The trait, over the addresses of the peers and an implementing type. `start` is given the
-- reading of the clock, which the heartbeat takes.
pub record ProtocolMessage (Addr Self : Type 0) : Type 0 where
  pub start : Addr → ℕ → Option Message
  pub response_for_received : Self → Outcome String (Option Message)
