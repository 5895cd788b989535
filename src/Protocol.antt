-- ===== src/Protocol.antt =====
-- node/protocol/src.
pub mod Message
pub mod Ping
pub mod Handshake
pub mod Heartbeat
pub mod Wire
pub mod Replies
mod UnitTests
mod Tests
