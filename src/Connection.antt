-- ===== src/Connection.antt =====
-- node/connection/src/lib.rs.
pub mod Io
pub mod ReadLoop
pub mod Handler
pub mod Session
pub mod Heartbeat
pub mod Listen
pub mod Channels
pub mod Backpressure
pub mod Flow
pub mod Delivery
pub mod Answers
pub mod Liveness
pub mod Pulse
pub mod Writes
pub mod Backlog
mod UnitTests
mod Tests
