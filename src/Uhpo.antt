-- ===== src/Uhpo.antt =====
-- node/uhpo/src: the Eltoo-style payout updates. `PayoutSettlement` is an empty struct there.
pub mod Bitcoin
pub mod Builder
pub mod Error
pub mod Signature
pub mod Update
pub mod Payout
pub mod Signing
pub mod Cosigning
pub mod BothSigned
pub mod Chain
mod UnitTests
mod SignatureTests
mod Tests
