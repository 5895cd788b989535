-- ===== src/Connection/Tests.antt =====
-- Connections (node/connection/src/lib.rs) on small inputs.
mod Loops
mod Sessions
