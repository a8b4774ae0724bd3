-- ===== src/Tests.antt =====
-- Runs at concrete inputs.
pub mod Broadcast
pub mod Operations
pub mod Protocol
pub mod Session
pub mod Client
pub mod Exchange
