-- ===== src/Rtmp.antt =====
-- crates/rtmp: the protocol spoken with the encoder and with the destination.
pub mod Ts
pub mod Wire
pub mod Chunk
pub mod Arena
pub mod Handshake
pub mod Amf0
pub mod Message
pub mod Link
pub mod Server
pub mod Client
