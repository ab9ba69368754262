-- ===== src/Relay.antt =====
-- internal/relay: frames, the handshake, and the server that forwards.
pub mod Frame
pub mod Handshake
pub mod Server
pub mod Expiry
