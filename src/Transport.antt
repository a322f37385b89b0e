-- ===== src/Transport.antt =====
-- The reliable packet transport over DTLS (bingle_core/src/packet_transport/mod.rs): its packets, its
-- state, what it does with inbound packets, and `send` with its retries.
pub mod Packet
pub mod State
pub mod Setup
pub mod Keeps
pub mod Inbound
pub mod Send
mod Examples
