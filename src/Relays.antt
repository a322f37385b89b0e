-- ===== src/Relays.antt =====
-- The choice of relays (bingle_core/src/relay): which relays a corner must not be, which failed a
-- probe of late, the cache of known relays, and the back-off of the keep-alive.
pub mod Corner
pub mod ProbeFailures
pub mod KeepAlive
pub mod Cache
pub mod Updater
mod Examples
