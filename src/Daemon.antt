-- ===== src/Daemon.antt =====
-- The crate crates/unixd: the daemon's side and its client.
pub mod Numbers
pub mod Envelope
pub mod Secrets
pub mod Server
pub mod Client
pub mod Exchange
pub mod SingleFlight
pub mod Serve
pub mod UnitFiles
pub mod Install
pub mod Launchd
