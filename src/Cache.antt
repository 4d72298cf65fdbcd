-- ===== src/Cache.antt =====
-- The crate crates/unixd-cache, one child for each of its files or concerns.
pub mod DefaultRoot
pub mod Error
pub mod Policy
pub mod Key
pub mod Os
pub mod Effects
pub mod Returns
pub mod Runs
pub mod Fs
pub mod Private
pub mod Footprint
pub mod ExternalLaws
pub mod Entry
pub mod Paths
pub mod Read
pub mod Prune
pub mod Store
pub mod Manage
