-- ===== src/Device.antt =====
-- packages/server/src/device: what the server does for the paired consoles.
pub mod Space
pub mod Catalog
pub mod Range
pub mod Log
pub mod Publisher
pub mod Rows
pub mod Service
pub mod Sample
pub mod Jobs
pub mod Pairing
pub mod Devices
pub mod Polling
pub mod CheckSpace
