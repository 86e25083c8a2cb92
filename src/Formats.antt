-- ===== src/Formats.antt =====
-- packages/formats/src: the container formats that the library reads and writes.
pub mod Binary
pub mod Reader
pub mod Partition
pub mod SaveArchive
pub mod Cnmt
pub mod Ticket
pub mod Nro
pub mod Split
pub mod Xci
pub mod Container
