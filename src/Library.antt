-- ===== src/Library.antt =====
-- packages/server/src/library: what the server keeps of the files of its library.
pub mod Prefer
pub mod Verify
