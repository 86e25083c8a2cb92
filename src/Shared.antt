-- ===== src/Shared.antt =====
-- packages/shared/src: what the server, the web pages and the transports agree on.
pub mod Types
pub mod Frame
pub mod TitleId
