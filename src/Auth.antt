-- ===== src/Auth.antt =====
-- packages/server/src/auth: who may sign in to the web pages, and how often it may be tried.
pub mod Limiter
pub mod Sessions
