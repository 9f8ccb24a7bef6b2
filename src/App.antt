-- ===== src/App.antt =====
-- internal/app: the services that the HTTP handlers and the SMTP edge call.
pub mod InboundRuntime
pub mod Bootstrap
pub mod Lists
pub mod Writes
