-- ===== src/Outbound.antt =====
-- internal/outbound: a reply is assembled, queued, sent and marked as sent; delivery callbacks of
-- the provider update the message and suppress addresses that bounce.
pub mod Assembler
pub mod Recorders
pub mod Service
pub mod Callback
