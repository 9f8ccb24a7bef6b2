-- ===== src/Inbound.antt =====
-- internal/inbound: a durable receipt is processed (parsed, contact, thread), looked up as a
-- duplicate, and recorded.
pub mod Receipt
pub mod Recorder
pub mod Service
pub mod Runs
