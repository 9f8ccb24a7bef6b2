-- ===== src/Webhooks.antt =====
-- internal/webhooks: the event of a received message is built, signed and posted; every answered
-- attempt is recorded, and failed deliveries are replayed until they succeed or are given up.
pub mod Signing
pub mod Attempts
pub mod Delivery
pub mod Sweep
pub mod Backoff
pub mod Lifecycle
pub mod SweepLaws
pub mod Signatures
