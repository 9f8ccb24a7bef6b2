-- ===== src/Runtime.antt =====
-- cmd/agentlayer: the process that joins the services to the memory store, the clock, the random
-- source, the email provider and the HTTP client.
pub mod World
pub mod Wiring
pub mod Reply
pub mod Reads
pub mod Known
pub mod Duplicates
pub mod Replays
pub mod Escalation
pub mod Booting
pub mod Redelivery
pub mod Replies
pub mod Submissions
pub mod Suppression
pub mod Store
pub mod Seeding
pub mod Http
