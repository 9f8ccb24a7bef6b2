-- ===== src/Process.antt =====
-- cmd/agentlayer: what the process reads of its environment variables, its readiness and its worker.
pub mod Settings
pub mod Readiness
pub mod RetryWorker
pub mod Checked
