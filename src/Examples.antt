-- ===== src/Examples.antt =====
-- Runs of the program on small inputs, at which its theorems apply.
pub mod Scene
mod Webhooks
mod Threads
mod Inbound
mod Replies
mod Sessions
mod Replays
mod Requests
mod Parsing
mod Database
mod Rows
mod Escalations
mod Stores
