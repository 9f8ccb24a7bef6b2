-- ===== src/Memory.antt =====
-- internal/store/memory/store.go: the store that keeps everything in maps. Every method holds the
-- mutex for all of its body, so a method is one atomic step on the maps. Stored byte slices are
-- copies, so there is no aliasing to model.
pub mod State
pub mod Records
pub mod Messages
pub mod Listing
pub mod Suppressed
pub mod Reachable
pub mod Limits
