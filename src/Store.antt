-- ===== src/Store.antt =====
-- store.go: the process-local reference stores. Their mutexes make each method one step.
mod Dedup
mod Sessions
mod Log
pub mod Openings
pub mod Claims
pub mod Messages
pub mod Statuses
pub mod Refinement
pub mod Replays
pub mod Pruning
unfoldable pub use Dedup.*
unfoldable pub use Sessions.*
unfoldable pub use Log.*
