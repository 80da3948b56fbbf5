-- ===== src/State.antt =====
-- state.go: State objects, their validation, the comparison of JSON values, and the merge.
mod Sync
mod Identity
mod Numbers
mod Compare
mod Apply
mod Snapshot
pub mod Accounting
pub mod Monotone
unfoldable pub use Sync.*
unfoldable pub use Identity.*
unfoldable pub use Numbers.*
unfoldable pub use Compare.*
unfoldable pub use Apply.*
unfoldable pub use Snapshot.*
