-- ===== src/Capability.antt =====
-- capability.go: names, versions, offers, negotiation and the immutable Session snapshot.
mod Names
mod Versions
mod Session
mod Registry
pub mod Highest
pub mod Selection
pub mod Sorting
unfoldable pub use Names.*
unfoldable pub use Versions.*
unfoldable pub use Session.*
unfoldable pub use Registry.*
