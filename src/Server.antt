-- ===== src/Server.antt =====
-- server.go: ServerProtocol, the processor of the frames that a client sends.
mod Types
mod Monad
mod Frames
mod Callbacks
mod Stored
mod Sends
mod Contents
mod Snapshots
mod Resumes
mod Queries
mod Publishing
mod Processing
mod Starting
pub mod Effects
pub mod Truncation
pub mod Ranges
pub mod StateFrames
pub mod Served
pub mod Batches
pub mod Resumption
pub mod Readiness
pub mod Worlds
pub mod Keeping
pub mod Growth
pub mod Serving
pub mod Lanes
pub mod Flights
pub mod Contests
pub mod Leading
pub mod Deliveries
unfoldable pub use Types.*
unfoldable pub use Monad.*
unfoldable pub use Frames.*
unfoldable pub use Callbacks.*
unfoldable pub use Stored.*
unfoldable pub use Sends.*
unfoldable pub use Contents.*
unfoldable pub use Snapshots.*
unfoldable pub use Resumes.*
unfoldable pub use Queries.*
unfoldable pub use Publishing.*
unfoldable pub use Processing.*
unfoldable pub use Starting.*
