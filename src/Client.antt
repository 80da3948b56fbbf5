-- ===== src/Client.antt =====
-- client.go: ClientProtocol. Its mutex makes each method one step, and its clock is read once at
-- the start of a method, so a method is a function of the state and of that time. An instant is a
-- number of nanoseconds since Go's zero time.
mod Types
mod Recovery
mod Connect
mod Requests
mod Caching
mod Handlers
mod Incoming
mod Steps
pub mod Cases
pub mod Fencing
pub mod Failures
pub mod CacheVersions
pub mod Redelivery
pub mod Silence
pub mod Completion
pub mod CacheBounds
pub mod CacheSteps
pub mod Outbox
pub mod Ordering
unfoldable pub use Types.*
unfoldable pub use Recovery.*
unfoldable pub use Connect.*
unfoldable pub use Requests.*
unfoldable pub use Caching.*
unfoldable pub use Handlers.*
unfoldable pub use Incoming.*
unfoldable pub use Steps.*
