-- ===== src/Client/Ordering.antt =====
-- The EVENT stream of a Session: what the application receives, and in which order.
mod Defs
mod Replay
mod Quiet
mod Stream
unfoldable pub use Defs.*
pub use Replay.*
pub use Quiet.*
pub use Stream.*
