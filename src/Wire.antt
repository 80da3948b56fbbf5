-- ===== src/Wire.antt =====
-- types.go, payload.go, limits.go, error.go and the JSON boundary: the vocabulary of the protocol.
mod Types
mod Errors
mod Bounds
mod Encoding
mod Normalizing
unfoldable pub use Types.*
unfoldable pub use Errors.*
unfoldable pub use Bounds.*
pub use Normalizing.{normalize_limits_idem}
unfoldable pub use Encoding.*
