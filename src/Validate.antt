-- ===== src/Validate.antt =====
-- validate.go: the checks that every frame passes on its way in and out.
mod Strings
mod Envelopes
mod Sessions
mod States
mod Frames
unfoldable pub use Strings.*
unfoldable pub use Envelopes.*
unfoldable pub use Sessions.*
unfoldable pub use States.*
unfoldable pub use Frames.*
