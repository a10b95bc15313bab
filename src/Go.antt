-- ===== src/Go.antt =====
-- What the packages use of Go itself: error values, panics, and byte slices that a function writes.
pub mod Slice
pub mod Outcome
pub mod Action
pub use Outcome.*
