-- ===== src/Xz/Reader.antt =====
-- xz/reader.go: the reader. Its asynchronous mode is not written yet in the source.
pub mod State
pub mod Full
pub mod Read
pub mod Sound
pub mod Rounds
pub mod Moves
pub mod Machine
pub mod Outcome
mod Tests
pub mod Ready
