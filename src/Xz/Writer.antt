-- ===== src/Xz/Writer.antt =====
-- xz/writer.go: the writer, in its synchronous modes.
pub mod Encode
pub mod Sync
pub mod New
pub mod Async
pub mod Tests
