-- ===== src/Wrapper.antt =====
-- The package lib: thin wrappers around liblzma.
pub mod Tests
pub mod Error
pub mod Filter
pub mod Block
pub mod Check
pub mod Stream
pub mod Container
pub mod Flags
pub mod Index
