-- ===== src/Lzma.antt =====
-- The package lzma: the reader and the writer of the LZMA_ALONE format.
pub mod Reader
pub mod Writer
pub mod Tests
