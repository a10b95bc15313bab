-- ===== src/Xz.antt =====
-- The package xz: reading and writing files in the XZ format.
pub mod Const
pub mod Literal
pub mod PipeSet
pub mod Pool
pub mod WorkerPool
pub mod Index
pub mod SeekReader
pub mod Writer
pub mod Reader
