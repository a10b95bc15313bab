-- ===== src/Liblzma/Structs.antt =====
-- lzma_options_lzma, lzma_filter, lzma_block and lzma_stream_flags: the fields that the package lib
-- reads or writes. A pointer to a structure that nothing changes afterwards is its value.
use goxz.Base.{ℕ, List, Option}

-- The encoder options: what the preset fills in, and the one field that the package changes.
pub record COptions : Type 0 where
  pub preset : ℕ
  pub dict_size : ℕ

-- A null pointer to options is `none`.
pub record CFilter : Type 0 where
  pub id : ℕ
  pub options : Option COptions

-- LZMA_CHECK_SIZE_MAX, the length of the array for the check of a block.
abbrev pub check_size_max : ℕ
check_size_max = 64

pub record CBlock : Type 0 where
  pub version : ℕ
  pub header_size : ℕ
  pub check : ℕ
  pub compressed_size : ℕ
  pub uncompressed_size : ℕ
  pub raw_check : List ℕ
  pub filters : List CFilter

pub record CFlags : Type 0 where
  pub version : ℕ
  pub backward_size : ℕ
  pub check : ℕ
