-- ===== src/Liblzma/Consts.antt =====
-- The constants of lzma.h that the package lib names.
use goxz.Base.{ℕ}
use goxz.Base.Int.{ℤ}

pub record Constants : Type 0 where
  pub lzma_ok : ℕ
  pub lzma_stream_end : ℕ
  pub lzma_no_check : ℕ
  pub lzma_unsupported_check : ℕ
  pub lzma_get_check : ℕ
  pub lzma_mem_error : ℕ
  pub lzma_memlimit_error : ℕ
  pub lzma_format_error : ℕ
  pub lzma_options_error : ℕ
  pub lzma_data_error : ℕ
  pub lzma_buf_error : ℕ
  pub lzma_prog_error : ℕ
  pub lzma_run : ℕ
  pub lzma_finish : ℕ
  pub lzma_preset_default : ℕ
  pub lzma_check_none : ℕ
  pub lzma_check_crc32 : ℕ
  pub lzma_check_crc64 : ℕ
  pub lzma_check_sha256 : ℕ
  pub lzma_filter_lzma2 : ℕ
  pub lzma_filters_max : ℕ
  pub lzma_vli_unknown : ℤ
  pub lzma_stream_header_size : ℕ
  pub lzma_block_header_size_min : ℕ
  pub lzma_block_header_size_max : ℕ
