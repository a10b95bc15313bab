-- ===== src/Liblzma.antt =====
-- The C library liblzma, which the package lib wraps: its constants, the structures whose fields
-- the package reads or writes, and its functions with their documented behaviour.
pub mod Consts
pub mod Structs
use goxz.Base.{ℕ, ◌+◌, ◌*◌, ◌≤◌, ◌<◌, ◌≡◌, ◌^◌, List, length, Option, none, some}
use Consts.{Constants}
use Structs.{CBlock}

-- A function that writes through a pointer returns what it writes.
pub record Liblzma : Type 0 where
  pub constants : Constants
  pub open constants use *
  -- The dictionary size of a preset; `none` where the preset is refused.
  pub lzma_lzma_preset : ℕ → Option ℕ
  -- The status and the size that it stores in the block.
  pub lzma_block_header_size : CBlock → ℕ × ℕ
  -- The status and the bytes that it stores.
  pub lzma_block_header_encode : CBlock → ℕ × List ℕ
  pub lzma_check_is_supported : ℕ → ℕ
  pub lzma_check_size : ℕ → ℕ
  pub lzma_crc32 : List ℕ → ℕ → ℕ
  pub lzma_crc64 : List ℕ → ℕ → ℕ
  -- "The size must be a multiple of four", from LZMA_BLOCK_HEADER_SIZE_MIN to _MAX.
  pub header_size_multiple :
      (b : CBlock) (n : ℕ)
      → lzma_block_header_size b ≡ (lzma_ok, n)
      → (k : ℕ) × (n ≡ 4 * k) × (n ≤ 1024)
  pub header_encode_length :
      (b : CBlock) (bytes : List ℕ)
      → lzma_block_header_encode b ≡ (lzma_ok, bytes)
      → length bytes ≡ b.header_size
  -- The sizes of check.h.
  pub check_size_none : lzma_check_size lzma_check_none ≡ 0
  pub check_size_crc32 : lzma_check_size lzma_check_crc32 ≡ 4
  pub check_size_crc64 : lzma_check_size lzma_check_crc64 ≡ 8
  pub check_size_sha256 : lzma_check_size lzma_check_sha256 ≡ 32
  pub check_none_u32 : lzma_check_none < 2 ^ 32
  pub check_crc32_u32 : lzma_check_crc32 < 2 ^ 32
  pub check_crc64_u32 : lzma_check_crc64 < 2 ^ 32
  pub check_sha256_u32 : lzma_check_sha256 < 2 ^ 32
