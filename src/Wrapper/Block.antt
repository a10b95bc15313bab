-- ===== src/Wrapper/Block.antt =====
-- lib/block.go: the block structure, and its header.
pub mod Decode
pub mod RawCheck
use goxz.Base.{ℕ, ◌%◌, ◌^◌, List, ◌++◌, length, drop, replicate, Option, ltb, if◌then◌else◌}
use goxz.Base.Int.{ℤ, pos, to_u64, of_u64}
use goxz.Go.{Err, Res, ok, fail, message}
use goxz.Liblzma.{Liblzma}
use goxz.Liblzma.Consts.{Constants}
use goxz.Liblzma.Structs.{CBlock, check_size_max}
use goxz.Wrapper.Error.{new_error}
use goxz.Wrapper.Filter.{Filters, new_filters}

pub record Block : Type 0 where
  pub block : CBlock
  pub filters : Filters

-- C.lzma_check(check)
abbrev pub c_check : ℤ → ℕ
c_check check = to_u64 check % 2 ^ 32

unfoldable pub new_block_custom : ℤ → Filters → ℤ → ℤ → Block
new_block_custom check filters compress_size uncompress_size = record {
  block = record {
    version = 0;
    header_size = 0;
    check = c_check check;
    compressed_size = to_u64 compress_size;
    uncompressed_size = to_u64 uncompress_size;
    raw_check = replicate check_size_max 0;
    filters = filters.filters;
  };
  filters = filters;
}

abbrev pub set_header_size : Block → ℕ → Block
set_header_size b n = record b { block = record (b.block) { header_size = n } }

-- The block as liblzma leaves it, the size and the error.
unfoldable pub header_size : Liblzma → Block → Block × ℕ × Option Err
header_size lz b =
    let (ret, n) = lz.lzma_block_header_size b.block in
    (set_header_size b n, n, new_error lz.constants ret)

unfoldable pub header_encode : Liblzma → Block → List ℕ → Res (List ℕ × Option Err)
header_encode lz b out =
    let (ret, bytes) = lz.lzma_block_header_encode b.block in
    if ltb (length out) b.block.header_size
    then fail message
    else ok (bytes ++ drop (length bytes) out, new_error lz.constants ret)

unfoldable pub new_block : Constants → ℤ → Block
new_block c check = new_block_custom check (new_filters c) c.lzma_vli_unknown c.lzma_vli_unknown

get_header_size : Block → ℤ
get_header_size b = pos (b.block.header_size)

get_compressed_size : Block → ℤ
get_compressed_size b = of_u64 (b.block.compressed_size)

set_compressed_size : Block → ℤ → Block
set_compressed_size b size = record b { block = record (b.block) { compressed_size = to_u64 size } }

get_uncompressed_size : Block → ℤ
get_uncompressed_size b = of_u64 (b.block.uncompressed_size)

set_uncompressed_size : Block → ℤ → Block
set_uncompressed_size b size = record b {
  block = record (b.block) { uncompressed_size = to_u64 size };
}

-- The structure points to the array of the filters.
set_filters : Block → Filters → Block
set_filters b filters = record b {
  block = record (b.block) { filters = filters.filters };
  filters = filters;
}

get_version : Block → ℤ
get_version b = pos (b.block.version)

unfoldable pub get_check : Block → ℤ
get_check b = pos (b.block.check)

set_check : Block → ℤ → Block
set_check b check = record b { block = record (b.block) { check = c_check check } }

get_filters : Block → Filters
get_filters b = b.filters
