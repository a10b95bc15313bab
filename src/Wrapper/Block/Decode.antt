-- ===== src/Wrapper/Block/Decode.antt =====
-- lib/block.go: what reads a block, its header and its sizes.
use goxz.Base.{ℕ, ◌%◌, ◌^◌, ◌||◌, List, length, Option, none, some, ltb, if◌then◌else◌}
use goxz.Base.Int.{ℤ, to_u64, of_u64}
use goxz.Go.{Err, lib, Res, ok, fail, message}
use goxz.Liblzma.Structs.{CBlock}
use goxz.Wrapper.Block.{Block, set_header_size}
use goxz.Wrapper.Error.{new_error}
use goxz.Wrapper.Stream.{StreamApi, Stream, new_stream}

-- liblzma's functions on a block: a status, and the block or the coder that they leave.
pub record BlockApi : Type 1 where
  pub stream_api : StreamApi
  pub lzma_block_header_size_decode : ℕ → ℕ
  pub lzma_block_header_decode : CBlock → List ℕ → ℕ × CBlock
  pub lzma_block_encoder : CBlock → ℕ × stream_api.Coder
  pub lzma_block_decoder : CBlock → ℕ × stream_api.Coder
  pub lzma_block_compressed_size : CBlock → ℕ → ℕ × CBlock
  pub lzma_block_unpadded_size : CBlock → ℕ
  pub lzma_block_total_size : CBlock → ℕ
  pub lzma_block_buffer_bound : ℕ → ℕ

module _ (api : BlockApi) where
  open api use {stream_api}

  -- The filters of the block point to the array of the Go object.
  abbrev pub set_block : Block → CBlock → Block
  set_block b c = record b { block = c; filters = record (b.filters) { filters = c.filters } }

  unfoldable pub made_stream : ℕ × stream_api.Coder → Option (Stream stream_api) × Option Err
  made_stream (ret, coder) = elim (new_error stream_api.constants ret) [
    | some e ↦ (none, some e)
    | none ↦ (some (new_stream stream_api coder), none)
  ]

  new_stream_encoder : Block → Option (Stream stream_api) × Option Err
  new_stream_encoder b = made_stream (api.lzma_block_encoder b.block)

  unfoldable pub new_stream_decoder : Block → Option (Stream stream_api) × Option Err
  unfolding made_stream
  new_stream_decoder b = made_stream (api.lzma_block_decoder b.block)

  -- A byte of the header; the block, the size and the error.
  unfoldable pub header_size_decode : Block → ℕ → Block × ℕ × Option Err
  header_size_decode b val =
      let size = api.lzma_block_header_size_decode (val % 2 ^ 8) in
      let c = stream_api.constants in
      if ltb size c.lzma_block_header_size_min || ltb c.lzma_block_header_size_max size
      then (b, size, some (lib c.lzma_data_error))
      else (set_header_size b size, size, none)

  unfoldable pub header_decode : Block → List ℕ → Res (Block × Option Err)
  header_decode b bytes =
      let (ret, c) = api.lzma_block_header_decode b.block bytes in
      if ltb (length bytes) b.block.header_size
      then fail message
      else ok (set_block b c, new_error stream_api.constants ret)

  -- The block as liblzma leaves it, the compressed size and the error.
  compressed_size : Block → ℤ → Block × ℤ × Option Err
  compressed_size b unpad_size =
      let (ret, c) = api.lzma_block_compressed_size b.block (to_u64 unpad_size) in
      (set_block b c, of_u64 c.compressed_size, new_error stream_api.constants ret)

  unpadded_size : Block → ℤ
  unpadded_size b = of_u64 (api.lzma_block_unpadded_size b.block)

  total_size : Block → ℤ
  total_size b = of_u64 (api.lzma_block_total_size b.block)

  block_buffer_bound : ℤ → ℤ
  block_buffer_bound uncompress_size = of_u64 (api.lzma_block_buffer_bound (to_u64 uncompress_size))
