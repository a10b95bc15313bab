-- ===== src/Wrapper/Index/Iter.antt =====
-- lib/index.go: the sizes of an index, and the iterators over its streams and blocks.
use goxz.Base.{ℕ, ◌%◌, ◌^◌, Bool, not, Option, ◌==◌}
use goxz.Base.Int.{ℤ, to_u64, of_u64}
use goxz.Liblzma.Structs.{CFlags}
use goxz.Wrapper.Index.{IndexLib, World, content}

-- The fields of the stream and of the block that an lzma_index_iter points at. The flags may be a
-- null pointer.
pub record IterStream : Type 0 where
  pub flags : Option CFlags
  pub number : ℕ
  pub block_count : ℕ
  pub compressed_size : ℕ
  pub uncompressed_size : ℕ
  pub padding : ℕ

pub record IterBlock : Type 0 where
  pub number_in_file : ℕ
  pub number_in_stream : ℕ
  pub compressed_file_offset : ℕ
  pub uncompressed_file_offset : ℕ
  pub compressed_stream_offset : ℕ
  pub uncompressed_stream_offset : ℕ
  pub uncompressed_size : ℕ
  pub unpadded_size : ℕ
  pub total_size : ℕ

-- liblzma's functions that read an index, and those that move an iterator, whose own state is a
-- parameter; a call returns the iterator, and an lzma_bool.
pub record IterLib : Type 1 where
  pub index_lib : IndexLib
  pub open index_lib use {CIndex}
  pub CIter : Type 0
  pub lzma_index_stream_count : Option CIndex → ℕ
  pub lzma_index_block_count : Option CIndex → ℕ
  pub lzma_index_size : Option CIndex → ℕ
  pub lzma_index_stream_size : Option CIndex → ℕ
  pub lzma_index_total_size : Option CIndex → ℕ
  pub lzma_index_file_size : Option CIndex → ℕ
  pub lzma_index_uncompressed_size : Option CIndex → ℕ
  pub lzma_index_checks : Option CIndex → ℕ
  pub lzma_index_iter_init : Option CIndex → CIter
  pub lzma_index_iter_next : CIter → ℕ → CIter × ℕ
  pub lzma_index_iter_locate : CIter → ℕ → CIter × ℕ
  pub lzma_index_iter_rewind : CIter → CIter
  pub iter_stream : CIter → IterStream
  pub iter_block : CIter → IterBlock

module _ (api : IterLib) where
  open api use {index_lib, CIter}

  -- The accessors: what liblzma computes, as an int64.
  stream_count : World index_lib → ℕ → ℤ
  stream_count w i = of_u64 (api.lzma_index_stream_count (content index_lib w i))

  block_count : World index_lib → ℕ → ℤ
  block_count w i = of_u64 (api.lzma_index_block_count (content index_lib w i))

  size : World index_lib → ℕ → ℤ
  size w i = of_u64 (api.lzma_index_size (content index_lib w i))

  stream_size : World index_lib → ℕ → ℤ
  stream_size w i = of_u64 (api.lzma_index_stream_size (content index_lib w i))

  total_size : World index_lib → ℕ → ℤ
  total_size w i = of_u64 (api.lzma_index_total_size (content index_lib w i))

  file_size : World index_lib → ℕ → ℤ
  file_size w i = of_u64 (api.lzma_index_file_size (content index_lib w i))

  uncompressed_size : World index_lib → ℕ → ℤ
  uncompressed_size w i = of_u64 (api.lzma_index_uncompressed_size (content index_lib w i))

  -- A bit for each check that occurs.
  checks : World index_lib → ℕ → ℕ
  checks w i = api.lzma_index_checks (content index_lib w i) % 2 ^ 32

  -- The iterator, and the object that it keeps from the garbage collector.
  pub record IndexIter : Type 0 where
    pub iter : CIter
    pub index : ℕ

  new_iter : World index_lib → ℕ → IndexIter
  new_iter w i = record { iter = api.lzma_index_iter_init (content index_lib w i); index = i }

  -- `mode` is converted to an unsigned enumeration.
  next : IndexIter → ℤ → IndexIter × Bool
  next it mode =
      let (iter, ret) = api.lzma_index_iter_next it.iter (to_u64 mode % 2 ^ 32) in
      (record it { iter = iter }, not (ret == 0))

  locate : IndexIter → ℤ → IndexIter × Bool
  locate it offset =
      let (iter, ret) = api.lzma_index_iter_locate it.iter (to_u64 offset) in
      (record it { iter = iter }, not (ret == 0))

  rewind : IndexIter → IndexIter
  rewind it = record it { iter = api.lzma_index_iter_rewind it.iter }

  -- The stream that the iterator is at.
  get_flags : IndexIter → Option CFlags
  get_flags it = (api.iter_stream it.iter).flags

  get_number : IndexIter → ℤ
  get_number it = of_u64 ((api.iter_stream it.iter).number)

  get_block_count : IndexIter → ℤ
  get_block_count it = of_u64 ((api.iter_stream it.iter).block_count)

  get_stream_compressed_size : IndexIter → ℤ
  get_stream_compressed_size it = of_u64 ((api.iter_stream it.iter).compressed_size)

  get_stream_uncompressed_size : IndexIter → ℤ
  get_stream_uncompressed_size it = of_u64 ((api.iter_stream it.iter).uncompressed_size)

  get_padding : IndexIter → ℤ
  get_padding it = of_u64 ((api.iter_stream it.iter).padding)

  -- The block that the iterator is at.
  get_number_in_file : IndexIter → ℤ
  get_number_in_file it = of_u64 ((api.iter_block it.iter).number_in_file)

  get_number_in_stream : IndexIter → ℤ
  get_number_in_stream it = of_u64 ((api.iter_block it.iter).number_in_stream)

  get_compressed_file_offset : IndexIter → ℤ
  get_compressed_file_offset it = of_u64 ((api.iter_block it.iter).compressed_file_offset)

  get_uncompressed_file_offset : IndexIter → ℤ
  get_uncompressed_file_offset it = of_u64 ((api.iter_block it.iter).uncompressed_file_offset)

  get_compressed_stream_offset : IndexIter → ℤ
  get_compressed_stream_offset it = of_u64 ((api.iter_block it.iter).compressed_stream_offset)

  get_uncompressed_stream_offset : IndexIter → ℤ
  get_uncompressed_stream_offset it = of_u64 ((api.iter_block it.iter).uncompressed_stream_offset)

  get_block_uncompressed_size : IndexIter → ℤ
  get_block_uncompressed_size it = of_u64 ((api.iter_block it.iter).uncompressed_size)

  get_unpadded_size : IndexIter → ℤ
  get_unpadded_size it = of_u64 ((api.iter_block it.iter).unpadded_size)

  get_total_size : IndexIter → ℤ
  get_total_size it = of_u64 ((api.iter_block it.iter).total_size)
