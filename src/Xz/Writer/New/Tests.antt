-- ===== src/Xz/Writer/New/Tests.antt =====
-- A run of NewWriterCustom, and the theorems on the writer that it returns.
use goxz.Base.{ℕ, ◌≡◌, refl, arith, false, List, [], ◌∷◌, replicate, Option, some, none}
use goxz.Base.Int.{pos, to_u64, ◌+ℤ◌, ◌-ℤ◌, ◌*ℤ◌, ◌/ℤ◌, ◌%ℤ◌}
use goxz.Go.{ok}
use goxz.Go.Action.{◌>>=◌}
use goxz.Go.Slice.{update_at}
use goxz.Instances.{lzma_h, plain_errs}
use goxz.Instances.Pipes.{tiny_writer, new_line}
use goxz.Wrapper.Block.{header_size}
use goxz.Wrapper.Error.{new_error}
use goxz.Wrapper.Filter.{Filters, new_filters, new_options_lzma, append, pointer}
use goxz.Wrapper.Flags.{new_stream_flags, header_encode}
use goxz.Xz.Literal.{literal_check_support, literal_comp_size, literal_filters, literal_block_size}
use goxz.Xz.Writer.Encode.{Writer}
use goxz.Xz.Writer.New.{open_writer, clamp_chunk, fit_dict, writer_filters, make_index, write_out}
use goxz.Xz.Writer.New.Written.{open_writer-chunks}
use goxz.Xz.Writer.Sync.{close_blocks}
use goxz.Xz.Writer.Sync.Chunks.{Chunked, last, write_all, encode_chunks}

abbrev reader : List ℕ → List ℕ
reader bytes = bytes

abbrev chunk_filters : Filters
chunk_filters = record {
  filters =
      record { id = 0x21; options = some (record { preset = 6; dict_size = 65536 }) }
      ∷ record { id = 18446744073709551615; options = Option.none }
      ∷ replicate 3 (record { id = 0; options = Option.none });
  options = some (record { preset = 6; dict_size = 65536 }) ∷ [];
  size = 1;
}

-- The writer that NewWriterCustom returns for chunks of the lowest size, with the check CRC64.
abbrev opened : Writer tiny_writer plain_errs
opened = record {
  wr = replicate 12 1;
  flags = record (new_stream_flags lzma_h) { check = 4 };
  index = [];
  filters = chunk_filters;
  closed = false;
  chunk_size = pos 65536;
  max_size = pos 65568;
  block = none;
  stream = none;
  rd_buf = new_line 65536;
  wr_buf = new_line 65568;
}

opened_lem : open_writer tiny_writer plain_errs [] (pos 4) (pos 0) ≡ ok opened
unfolding open_writer clamp_chunk fit_dict writer_filters make_index write_out literal_block_size
    literal_check_support literal_comp_size literal_filters new_filters new_options_lzma append
    pointer update_at header_size header_encode new_error to_u64 ◌+ℤ◌ ◌-ℤ◌ ◌*ℤ◌ ◌/ℤ◌ ◌%ℤ◌
opened_lem = refl

five_bytes-Chunked : Chunked 65536 (2 ∷ 3 ∷ 4 ∷ 5 ∷ 6 ∷ []) ((2 ∷ 3 ∷ 4 ∷ 5 ∷ 6 ∷ []) ∷ [])
five_bytes-Chunked = last (omega arith) (omega arith)

open_writer-chunks_example :
    (write_all tiny_writer plain_errs reader 9 ((2 ∷ 3 ∷ 4 ∷ []) ∷ (5 ∷ 6 ∷ []) ∷ []) >>= λ _.
    close_blocks tiny_writer plain_errs reader 9)
      opened
    ≡ encode_chunks tiny_writer plain_errs reader 9 ((2 ∷ 3 ∷ 4 ∷ 5 ∷ 6 ∷ []) ∷ []) opened
unfolding clamp_chunk
open_writer-chunks_example =
    open_writer-chunks tiny_writer plain_errs reader [] (pos 4) (pos 0) opened 9
      ((2 ∷ 3 ∷ 4 ∷ []) ∷ (5 ∷ 6 ∷ []) ∷ []) ((2 ∷ 3 ∷ 4 ∷ 5 ∷ 6 ∷ []) ∷ []) refl opened_lem
      five_bytes-Chunked
