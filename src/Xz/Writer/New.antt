-- ===== src/Xz/Writer/New.antt =====
-- xz/writer.go: NewWriterCustom, for a synchronous writer.
pub mod Ready
pub mod Written
mod Tests
use goxz.Base.{
  ℕ, ◌<◌, ◌≤◌, ◌≡◌, Bool, true, false, ◌&&◌, List, [], ◌∷◌, replicate, Option, none, some,
  if◌then◌else◌, arith,
}
use goxz.Base.Int.{ℤ, pos, negsuc, ltb_ℤ, ◌==ℤ◌, to_u64}
use goxz.Go.{Err, nil_pointer, Res, ok, fail, ◌>>=◌, ◌>>◌}
use goxz.Errs.{Errs}
use goxz.Liblzma.Structs.{COptions, CFlags}
use goxz.Wrapper.Block.{Block, header_size, header_encode}
use goxz.Wrapper.Error.{new_error}
use goxz.Wrapper.Filter.{Filters, new_filters, new_options_lzma, set_dict_size, append}
use goxz.Wrapper.Flags.{new_stream_flags, header_encode as flags_header_encode}
use goxz.Wrapper.Stream.{Stream, new_stream}
use goxz.Xz.Const.{chunk_stream, chunk_lowest, chunk_highest}
use goxz.Xz.Literal.{literal_block_size}
use goxz.Xz.Writer.Encode.{WriterApi, Writer, block_init}

-- The switch on chunkSize.
unfoldable pub clamp_chunk : ℤ → ℤ
clamp_chunk size =
    if ltb_ℤ size (pos 0)
    then chunk_stream
    else if ltb_ℤ size chunk_lowest
    then chunk_lowest
    else if ltb_ℤ chunk_highest size
    then chunk_highest
    else size

-- The dictionary is not made larger than a chunk.
unfoldable pub fit_dict : ℤ → COptions → COptions
fit_dict chunk_size opts =
    if ltb_ℤ (pos 0) chunk_size && ltb_ℤ chunk_size (pos opts.dict_size)
    then set_dict_size opts (to_u64 chunk_size)
    else opts

-- make([]byte, n) of an int that is not negative.
abbrev pub alloc_size : ℤ → ℕ
alloc_size (pos n) = n
alloc_size (negsuc n) = 0

module _ (api : WriterApi) (errs : Errs) where
  open api use {stream_api, pipes, lz}

  -- The LZMA2 filter with the options of the default preset: the level is not read.
  pub writer_filters : ℤ → Res Filters
  writer_filters chunk_size = do
    let (opts, err) = new_options_lzma lz (pos lz.constants.lzma_preset_default)
    errs.panic err
    made ← elim opts as (λ _. Res COptions) [ none ↦ fail nil_pointer | some o ↦ ok o ]
    append lz.constants (new_filters lz.constants) (pos lz.constants.lzma_filter_lzma2)
        (some (fit_dict chunk_size made))

  pub make_index : Res api.Index
  make_index = elim api.lzma_index_init [
    | some index ↦ ok index
    | none ↦
        errs.panic (new_error stream_api.constants stream_api.constants.lzma_mem_error)
        >> fail nil_pointer
  ]

  pub write_out : stream_api.Writer → List ℕ → Res stream_api.Writer
  write_out wr bytes = let (wr', n, err) = stream_api.write wr bytes in errs.panic err >> ok wr'

  -- The block of the streamed mode: its header is written at once.
  pub start_stream : Writer api errs → Res (Writer api errs)
  start_stream w = do
    let unknown = lz.constants.lzma_vli_unknown
    let (block, size, err) = header_size lz (block_init api errs w.flags w.filters unknown unknown)
    errs.panic err
    (bytes, err1) ← header_encode lz block (replicate size 0)
    errs.panic err1
    wr1 ← write_out w.wr bytes
    let (ret, coder) = api.lzma_block_encoder block.block
    errs.panic (new_error stream_api.constants ret)
    ok (record w { wr = wr1; block = some block; stream = some (new_stream stream_api coder) })

  -- The writer object. The streamed mode has no pipes: empty ones stand in the record.
  abbrev pub fresh_writer :
      stream_api.Writer → CFlags → api.Index → Filters → ℤ → ℤ → Writer api errs
  fresh_writer wr flags index filters chunk_size max_size = record {
    wr = wr;
    flags = flags;
    index = index;
    filters = filters;
    closed = false;
    chunk_size = chunk_size;
    max_size = max_size;
    block = none;
    stream = none;
    rd_buf = pipes.new_pipe (alloc_size chunk_size);
    wr_buf = pipes.new_pipe (alloc_size max_size);
  }

  -- The body of NewWriterCustom.
  pub open_writer : stream_api.Writer → ℤ → ℤ → Res (Writer api errs)
  open_writer wr check_type size = do
    let chunk_size = clamp_chunk size
    max_size ← literal_block_size lz errs check_type chunk_size
    let (flags, buf, err) =
        flags_header_encode api.flags_api (new_stream_flags api.flags_api.constants) check_type
    errs.panic err
    index ← make_index
    filters ← writer_filters chunk_size
    wr1 ← write_out wr buf
    let w = fresh_writer wr1 flags index filters chunk_size max_size
    if chunk_size ==ℤ chunk_stream then start_stream w else ok w

  -- The deferred Recover.
  pub new_writer_sync : stream_api.Writer → ℤ → ℤ → Res (Option (Writer api errs) × Option Err)
  new_writer_sync wr check_type size = elim (open_writer wr check_type size) [
    | ok w ↦ ok (some w, none)
    | fail f ↦ errs.recover f >>= λ e. ok (none, some e)
  ]
