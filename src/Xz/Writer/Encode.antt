-- ===== src/Xz/Writer/Encode.antt =====
-- xz/writer.go: the state of the writer, and the encoding of one block between two pipes.
pub mod Capacity
use goxz.Base.{
  ℕ, ◌-◌, ◌≡◌, Bool, true, false, ◌||◌, List, [], ◌∷◌, ◌++◌, take, drop, length, Option, none, some,
  if◌then◌else◌, ◌==◌,
}
use goxz.Base.Int.{ℤ, pos, negsuc, of_u64}
use goxz.Go.{Err, eof, short_write, lib, Res, ok, fail, message, nil_pointer}
use goxz.Go.Action.{Action, pure, lift, gets, modify, ◌>>=◌, ◌>>◌}
use goxz.Errs.{Errs}
use goxz.Bufpipe.Line.{LinePipes}
use goxz.Liblzma.{Liblzma}
use goxz.Liblzma.Structs.{CBlock, CFlags}
use goxz.Wrapper.Block.{Block, new_block_custom, header_size, header_encode}
use goxz.Wrapper.Error.{new_error}
use goxz.Wrapper.Filter.{Filters}
use goxz.Wrapper.Flags.{FlagsApi, get_check}
use goxz.Wrapper.Stream.{StreamApi, Stream}
use goxz.Wrapper.Stream.Pipe.{PipeRun, process_pipe}
use goxz.Xz.Literal.{literal_block_encode}

-- What the writer calls: liblzma's encoders of blocks and indices, the pipes, and any io.Writer.
pub record WriterApi : Type 1 where
  pub stream_api : StreamApi
  pub flags_api : FlagsApi
  pub lz : Liblzma
  pub pipes : LinePipes
  pub sum256 : List ℕ → List ℕ
  pub Index : Type 0
  -- A null pointer is `none`.
  pub lzma_index_init : Option Index
  pub lzma_index_append : Index → ℤ → ℤ → ℕ × Index
  pub lzma_index_encoder : Index → ℕ × stream_api.Coder
  pub lzma_index_size : Index → ℤ
  pub lzma_block_encoder : CBlock → ℕ × stream_api.Coder
  -- The block with the sizes that its coder has stored in it.
  pub coded_block : stream_api.Coder → CBlock → CBlock
  pub lzma_block_unpadded_size : CBlock → ℤ

module _ (api : WriterApi) (errs : Errs) where
  open api use {stream_api, pipes, lz}

  -- The fields of the synchronous modes. A block and a stream are there in the streamed mode only.
  pub record Writer : Type 0 where
    pub wr : stream_api.Writer
    pub flags : CFlags
    pub index : api.Index
    pub filters : Filters
    pub closed : Bool
    pub chunk_size : ℤ
    pub max_size : ℤ
    pub block : Option Block
    pub stream : Option (Stream stream_api)
    pub rd_buf : pipes.BufferPipe
    pub wr_buf : pipes.BufferPipe

  -- The two pipes of an encoding.
  pub record Pipes : Type 0 where
    pub wr_buf : pipes.BufferPipe
    pub rd_buf : pipes.BufferPipe

  pub block_init : CFlags → Filters → ℤ → ℤ → Block
  block_init flags filters comp_size uncomp_size =
      new_block_custom (get_check flags) filters comp_size uncomp_size

  abbrev pub or_keep : pipes.BufferPipe → Option pipes.BufferPipe → pipes.BufferPipe
  or_keep p none = p
  or_keep p (some q) = q

  abbrev pub run_pipe :
      ℕ → ℕ → stream_api.Coder → Bool → Action Pipes (stream_api.Coder × Option Err)
  run_pipe fuel action coder with_src p =
      let begun : PipeRun stream_api pipes = record {
        coder = coder;
        dst = some p.wr_buf;
        src = if with_src then some p.rd_buf else none;
        out_cnt = 0;
        in_cnt = 0;
      } in
      elim (process_pipe stream_api pipes fuel action begun) [
        | fail f ↦ (fail f, p)
        | ok end ↦ (
          ok (end.0.coder, end.1),
          record {
            wr_buf = or_keep p.wr_buf end.0.dst;
            rd_buf = if with_src then or_keep p.rd_buf end.0.src else p.rd_buf;
          },
        )
      ]

  -- The block's data stored verbatim: the unpadded and the uncompressed size.
  pub encode_literal : CFlags → Action Pipes (ℤ × ℤ)
  encode_literal flags p =
      let rd_size = pipes.write_pointer p.rd_buf in
      let input = take rd_size (pipes.buffer p.rd_buf) in
      elim (literal_block_encode lz errs api.sum256 (get_check flags) input
        (pipes.buffer p.wr_buf)) [
          | fail f ↦ (fail f, p)
          | ok done ↦
              let (cnt, pad, output) = done in
              (
                ok (pos (cnt - pad), pos rd_size),
                record p {
                  wr_buf = pipes.write_mark (pipes.rollback (pipes.set_buffer p.wr_buf output)) cnt;
                },
              )
        ]

  -- The header in front of the compressed data.
  pub encode_header : Block → ℕ → Action Pipes (ℤ × ℤ)
  encode_header block size p =
      let whole = pipes.buffer p.wr_buf in
      elim (header_encode lz block (take size whole)) [
        | fail f ↦ (fail f, p)
        | ok stored ↦
            let (bytes, err) = stored in
            let sizes : ℤ × ℤ =
              (api.lzma_block_unpadded_size block.block, of_u64 block.block.uncompressed_size) in
            (
              elim (errs.panic err) [ ok _ ↦ ok sizes | fail f ↦ fail f ],
              record p { wr_buf = pipes.set_buffer p.wr_buf (bytes ++ drop size whole) },
            )
      ]

  -- The block and its encoder, and the size of the header, which is left free. Where liblzma refuses
  -- the block there is no stream, and the deferred stream.End() dereferences nil.
  pub start_encoder : CFlags → Filters → ℤ → ℤ → Action Pipes (Block × ℕ × stream_api.Coder)
  start_encoder flags filters chunk_size max_size = do
    wr_mode ← gets (λ p. pipes.mode p.wr_buf)
    lift (if wr_mode == pipes.line_mono then ok tt else fail message)
    let (block, size, err) = header_size lz (block_init flags filters chunk_size max_size)
    lift (errs.panic err)
    modify (λ p. record p { wr_buf = pipes.write_mark p.wr_buf size })
    let (ret, coder) = api.lzma_block_encoder block.block
    lift (elim (new_error stream_api.constants ret) [ none ↦ ok tt | some e ↦ fail nil_pointer ])
    pure (block, size, coder)

  -- The fuel bounds the rounds of each ProcessPipe.
  pub encode_with : ℕ → CFlags → Block → ℕ → stream_api.Coder → Action Pipes (ℤ × ℤ)
  encode_with fuel flags block size coder = do
    (coder1, err1) ← run_pipe fuel stream_api.constants.lzma_run coder true
    lift (errs.panic (errs.ignore err1 (short_write ∷ eof ∷ [])))
    (coder2, err2) ← run_pipe fuel stream_api.constants.lzma_finish coder1 false
    lift (
        errs.panic (errs.ignore err2 (short_write ∷ lib stream_api.constants.lzma_stream_end ∷ [])))
    let coded : Block = record block { block = api.coded_block coder2 block.block }
    if errs.matches err1 (short_write ∷ []) || errs.matches err2 (short_write ∷ [])
        then encode_literal flags
        else encode_header coded size

  pub block_encode : ℕ → CFlags → Filters → ℤ → ℤ → Action Pipes (ℤ × ℤ)
  block_encode fuel flags filters chunk_size max_size =
      start_encoder flags filters chunk_size max_size >>= λ (block, size, coder).
      encode_with fuel flags block size coder
