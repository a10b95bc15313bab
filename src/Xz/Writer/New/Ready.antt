-- ===== src/Xz/Writer/New/Ready.antt =====
-- What NewWriterCustom returns in the block mode.
use goxz.Base.{ℕ, ◌≡◌, refl, sym, ◌∙◌, ◌≤◌, false, if◌then◌else◌, arith, subst}
use goxz.Base.Int.{ℤ, pos, negsuc, ltb_ℤ, ◌==ℤ◌}
use goxz.Go.{Res, ok, ok-inj, ok-of-bind}
use goxz.Errs.{Errs}
use goxz.Wrapper.Flags.{new_stream_flags, header_encode as flags_header_encode}
use goxz.Xz.Const.{chunk_stream}
use goxz.Xz.Literal.{literal_block_size}
use goxz.Xz.Writer.Encode.{WriterApi, Writer}
use goxz.Xz.Writer.New.{
  clamp_chunk, alloc_size, make_index, writer_filters, write_out, fresh_writer, open_writer,
}

clamp_chunk-pos :
    (size : ℤ)
    → ltb_ℤ size (pos 0) ≡ false
    → (clamp_chunk size ≡ pos (alloc_size (clamp_chunk size)))
      × (65536 ≤ alloc_size (clamp_chunk size))
      × (alloc_size (clamp_chunk size) ≤ 1073741824)
unfolding clamp_chunk
clamp_chunk-pos (pos n) h = (ground arith, ground arith, ground arith)
clamp_chunk-pos (negsuc n) h = absurd (ground arith)

-- A writer with an empty input pipe, of the size of a chunk.
pub record IsReady (api : WriterApi) (errs : Errs) (n : ℕ) (w : Writer api errs) : Type 0 where
  pub is_open : w.closed ≡ false
  pub chunk : w.chunk_size ≡ pos n
  pub lowest : 65536 ≤ n
  pub highest : n ≤ 1073741824
  pub size : api.pipes.capacity w.rd_buf ≡ n
  pub room : api.pipes.room w.rd_buf ≡ n
  pub empty : api.pipes.pipe_length w.rd_buf ≡ 0

module _ (api : WriterApi) (errs : Errs) where
  open api use {lz, pipes}

  not_stream :
      (c : ℤ) (n : ℕ) (streamed : Res (Writer api errs)) (f w : Writer api errs)
      → c ≡ pos n
      → (if c ==ℤ chunk_stream then streamed else ok f) ≡ ok w
      → f ≡ w
  not_stream (pos m) n streamed f w h e =
      let k : (pos m ==ℤ chunk_stream) ≡ false = ground arith in
      ok-inj f w ((λ i. if sym k i then streamed else ok f) ∙ e)
  not_stream (negsuc m) n streamed f w h e = absurd (ground arith)

  -- NewWriterCustom with a chunk size that is not negative, if it returns a writer, returns an open
  -- one whose input pipe is empty and has the size of a chunk, between ChunkLowest and ChunkHighest.
  pub open_writer-IsReady :
      (wr : api.stream_api.Writer) (check size : ℤ) (w : Writer api errs)
      → ltb_ℤ size (pos 0) ≡ false
      → open_writer api errs wr check size ≡ ok w
      → IsReady api errs (alloc_size (clamp_chunk size)) w
  unfolding open_writer
  open_writer-IsReady wr check size w h e =
      let n = alloc_size (clamp_chunk size) in
      let (c, lo, hi) = clamp_chunk-pos size h in
      let (max, _, e1) = ok-of-bind (literal_block_size lz errs check (clamp_chunk size)) _ e in
      let flags =
        flags_header_encode api.flags_api (new_stream_flags api.flags_api.constants) check in
      let (u, _, e2) = ok-of-bind (errs.panic flags.2) _ e1 in
      let (index, _, e3) = ok-of-bind (make_index api errs) _ e2 in
      let (filters, _, e4) = ok-of-bind (writer_filters api errs (clamp_chunk size)) _ e3 in
      let (wr1, _, e5) = ok-of-bind (write_out api errs wr flags.1) _ e4 in
      let fresh = fresh_writer api errs wr1 flags.0 index filters (clamp_chunk size) max in
      subst (IsReady api errs n) (not_stream (clamp_chunk size) n _ fresh w c e5) (record {
        is_open = refl;
        chunk = c;
        lowest = lo;
        highest = hi;
        size = pipes.capacity_new n;
        room = pipes.room_new n;
        empty = pipes.length_new n;
      })
