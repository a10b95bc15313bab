-- ===== src/Xz/Writer/New/Written.antt =====
-- From NewWriterCustom to the blocks that are encoded.
use goxz.Base.{ℕ, ◌≡◌, arith, false, List}
use goxz.Base.Int.{ℤ, pos, ltb_ℤ}
use goxz.Go.{ok}
use goxz.Go.Action.{◌>>=◌}
use goxz.Errs.{Errs}
use goxz.Xz.Writer.Encode.{WriterApi, Writer}
use goxz.Xz.Writer.New.{clamp_chunk, alloc_size, open_writer}
use goxz.Xz.Writer.New.Ready.{open_writer-IsReady}
use goxz.Xz.Writer.Sync.{close_blocks}
use goxz.Xz.Writer.Sync.Chunks.{Chunked, flat, write_all, encode_chunks, write_all-chunks}

module _ (api : WriterApi) (errs : Errs) (slice_reader : List ℕ → api.stream_api.Reader) where
  -- On the writer that NewWriterCustom returns for a chunk size that is not negative, the calls of
  -- Write on one slice after another and what Close does first encode exactly the chunks of what was
  -- written, each of the size that NewWriterCustom has settled on, in order; the writer, its pipes,
  -- its index, what is sent, and the panic of a block that fails are the same.
  pub open_writer-chunks :
      (wr : api.stream_api.Writer) (check size : ℤ) (w : Writer api errs) (fuel : ℕ)
      (ds cs : List (List ℕ))
      → ltb_ℤ size (pos 0) ≡ false
      → open_writer api errs wr check size ≡ ok w
      → Chunked (alloc_size (clamp_chunk size)) (flat ds) cs
      → (write_all api errs slice_reader fuel ds >>= λ _. close_blocks api errs slice_reader fuel) w
        ≡ encode_chunks api errs slice_reader fuel cs w
  open_writer-chunks wr check size w fuel ds cs h e c =
      let v = open_writer-IsReady api errs wr check size w h e in
      let lo = v.lowest in
      write_all-chunks api errs slice_reader fuel (alloc_size (clamp_chunk size)) ds cs w c
        (omega arith) v.size v.room v.empty
