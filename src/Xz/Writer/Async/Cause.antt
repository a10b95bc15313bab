-- ===== src/Xz/Writer/Async/Cause.antt =====
-- The panics that may take the program down, at the step that raises them.
use goxz.Base.{◌∷◌, none, ℕ, ◌≡◌, false, List, some}
use goxz.Base.Int.{negsuc}
use goxz.Errs.{Errs}
use goxz.Go.{Fault, message, bounds, ok, fail}
use goxz.Xz.PipeSet.{Pipe}
use goxz.Xz.Writer.Async.{
  AsyncApi, SizeStats, peek, holding, encoding, writing, waiting, woken, World,
}
use goxz.Xz.Writer.Async.Calls.{check_err}
use goxz.Xz.Writer.Async.Routines.{get_worker, all_gone}
use goxz.Xz.Writer.Async.Run.{Label, drain, client, worker}
use goxz.Xz.Writer.Encode.{block_encode}
use goxz.Xz.Writer.Sync.{close_output}

module _ (api : AsyncApi) (errs : Errs) (slice_reader : List ℕ → api.stream_api.Reader)
    (fuel : ℕ) where
  open api use {writer_api, pipes}

  -- A worker's encoder fails, on the two pipes that the worker has, in a way that Recover lets pass;
  -- the writing of the stream's end, the index and the footer does, in Close; Write or a worker asks
  -- for a pipe of a negative size; or the worker pool has started workers after the last one had left
  -- and before the routine that waits for them has gone on.
  pub data Cause (s : World api errs) : Label → Fault → Type 0 where
    of_block :
        (k choice i : ℕ) (p q : Pipe (pipes.BufferPipe) SizeStats) (f g : Fault)
        → get_worker k s.workers ≡ encoding i
        → peek i s.in_pool ≡ some p
        → peek i s.out_pool ≡ some q
        → (block_encode writer_api errs fuel s.w.flags s.w.filters s.w.chunk_size s.w.max_size
            (record { wr_buf = q.buffer_pipe; rd_buf = p.buffer_pipe })).0
          ≡ fail f
        → errs.recover f ≡ fail g
        → Cause s (worker k choice) g
    of_index :
        (choice : ℕ) (s' : World api errs) (f g : Fault)
        → s.client ≡ waiting
        → check_err api errs s ≡ some (s', ok tt)
        → (close_output writer_api errs slice_reader fuel s'.w).0 ≡ fail f
        → errs.recover f ≡ fail g
        → Cause s (client choice) g
    of_make :
        (choice n b cnt : ℕ) (bs : List ℕ) (g : Fault)
        → s.client ≡ writing (b ∷ bs) cnt
        → s.pipe ≡ none
        → s.w.chunk_size ≡ negsuc n
        → errs.recover bounds ≡ fail g
        → Cause s (client choice) g
    of_make_out :
        (k choice i n : ℕ)
        → get_worker k s.workers ≡ holding i
        → s.w.max_size ≡ negsuc n
        → Cause s (worker k choice) bounds
    of_reuse : s.group ≡ woken → all_gone s.workers ≡ false → Cause s drain message
