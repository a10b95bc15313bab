-- ===== src/Xz/Writer/Tests.antt =====
-- Runs of the writer with chunks of four bytes, and its theorems at concrete inputs.
use goxz.Base.{ℕ, ◌≤◌, ◌≡◌, ◌≢◌, ◌⊎◌, refl, arith, false, List, [], ◌∷◌, Option, none}
use goxz.Base.Int.{pos}
use goxz.Go.{Err, ok}
use goxz.Instances.{lzma_h, plain_errs}
use goxz.Instances.Pipes.{tiny_writer, new_line}
use goxz.Wrapper.Flags.{new_stream_flags}
use goxz.Xz.Writer.Encode.{Writer}
use goxz.Xz.Writer.Sync.{write_loop, write_round, write_blocks, settle, recovered}
use goxz.Xz.Writer.Sync.Count.{write_blocks-count}
use goxz.Xz.Writer.Sync.Bytewise.{put_bytes, write_loop-put_bytes}

abbrev pub reader : List ℕ → List ℕ
reader bytes = bytes

abbrev pub small_writer : Writer tiny_writer plain_errs
small_writer = record {
  wr = [];
  flags = new_stream_flags lzma_h;
  index = [];
  filters = record { filters = []; options = []; size = 0 };
  closed = false;
  chunk_size = pos 4;
  max_size = pos 40;
  block = none;
  stream = none;
  rd_buf = new_line 4;
  wr_buf = new_line 40;
}

write_loop-put_bytes_example :
    write_loop tiny_writer plain_errs reader 7 9 (2 ∷ 3 ∷ 4 ∷ 5 ∷ 6 ∷ 7 ∷ []) (small_writer, 0)
    ≡ put_bytes tiny_writer plain_errs reader 9 (2 ∷ 3 ∷ 4 ∷ 5 ∷ 6 ∷ 7 ∷ []) (small_writer, 0)
write_loop-put_bytes_example =
    write_loop-put_bytes tiny_writer plain_errs reader 9 7 (2 ∷ 3 ∷ 4 ∷ 5 ∷ 6 ∷ 7 ∷ []) small_writer
      0 (omega arith) (omega arith) (omega arith)

abbrev one_written : Writer tiny_writer plain_errs
one_written = record small_writer { rd_buf = record (new_line 4) { pending = 8 ∷ 9 ∷ [] } }

two_bytes_written :
    write_blocks tiny_writer plain_errs reader 9 small_writer (8 ∷ 9 ∷ [])
    ≡ ok (one_written, 2, none)
unfolding write_blocks write_loop write_round settle recovered
two_bytes_written = refl

write_blocks-count_example : (2 ≤ 2) × (◌≡◌ {A = ℕ} 2 2 ⊎ (◌≢◌ {A = Option Err} none none))
write_blocks-count_example =
    write_blocks-count tiny_writer plain_errs reader 9 (8 ∷ 9 ∷ []) small_writer one_written 2 none
      (omega arith) two_bytes_written
