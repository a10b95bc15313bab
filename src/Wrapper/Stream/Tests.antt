-- ===== src/Wrapper/Stream/Tests.antt =====
-- Process between a source and a sink that remember their bytes.
use goxz.Base.{◌≡◌, refl, arith, [], ◌∷◌, some, Option}
use goxz.Go.{Err, eof, ok}
use goxz.Instances.Log.{log_stream, log_laws, log_ends}
use goxz.Wrapper.Stream.{
  Stream, new_stream, call, process, process_loop, fill, drain, code_slice, switch_errs,
}
use goxz.Wrapper.Error.{new_error}
use goxz.Wrapper.Stream.Conserve.{Moved}
use goxz.Wrapper.Stream.Conserve.Loops.{Ended, process-Moved}
use goxz.Wrapper.Stream.Ends.{ahead}
use goxz.Wrapper.Stream.Ends.Loop.{process_returns}

abbrev copying : Stream log_stream
copying = new_stream log_stream []

-- The stream, when the three bytes of the source have been copied.
abbrev copied : Stream log_stream
copied = record copying {
  coder = 5 ∷ 6 ∷ 7 ∷ [];
  in_buf = some [];
  out_buf = some [];
  src = some (5 ∷ 6 ∷ 7 ∷ [], []);
  dst = some (5 ∷ 6 ∷ 7 ∷ []);
  in_cnt = 3;
  out_cnt = 3;
  rd_err = some eof;
}

copy_run :
    process log_stream 9 0 (call log_stream copying (some []) (some ([], 5 ∷ 6 ∷ 7 ∷ [])))
    ≡ ok (copied, some eof)
unfolding process process_loop fill drain code_slice switch_errs new_error
copy_run = refl

process-Moved_example :
    Moved log_stream log_laws (call log_stream copying (some []) (some ([], 5 ∷ 6 ∷ 7 ∷ []))) copied
    × Ended log_stream log_laws copied (some eof)
process-Moved_example =
    process-Moved log_stream log_laws 9 0 copying copied (some []) (some ([], 5 ∷ 6 ∷ 7 ∷ []))
      (some eof) refl copy_run

process_returns_example :
    (z' : Stream log_stream) × (err : Option Err) × (process log_stream 9 0
        (call log_stream copying (some []) (some ([], 5 ∷ 6 ∷ 7 ∷ [])))
      ≡ ok (z', err))
    × Moved log_stream log_laws (call log_stream copying (some []) (some ([], 5 ∷ 6 ∷ 7 ∷ []))) z'
    × Ended log_stream log_laws z' err
unfolding ahead
process_returns_example =
    process_returns log_stream log_laws log_ends 9 0 copying [] ([], 5 ∷ 6 ∷ 7 ∷ []) (omega arith)
