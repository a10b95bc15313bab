-- ===== src/Xz/Writer/Async/Calls.antt =====
-- xz/writer.go: Write and Close of an asynchronous writer, and checkErr. A step is what the caller
-- does before another goroutine may come between.
use goxz.Base.{ℕ, ◌+◌, true, List, [], ◌∷◌, drop, Option, none, some, if◌then◌else◌}
use goxz.Base.Int.{pos}
use goxz.Errs.{Errs}
use goxz.Go.{Err, short_write, closed_pipe, error, Res, ok, fail, ◌>>◌}
use goxz.Xz.PipeSet.{Pipe}
use goxz.Xz.Pool.{Turn, waits, returns, get_writer, close as close_pool}
use goxz.Xz.Writer.Async.{
  AsyncApi, bufpipe_of, SizeStats, allocated, poke, peek, set_pipe, ClientAt, outside, writing,
  failing, closing, waiting, World, Outcome, blocked, goes, crashes,
}
use goxz.Xz.Writer.New.{alloc_size}
use goxz.Xz.Writer.Sync.{is_short, close_output}

module _ (api : AsyncApi) (errs : Errs) where
  open api use {writer_api, pipes, stream_api}

  -- The call returns, or panics; the deferred Recover makes an error of most panics.
  unfoldable pub finish : World api errs → ℕ → Res (Unit {0}) → Outcome api errs
  finish s cnt (ok _) = goes (record s { client = outside; result = some (cnt, none) })
  finish s cnt (fail f) = elim (errs.recover f) [
    | ok e ↦ goes (record s { client = outside; result = some (cnt, some e) })
    | fail g ↦ crashes g
  ]

  -- checkErr; `none` while nothing has come through the channel.
  unfoldable pub check_err : World api errs → Option (World api errs × Res (Unit {0}))
  check_err s = elim s.last_err [
    | some e ↦ some (s, fail (error e))
    | none ↦ elim s.err_chan [
      | none ↦ none
      | some e ↦ some (record s { last_err = e; err_chan = some none }, errs.panic e)
    ]
  ]

  unfoldable pub taken :
      World api errs → ℕ → Res (Turn (pipes.BufferPipe) SizeStats) → Outcome api errs
  taken s cnt (fail f) = finish s cnt (fail f)
  taken s cnt (ok (waits pp)) = blocked
  taken s cnt (ok (returns pp none)) = goes (record s { in_pool = pp; client = failing cnt })
  taken s cnt (ok (returns pp (some p))) =
      goes (record s { in_pool = pp; pipe = some s.idx; idx = s.idx + 1 })

  -- w.inPool.getWriter, for the next index.
  unfoldable pub take_pipe : ℕ → World api errs → ℕ → Outcome api errs
  take_pipe choice s cnt = taken s cnt (
      allocated s.w.chunk_size (
        get_writer (bufpipe_of api) choice s.in_pool (pos s.idx) (alloc_size s.w.chunk_size)
          api.line_dual none))

  -- w.pipe.Close() and w.pipe = nil
  unfoldable pub close_pipe : World api errs → ℕ → pipes.BufferPipe → World api errs
  close_pipe s i q = record s { in_pool = poke i (set_pipe (pipes.close q)) s.in_pool; pipe = none }

  -- What a round of the loop does with the outcome of w.pipe.Write.
  unfoldable pub fed :
      World api errs → ℕ → List ℕ → ℕ → pipes.BufferPipe × ℕ × Option Err → Outcome api errs
  fed s i rest cnt (q, n, none) = goes (record s {
    in_pool = poke i (set_pipe q) s.in_pool;
    client = writing (drop n rest) (cnt + n);
  })
  fed s i rest cnt (q, n, some e) =
      if is_short (some e)
      then goes (record (close_pipe s i q) { client = writing (drop n rest) (cnt + n) })
      else goes (record s { in_pool = poke i (set_pipe q) s.in_pool; client = failing (cnt + n) })

  -- w.pipe.Write(data[cnt:]). A pipe that is in neither set has been closed by the pool, and takes
  -- nothing.
  unfoldable pub feed : World api errs → ℕ → List ℕ → ℕ → Outcome api errs
  feed s i rest cnt = elim (peek i s.in_pool) [
    | none ↦ goes (record s { client = failing cnt })
    | some p ↦ fed s i rest cnt (pipes.write p.buffer_pipe rest)
  ]

  -- Where `cnt == len(data)` the loop ends.
  unfoldable pub write_round : ℕ → World api errs → List ℕ → ℕ → Outcome api errs
  write_round choice s [] cnt = finish s cnt (ok tt)
  write_round choice s (b ∷ bs) cnt = elim s.pipe [
    | none ↦ take_pipe choice s cnt
    | some i ↦ feed s i (b ∷ bs) cnt
  ]

  -- The loop has ended early: a bigger problem downstream.
  unfoldable pub fail_write : World api errs → ℕ → Outcome api errs
  fail_write s cnt = elim (check_err s) [
    | none ↦ blocked
    | some (s', r) ↦ finish s' cnt (r >> errs.panic (some short_write))
  ]

  unfoldable pub close_found :
      ℕ → Option (Pipe (pipes.BufferPipe) SizeStats) → World api errs → World api errs
  close_found i none s = record s { pipe = none }
  close_found i (some p) s = close_pipe s i p.buffer_pipe

  unfoldable pub close_current : Option ℕ → World api errs → World api errs
  close_current none s = s
  close_current (some i) s = close_found i (peek i s.in_pool) s

  unfoldable pub begin_close : World api errs → World api errs
  begin_close s =
      let shut = close_current s.pipe s in
      record shut { w = record (s.w) { closed = true }; client = closing }

  -- Close after checkErr: the stream, the index and the footer.
  unfoldable pub end_close : (List ℕ → stream_api.Reader) → ℕ → World api errs → Outcome api errs
  end_close slice_reader fuel s = elim (check_err s) [
    | none ↦ blocked
    | some (s', fail f) ↦ finish s' 0 (fail f)
    | some (s', ok _) ↦
        let (r, w') = close_output writer_api errs slice_reader fuel s'.w in
        finish (record s' { w = w' }) 0 r
  ]

  -- The caller's next step within a call.
  unfoldable pub client_step :
      (List ℕ → stream_api.Reader) → ℕ → ℕ → ClientAt → World api errs → Outcome api errs
  client_step slice_reader fuel choice outside s = blocked
  client_step slice_reader fuel choice (writing rest cnt) s = write_round choice s rest cnt
  client_step slice_reader fuel choice (failing cnt) s = fail_write s cnt
  client_step slice_reader fuel choice closing s =
      goes (record s { in_pool = close_pool s.in_pool; client = waiting })
  client_step slice_reader fuel choice waiting s = end_close slice_reader fuel s

  -- The calls; one at a time.
  unfoldable pub call_write : List ℕ → ClientAt → World api errs → Outcome api errs
  call_write bytes outside s =
      if s.w.closed
      then goes (record s { result = some (0, some closed_pipe) })
      else goes (record s { client = writing bytes 0 })
  call_write bytes _ s = blocked

  unfoldable pub call_close : ClientAt → World api errs → Outcome api errs
  call_close outside s =
      if s.w.closed then goes (record s { result = some (0, none) }) else goes (begin_close s)
  call_close _ s = blocked
