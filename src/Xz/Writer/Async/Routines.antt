-- ===== src/Xz/Writer/Async/Routines.antt =====
-- xz/writer.go: the goroutines `worker`, `writer` and `monitor`, a step of each. A step is what a
-- goroutine does before another one may come between: a call of a pool, or work on pipes that it holds.
use goxz.Base.{
  ℕ, zero, suc, ◌==◌, ◌+◌, ◌-◌, Bool, true, false, not, ◌||◌, List, [], ◌∷◌, ◌++◌, length,
  replicate, Option, none, some, if◌then◌else◌,
}
use goxz.Base.Int.{ℤ, pos, negsuc, ◌==ℤ◌}
use goxz.Errs.{Errs}
use goxz.Go.{Err, lib, message, Res, ok, fail}
use goxz.Wrapper.Block.{Block}
use goxz.Wrapper.Error.{new_error}
use goxz.Wrapper.Stream.Pipe.{PipeRun, room_of, code_round}
use goxz.Wrapper.Stream.{is_nil}
use goxz.Xz.Const.{workers_max, chunk_stream}
use goxz.Xz.PipeSet.{Pipe, find}
use goxz.Xz.Pool.{
  Turn, waits, returns, get_reader, get_writer, enter_reader, restore, set_capacity, close,
  terminate,
}
use goxz.Xz.WorkerPool.{WorkerPool, new_worker_pool, elem}
use goxz.Xz.WorkerPool
use goxz.Xz.Writer.Async.{
  AsyncApi, bufpipe_of, SizeStats, allocated, poke, peek, set_pipe, WorkerAt, idle, gone, holding,
  encoding, restoring, GroupAt, starting, queued, woken, returned, over, RoutineAt, asking, seeking,
  checking, ended, sending, giving_back, Task, scale_in, scale_out, scale_work, await_done,
  end_work, end_out, end_in, World, Outcome, blocked, goes, crashes, SizedPool,
}
use goxz.Xz.Writer.Encode.{Writer, Pipes, start_encoder, block_encode}
use goxz.Xz.Writer.New.{alloc_size}

unfoldable pub get_worker : ℕ → List WorkerAt → WorkerAt
get_worker k [] = gone
get_worker zero (a ∷ rest) = a
get_worker (suc k) (a ∷ rest) = get_worker k rest

unfoldable pub set_worker : ℕ → WorkerAt → List WorkerAt → List WorkerAt
set_worker k b [] = []
set_worker zero b (a ∷ rest) = b ∷ rest
set_worker (suc k) b (a ∷ rest) = a ∷ set_worker k b rest

unfoldable pub all_gone : List WorkerAt → Bool
all_gone [] = true
all_gone (gone ∷ rest) = all_gone rest
all_gone (_ ∷ rest) = false

-- The Done that takes the group's counter to 0 wakes who waits.
unfoldable pub wake : GroupAt → Bool → GroupAt
wake queued true = woken
wake queued false = queued
wake starting b = starting
wake woken b = woken
wake returned b = returned
wake over b = over

module _ (api : AsyncApi) (errs : Errs) where
  open api use {writer_api, pipes, stream_api}

  -- The worker goes on; where it leaves, it calls group.Done.
  unfoldable pub move : ℕ → WorkerAt → World api errs → World api errs
  move k a s =
      let ws = set_worker k a s.workers in
      record s { workers = ws; group = wake s.group (all_gone ws) }

  -- w.inPool.iterReader(&inBuf)
  unfoldable pub fetch : ℕ → World api errs → Turn (pipes.BufferPipe) SizeStats → Outcome api errs
  fetch k s (waits pp) = blocked
  fetch k s (returns pp none) = goes (move k gone (record s { in_pool = pp }))
  fetch k s (returns pp (some p)) = goes (move k (holding p.idx) (record s { in_pool = pp }))

  -- w.outPool.getWriter(inBuf.idx, w.outSize, w.outMode, sizes)
  unfoldable pub pair :
      ℕ → ℕ → World api errs → Res (Turn (pipes.BufferPipe) SizeStats) → Outcome api errs
  pair k i s (fail f) = crashes f
  pair k i s (ok (waits pp)) = blocked
  pair k i s (ok (returns pp none)) = goes (move k (restoring i) (record s { out_pool = pp }))
  pair k i s (ok (returns pp (some p))) = goes (move k (encoding i) (record s { out_pool = pp }))

  -- What the function literal with its Recover leaves, and outBuf.CloseWithError(err).
  unfoldable pub encoded :
      ℕ → World api errs → Res (ℤ × ℤ) × Pipes writer_api errs → Outcome api errs
  encoded i s (ok sizes, ps) = goes (record s {
    in_pool = poke i (set_pipe ps.rd_buf) s.in_pool;
    out_pool =
        poke i
          (λ q. record q {
            buffer_pipe = api.close_with_error ps.wr_buf none;
            payload = some sizes;
          })
          s.out_pool;
  })
  encoded i s (fail f, ps) = elim (errs.recover f) [
    | fail g ↦ crashes g
    | ok e ↦ goes (record s {
      in_pool = poke i (set_pipe ps.rd_buf) s.in_pool;
      out_pool = poke i (set_pipe (api.close_with_error ps.wr_buf (some e))) s.out_pool;
    })
  ]

  abbrev is_empty : Option pipes.BufferPipe → Bool
  is_empty none = false
  is_empty (some p) = pipes.pipe_length p == 0

  -- Whether the encoder, on what is in an open input pipe, comes to a read that blocks, since the pipe
  -- is empty; or ends before, with an error.
  unfoldable pub starves : ℕ → PipeRun stream_api pipes → Bool
  starves zero r = true
  starves (suc fuel) r = elim (is_empty r.src) [
    | true ↦ true
    | false ↦ elim (room_of stream_api pipes r.dst).1 [
      | some e ↦ false
      | none ↦
          let (r', err) = code_round stream_api pipes stream_api.constants.lzma_run r in
          elim err [ some e ↦ false | none ↦ starves fuel r' ]
    ]
  ]

  unfoldable pub starts : ℕ → Res (Block × ℕ × stream_api.Coder) × Pipes writer_api errs → Bool
  starts fuel (fail f, ps) = false
  starts fuel (ok (block, size, coder), ps) = starves fuel (record {
    coder = coder;
    dst = some ps.wr_buf;
    src = some ps.rd_buf;
    out_cnt = 0;
    in_cnt = 0;
  })

  -- The call of blockEncode returns or panics, and does not wait for more input.
  unfoldable pub ends : ℕ → Writer writer_api errs → Pipes writer_api errs → Bool
  ends fuel w ps =
      api.is_closed ps.rd_buf
      || not
          (starts fuel (start_encoder writer_api errs w.flags w.filters w.chunk_size w.max_size ps))

  -- w.blockEncode, once it needs no more input than there is. An output pipe that the pool no longer
  -- has is closed by `terminate`, and what is written to it is lost.
  unfoldable pub encode :
      ℕ
      → ℕ
      → World api errs
      → Option (Pipe (pipes.BufferPipe) SizeStats)
      → Option (Pipe (pipes.BufferPipe) SizeStats)
      → Outcome api errs
  encode fuel i s (some p) (some q) =
      let ps : Pipes writer_api errs = record { wr_buf = q.buffer_pipe; rd_buf = p.buffer_pipe } in
      let run =
        block_encode writer_api errs fuel s.w.flags s.w.filters s.w.chunk_size s.w.max_size ps in
      if ends fuel s.w ps then encoded i s run else blocked
  encode fuel i s _ _ = goes s

  -- w.inPool.restore(inBuf), and the select on doneChan and killChan.
  unfoldable pub give_back : ℕ → World api errs → Res (SizedPool api errs) → Outcome api errs
  give_back k s (fail f) = crashes f
  give_back k s (ok pp) = goes (
      move k (if s.done || elem k s.work_pool.killed then gone else idle)
        (record s { in_pool = pp }))

  unfoldable pub restore_held :
      SizedPool api errs → Option (Pipe (pipes.BufferPipe) SizeStats) → Res (SizedPool api errs)
  restore_held pp none = fail message
  restore_held pp (some p) = restore (bufpipe_of api) pp p

  -- The worker of the channel k.
  unfoldable pub worker_step : ℕ → ℕ → ℕ → WorkerAt → World api errs → Outcome api errs
  worker_step fuel choice k idle s = fetch k s (get_reader choice s.in_pool (negsuc 0))
  worker_step fuel choice k gone s = blocked
  worker_step fuel choice k (holding i) s = pair k i s (
      allocated s.w.max_size (
        get_writer (bufpipe_of api) choice s.out_pool (pos i) (alloc_size s.w.max_size)
          pipes.line_mono (some (pos 0, pos 0))))
  worker_step fuel choice k (encoding i) s =
      encode fuel i (move k (restoring i) s) (peek i s.in_pool) (peek i s.out_pool)
  worker_step fuel choice k (restoring i) s =
      give_back k s (restore_held s.in_pool (find i s.in_pool.active))

  -- The error goes through errChan, which is then closed, and so is doneChan.
  unfoldable pub end_routine : World api errs → Res (Unit {0}) → Outcome api errs
  end_routine s (ok _) = goes (record s { err_chan = some none; done = true; routine = ended })
  end_routine s (fail f) = elim (errs.recover f) [
    | fail g ↦ crashes g
    | ok e ↦ goes (record s { err_chan = some (some e); done = true; routine = ended })
  ]

  unfoldable pub announce : World api errs → Res (SizedPool api errs) → Outcome api errs
  announce s (fail f) = crashes f
  announce s (ok pp) = goes (record s { out_pool = pp; routine = seeking })

  -- w.outPool.iterReaderIdx(&outBuf, &index)
  unfoldable pub receive : World api errs → Turn (pipes.BufferPipe) SizeStats → Outcome api errs
  receive s (waits pp) = blocked
  receive s (returns pp none) =
      goes (record s { out_pool = pp; index = s.index + 1; routine = checking })
  receive s (returns pp (some p)) =
      goes (record s { out_pool = pp; index = s.index + 1; routine = sending p.idx })

  -- The writer's output and index, after a pipe with its statistics.
  unfoldable pub deliver :
      Pipe (pipes.BufferPipe) SizeStats
      → Writer writer_api errs
      → pipes.BufferPipe × Writer writer_api errs × Option Err
  deliver p w =
      let (q, wr', n, wr_err) = api.write_to p.buffer_pipe w.wr in
      let sizes = elim p.payload as (λ _. SizeStats) [ none ↦ (pos 0, pos 0) | some ss ↦ ss ] in
      let (ret, index') = writer_api.lzma_index_append w.index sizes.0 sizes.1 in
      if sizes.0 ==ℤ pos 0 then (q, record w { wr = wr' }, errs.first wr_err none) else (
        q,
        record w { wr = wr'; index = index' },
        errs.first wr_err (new_error stream_api.constants ret),
      )

  -- outBuf.WriteTo(w.wr), which blocks until the pipe is closed, and w.index.Append.
  unfoldable pub send :
      ℕ → World api errs → Option (Pipe (pipes.BufferPipe) SizeStats) → Outcome api errs
  send i s none = blocked
  send i s (some p) =
      let (q, w', err) = deliver p s.w in
      let sent : World api errs = record s {
        w = w';
        out_pool = poke i (set_pipe q) s.out_pool;
        routine = giving_back i err;
      } in
      if api.is_closed p.buffer_pipe then goes sent else blocked

  -- w.outPool.restore(outBuf) and errs.Panic
  unfoldable pub take_back :
      World api errs → Option Err → Res (SizedPool api errs) → Outcome api errs
  take_back s err (fail f) = crashes f
  take_back s err (ok pp) = elim (errs.panic err) [
    | ok _ ↦ goes (record s { out_pool = pp; routine = asking })
    | fail f ↦ end_routine (record s { out_pool = pp }) (fail f)
  ]

  -- The last assertion: all buffers were consumed.
  unfoldable pub check_left : World api errs → Turn (pipes.BufferPipe) SizeStats → Outcome api errs
  check_left s (waits pp) = blocked
  check_left s (returns pp r) =
      end_routine (record s { out_pool = pp })
        (errs.assert (is_nil r) (some (lib stream_api.constants.lzma_data_error)))

  unfoldable pub routine_step : ℕ → RoutineAt → World api errs → Outcome api errs
  routine_step choice asking s = announce s (enter_reader s.out_pool (pos s.index))
  routine_step choice seeking s = receive s (get_reader choice s.out_pool (pos s.index))
  routine_step choice (sending i) s = send i s (find i s.out_pool.active)
  routine_step choice (giving_back i err) s =
      take_back s err (restore_held s.out_pool (find i s.out_pool.active))
  routine_step choice checking s = check_left s (get_reader choice s.out_pool (negsuc 0))
  routine_step choice ended s = blocked

  -- The routine `monitor`: one worker, then, but for a stream, as many as are asked for; the deferred calls at its end.
  unfoldable pub monitor_tasks : ℤ → ℤ → List Task
  monitor_tasks chunk_size max_workers =
      let cnt = if max_workers ==ℤ workers_max then api.num_cpu else alloc_size max_workers in
      let ends = await_done ∷ end_work ∷ end_out ∷ end_in ∷ [] in
      scale_in 1
      ∷ scale_out 1
      ∷ scale_work 1
      ∷ (if chunk_size ==ℤ chunk_stream
          then ends
          else scale_in cnt ∷ scale_out cnt ∷ scale_work cnt ∷ ends)

  -- The workers that the pool has started run.
  unfoldable pub scaled : World api errs → Res WorkerPool → Outcome api errs
  scaled s (fail f) = crashes f
  scaled s (ok wp) = goes (record s {
    work_pool = wp;
    workers = s.workers ++ replicate (wp.next - length s.workers) idle;
  })

  unfoldable pub task_step : Task → World api errs → Outcome api errs
  task_step (scale_in cnt) s = goes (record s { in_pool = set_capacity s.in_pool cnt })
  task_step (scale_out cnt) s = goes (record s { out_pool = set_capacity s.out_pool cnt })
  task_step (scale_work cnt) s = scaled s (WorkerPool.set_capacity (pos cnt) s.work_pool)
  task_step await_done s = if s.done then goes s else blocked
  task_step end_work s = scaled s (WorkerPool.terminate s.work_pool)
  task_step end_out s = goes (record s { out_pool = terminate (bufpipe_of api) s.out_pool })
  task_step end_in s = goes (record s { in_pool = terminate (bufpipe_of api) s.in_pool })

  unfoldable pub monitor_step : List Task → World api errs → Outcome api errs
  monitor_step [] s = blocked
  monitor_step (t ∷ ts) s = task_step t (record s { tasks = ts })

  -- group.Wait, which panics where the group has been added to since the counter reached 0, and the
  -- callback, w.outPool.close.
  unfoldable pub drain_at : GroupAt → World api errs → Outcome api errs
  drain_at starting s = goes (record s { group = if all_gone s.workers then returned else queued })
  drain_at queued s = blocked
  drain_at woken s =
      if all_gone s.workers then goes (record s { group = returned }) else crashes message
  drain_at returned s = goes (record s { out_pool = close s.out_pool; group = over })
  drain_at over s = blocked

  -- The routine of workerPool.monitor, once it has been started.
  unfoldable pub drain_step : World api errs → Outcome api errs
  drain_step s = if s.work_pool.monitored then drain_at s.group s else blocked
