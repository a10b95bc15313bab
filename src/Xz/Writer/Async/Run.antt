-- ===== src/Xz/Writer/Async/Run.antt =====
-- xz/writer.go: the asynchronous writer under a schedule, which says who makes the next step.
use goxz.Base.{ℕ, List, [], ◌∷◌, none, false, if◌then◌else◌}
use goxz.Base.Int.{ℤ, pos, ltb_ℤ}
use goxz.Errs.{Errs}
use goxz.Go.{Res, ok, ◌>>=◌}
use goxz.Xz.Const.{workers_max}
use goxz.Xz.Pool.{new_pipe_pool}
use goxz.Xz.WorkerPool.{new_worker_pool}
use goxz.Xz.Writer.Async.{
  AsyncApi, outside, asking, starting, World, Outcome, blocked, goes, crashes,
}
use goxz.Xz.Writer.Async.Calls.{client_step, call_write, call_close}
use goxz.Xz.Writer.Async.Routines.{
  get_worker, worker_step, routine_step, monitor_tasks, monitor_step, drain_step,
}
use goxz.Xz.Writer.Encode.{Writer}
use goxz.Xz.Writer.New.{open_writer}

-- Who goes on: the caller with a new call or within one, the worker of a channel, or a routine. The
-- numbers are choices of a pipe from a set.
pub data Label : Type 0 where
  write : List ℕ → Label
  close monitor drain : Label
  client routine : ℕ → Label
  worker : ℕ → ℕ → Label

module _ (api : AsyncApi) (errs : Errs) where
  open api use {writer_api, stream_api}

  -- The asynchronous part of NewWriterCustom: the pools are new, and the routines are about to start.
  unfoldable pub start_async : ℤ → Writer writer_api errs → World api errs
  start_async max_workers w = record {
    w = w;
    idx = 0;
    pipe = none;
    in_pool = new_pipe_pool;
    out_pool = new_pipe_pool;
    work_pool = new_worker_pool;
    err_chan = none;
    done = false;
    last_err = none;
    client = outside;
    result = none;
    workers = [];
    routine = asking;
    index = 0;
    tasks =
        monitor_tasks api errs w.chunk_size
          (if ltb_ℤ max_workers (pos 0) then workers_max else max_workers);
    group = starting;
  }

  -- NewWriterCustom with workers.
  unfoldable pub new_writer_async : stream_api.Writer → ℤ → ℤ → ℤ → Res (World api errs)
  new_writer_async wr check_type size max_workers =
      open_writer writer_api errs wr check_type size >>= λ w. ok (start_async max_workers w)

  module _ (slice_reader : List ℕ → stream_api.Reader) (fuel : ℕ) where
    unfoldable pub step : Label → World api errs → Outcome api errs
    step (write bytes) s = call_write api errs bytes s.client s
    step close s = call_close api errs s.client s
    step (client choice) s = client_step api errs slice_reader fuel choice s.client s
    step (worker k choice) s = worker_step api errs fuel choice k (get_worker k s.workers) s
    step (routine choice) s = routine_step api errs choice s.routine s
    step monitor s = monitor_step api errs s.tasks s
    step drain s = drain_step api errs s

    -- A goroutine that is blocked stays where it is.
    unfoldable pub run : List Label → World api errs → Outcome api errs
    run [] s = goes s
    run (l ∷ ls) s = elim (step l s) [
      | blocked ↦ run ls s
      | goes s' ↦ run ls s'
      | crashes f ↦ crashes f
    ]
