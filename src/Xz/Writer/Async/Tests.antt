-- ===== src/Xz/Writer/Async/Tests.antt =====
-- A run of the asynchronous writer with two workers, and its theorems at concrete inputs.
use goxz.Base.{ℕ, ◌+◌, ◌≤◌, ◌≡◌, refl, arith, true, false, List, [], ◌∷◌, none, some}
use goxz.Base.Int.{pos}
use goxz.Go.{message}
use goxz.Instances.{plain_errs}
use goxz.Instances.Async.{tiny_async}
use goxz.Xz.PipeSet
use goxz.Xz.Pool
use goxz.Xz.Pool.{new_pipe_pool}
use goxz.Xz.WorkerPool
use goxz.Xz.WorkerPool.{new_worker_pool}
use goxz.Xz.Writer.Async.{allocated, sending, World, Outcome, blocked, goes, crashes}
use goxz.Xz.Writer.Async
use goxz.Xz.Writer.Async.Calls
use goxz.Xz.Writer.Async.Routines
use goxz.Xz.Writer.Async.Complete.{on_way, run_complete}
use goxz.Xz.Writer.Async.Held.{held}
use goxz.Xz.Writer.Async.Safety.{Raised, run-crashes}
use goxz.Xz.Writer.Async.Running.{HasWorkers, run-in_order}
use goxz.Xz.Writer.Async.Run.{
  Label, write, close, monitor, drain, client, routine, worker, start_async, step, run,
}
use goxz.Xz.Writer.Tests.{small_writer, reader}

two_workers : HasWorkers tiny_async plain_errs reader 9 (pos 2)
two_workers = (omega arith, λ h. cc)

abbrev begin : World tiny_async plain_errs
begin = start_async tiny_async plain_errs (pos 2) small_writer

-- The caller closes the writer at once.
abbrev closing_run : List Label
closing_run =
    monitor
    ∷ monitor
    ∷ monitor
    ∷ close
    ∷ client 0
    ∷ worker 0 0
    ∷ drain
    ∷ drain
    ∷ routine 0
    ∷ routine 0
    ∷ []

pick : Outcome tiny_async plain_errs → World tiny_async plain_errs
pick blocked = begin
pick (goes s) = s
pick (crashes f) = begin

before : World tiny_async plain_errs
before = pick (run tiny_async plain_errs reader 9 closing_run begin)

after : World tiny_async plain_errs
after = pick (step tiny_async plain_errs reader 9 (routine 0) before)

closing_run-ends :
    (run tiny_async plain_errs reader 9 closing_run begin ≡ goes before)
    × (step tiny_async plain_errs reader 9 (routine 0) before ≡ goes after)
    × (before.done ≡ false)
    × (after.done ≡ true)
    × (after.err_chan ≡ some none)
unfolding before after pick run step start_async new_pipe_pool new_worker_pool PipeSet.pop
    PipeSet.first_met PipeSet.find PipeSet.push PipeSet.delete PipeSet.remove Pool.get_reader
    Pool.enter_reader Pool.close Pool.set_capacity WorkerPool.set_capacity WorkerPool.spawn_loop
    WorkerPool.kill_loop WorkerPool.spawn Routines.monitor_step Routines.monitor_tasks
    Routines.task_step Routines.scaled Routines.worker_step Routines.fetch Routines.move
    Routines.get_worker Routines.set_worker Routines.routine_step Routines.announce Routines.receive
    Routines.drain_step Routines.drain_at Routines.wake Routines.all_gone Calls.call_close
    Calls.begin_close Calls.close_current Calls.client_step Routines.check_left Routines.end_routine
closing_run-ends = (refl, refl, refl, refl, refl)

run_complete_example :
    (after.in_pool.closed ≡ true)
    × (after.index ≡ after.idx + 1)
    × (on_way tiny_async plain_errs reader 9 0 after ≡ 0)
run_complete_example =
    run_complete tiny_async plain_errs reader 9 0 closing_run (pos 2) small_writer before after 0
      two_workers closing_run-ends.0 closing_run-ends.1 closing_run-ends.2 closing_run-ends.3
      closing_run-ends.4

-- The caller writes six bytes, a chunk and a half; a worker takes the first.
abbrev writing_run : List Label
writing_run =
    monitor
    ∷ monitor
    ∷ monitor
    ∷ monitor
    ∷ monitor
    ∷ monitor
    ∷ write (2 ∷ 3 ∷ 4 ∷ 5 ∷ 6 ∷ 7 ∷ [])
    ∷ client 0
    ∷ client 0
    ∷ client 0
    ∷ client 0
    ∷ worker 0 1
    ∷ worker 0 0
    ∷ routine 0
    ∷ routine 0
    ∷ []

midway : World tiny_async plain_errs
midway = pick (run tiny_async plain_errs reader 9 writing_run begin)

writing_run-sends :
    (run tiny_async plain_errs reader 9 writing_run begin ≡ goes midway)
    × (midway.done ≡ false)
    × (midway.routine ≡ sending 0)
    × (midway.idx ≡ 2)
unfolding midway pick run step start_async new_pipe_pool new_worker_pool PipeSet.pop
    PipeSet.first_met PipeSet.find PipeSet.push PipeSet.delete PipeSet.remove Pool.get_reader
    Pool.enter_reader Pool.close Pool.set_capacity WorkerPool.set_capacity WorkerPool.spawn_loop
    WorkerPool.kill_loop WorkerPool.spawn Routines.monitor_step Routines.monitor_tasks
    Routines.task_step Routines.scaled Routines.worker_step Routines.fetch Routines.move
    Routines.get_worker Routines.set_worker Routines.routine_step Routines.announce Routines.receive
    Routines.drain_step Routines.drain_at Routines.wake Routines.all_gone Calls.call_close
    Calls.begin_close Calls.close_current Calls.client_step Calls.call_write Calls.write_round
    Calls.take_pipe allocated Calls.taken Calls.feed Calls.fed Calls.close_pipe Routines.pair
    Pool.get_writer Pool.take_writer Pool.place_writer Async.peek Async.poke Async.poke_set
writing_run-sends = (refl, refl, refl, refl)

run-in_order_example :
    (◌≡◌ {A = ℕ} (0 + 1) midway.index)
    × (1
        ≤ PipeSet.count 1 (Pool.pipes midway.in_pool.ready)
          + held 1 midway.workers
          + PipeSet.count 1 (Pool.pipes midway.out_pool.ready)
          + PipeSet.count 1 midway.out_pool.active)
run-in_order_example =
    run-in_order tiny_async plain_errs reader 9 writing_run (pos 2) small_writer midway 0 1
      two_workers writing_run-sends.0 writing_run-sends.1 writing_run-sends.2 (omega arith)
      (omega (arith, writing_run-sends.3))

-- The only worker leaves, and wakes the group; two workers are asked for before it goes on.
abbrev reuse_run : List Label
reuse_run =
    monitor
    ∷ monitor
    ∷ monitor
    ∷ drain
    ∷ close
    ∷ client 0
    ∷ worker 0 0
    ∷ monitor
    ∷ monitor
    ∷ monitor
    ∷ drain
    ∷ []

reuse_run-crashes : run tiny_async plain_errs reader 9 reuse_run begin ≡ crashes message
unfolding run step start_async new_pipe_pool new_worker_pool PipeSet.pop PipeSet.first_met
    PipeSet.find PipeSet.push PipeSet.delete PipeSet.remove Pool.get_reader Pool.enter_reader
    Pool.close Pool.set_capacity WorkerPool.set_capacity WorkerPool.spawn_loop WorkerPool.kill_loop
    WorkerPool.spawn Routines.monitor_step Routines.monitor_tasks Routines.task_step Routines.scaled
    Routines.worker_step Routines.fetch Routines.move Routines.get_worker Routines.set_worker
    Routines.drain_step Routines.drain_at Routines.wake Routines.all_gone Calls.call_close
    Calls.begin_close Calls.close_current Calls.client_step
reuse_run-crashes = refl

run-crashes_example : Raised tiny_async plain_errs reader 9 reuse_run begin message
run-crashes_example =
    run-crashes tiny_async plain_errs reader 9 reuse_run (pos 2) small_writer message
      reuse_run-crashes
