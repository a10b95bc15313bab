-- ===== src/Xz/WorkerPool/Tests.antt =====
-- Runs of the worker pool, and its theorem at a concrete sequence of calls.
use goxz.Base.{ℕ, ◌≡◌, refl, false, true, List, [], ◌∷◌, length, ltb, if◌then◌else◌}
use goxz.Base.Int.{pos}
use goxz.Go.{ok}
use goxz.Xz.WorkerPool.{
  WorkerPool, new_worker_pool, set_capacity, terminate, spawn, spawn_loop, kill_loop, kill_last,
  close_chan, elem,
}
use goxz.Xz.WorkerPool.Invariant.{times}
use goxz.Xz.WorkerPool.Runs.{Call, scale, run, call, run_sound}

-- Three workers, of which two are killed again.
abbrev one_worker : WorkerPool
one_worker = record {
  workers = 0 ∷ [];
  closed = false;
  group = 3;
  monitored = true;
  next = 3;
  killed = 1 ∷ 2 ∷ [];
}

abbrev some_calls : List Call
some_calls = scale 3 ∷ scale 1 ∷ []

scaled_down : run some_calls new_worker_pool ≡ ok one_worker
unfolding run call new_worker_pool set_capacity spawn_loop kill_loop spawn kill_last close_chan elem
scaled_down = refl

run_sound_example :
    (wp scaled ended : WorkerPool) × (run some_calls new_worker_pool ≡ ok wp)
    × (set_capacity (pos 2) wp ≡ ok scaled)
    × (length scaled.workers ≡ (if wp.closed then length wp.workers else 2))
    × (terminate wp ≡ ok ended)
    × (ended.workers ≡ [])
    × ((k : ℕ) → times k ended.killed ≡ (if ltb k ended.group then 1 else 0))
run_sound_example = run_sound some_calls 2
