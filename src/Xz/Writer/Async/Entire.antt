-- ===== src/Xz/Writer/Async/Entire.antt =====
-- The state while the routine `writer` runs: every pipe from the next index on is on its way.
use goxz.Base.{ℕ, ◌+◌, ◌-◌, ◌≤◌, ◌≡◌, true, false, List}
use goxz.Errs.{Errs}
use goxz.Xz.PipeSet.{Pipe, count}
use goxz.Xz.Pool.{PipePool, Turn, waits, returns, get_writer, close as close_pool}
use goxz.Xz.WorkerPool.{WorkerPool}
use goxz.Xz.Writer.Async.{
  AsyncApi, SizeStats, poke, WorkerAt, Task, GroupAt, RoutineAt, asking, seeking, checking, ended,
  sending, giving_back, World, Outcome,
}
use goxz.Xz.Writer.Async.Calm.{count-pipes-poke}
use goxz.Xz.Writer.Async.Safe.{sent_at, After}
use goxz.Xz.Writer.Async.Staff.{Staffed}
use goxz.Xz.Writer.Async.Whole.{Whole, awake, Whole-same_in}

-- The first index that has not been written.
unfoldable pub given : RoutineAt → ℕ → ℕ
given asking n = n
given seeking n = n
given checking n = n - 1
given ended n = n
given (sending i) n = i
given (giving_back i e) n = i

-- The routine's counter is one ahead of the pipe that it has.
abbrev pub Turned : RoutineAt → ℕ → Type 0
Turned asking n = Unit
Turned seeking n = Unit
Turned checking n = 1 ≤ n
Turned ended n = Unit
Turned (sending i) n = i + 1 ≡ n
Turned (giving_back i e) n = i + 1 ≡ n

pub record Entire {P : Type 0} (idx index : ℕ) (inn out : PipePool P SizeStats) (ws : List WorkerAt)
    (wp : WorkerPool) (rt : RoutineAt) (ts : List Task) (g : GroupAt) : Type 0 where
  pub whole : Whole idx (given rt index) inn out ws (awake g)
  pub active : (i : ℕ) → count i out.active ≡ sent_at i rt
  pub turned : Turned rt index
  pub bound : given rt index ≤ idx
  pub staffed : Staffed ws wp ts

module _ (api : AsyncApi) (errs : Errs) where
  open api use {pipes}

  abbrev pub Running : World api errs → Type 0
  Running s =
      s.done ≡ false
      → Entire s.idx s.index s.in_pool s.out_pool s.workers s.work_pool s.routine s.tasks s.group

  abbrev pub Goes : Outcome api errs → Type 0
  Goes = After api errs Running (λ f. Unit {0})

  pub Entire-in :
      (s : World api errs) (pp : PipePool (pipes.BufferPipe) SizeStats)
      → ((i : ℕ)
          → count i (goxz.Xz.Pool.pipes pp.ready) ≡ count i (goxz.Xz.Pool.pipes s.in_pool.ready))
      → (s.in_pool.closed ≡ true → pp.closed ≡ true)
      → Running s
      → Running (record s { in_pool = pp })
  Entire-in s pp r c v = λ d. record {
    whole = Whole-same_in (v d).whole pp r c;
    active = (v d).active;
    turned = (v d).turned;
    bound = (v d).bound;
    staffed = (v d).staffed;
  }

  pub poked_in :
      (s : World api errs) (i : ℕ)
      (f : Pipe (pipes.BufferPipe) SizeStats → Pipe (pipes.BufferPipe) SizeStats)
      → Running s
      → Running (record s { in_pool = poke i f s.in_pool })
  unfolding poke
  poked_in s i f v =
      Entire-in s (poke i f s.in_pool) (λ j. count-pipes-poke i j f s.in_pool) (λ e. e) v
