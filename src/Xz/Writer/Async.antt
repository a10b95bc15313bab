-- ===== src/Xz/Writer/Async.antt =====
-- xz/writer.go: the state that the goroutines of an asynchronous writer share.
pub mod Calls
pub mod Routines
pub mod Run
pub mod Held
pub mod Flow
pub mod FlowWorkers
pub mod Calm
pub mod Cause
pub mod Safe
pub mod SafeWrite
pub mod SafeCalls
pub mod SafeWorkers
pub mod SafeRoutines
pub mod SafeMonitor
pub mod Safety
pub mod Staff
pub mod Whole
pub mod Entire
pub mod EntireCalls
pub mod EntireWorkers
pub mod EntireRoutines
pub mod EntireMonitor
pub mod Running
pub mod Complete
mod Tests
use goxz.Base.{
  ℕ, ◌≡◌, Bool, true, false, List, [], ◌∷◌, length, Option, none, some, ◌==◌, if◌then◌else◌,
}
use goxz.Base.Int.{ℤ, pos, negsuc}
use goxz.Bufpipe.{Bufpipe, Buffer}
use goxz.Errs.{Errs}
use goxz.Go.{Err, Fault, bounds, Res, ok, fail}
use goxz.Xz.PipeSet.{Pipe, PipeSet, find}
use goxz.Xz.Pool.{PipePool, Turn, waits, returns, pipes, with_map}
use goxz.Xz.WorkerPool.{WorkerPool}
use goxz.Xz.Writer.Encode.{WriterApi, Writer}

-- What the asynchronous mode calls besides: the pipes as the pools allocate them, in the modes
-- LineDual and LineMono, and runtime.NumCPU.
pub record AsyncApi : Type 1 where
  pub writer_api : WriterApi
  pub open writer_api use {pipes, stream_api}
  pub line_dual : ℕ
  pub new_buffer_pipe : Buffer → ℕ → pipes.BufferPipe
  pub allocation : pipes.BufferPipe → Buffer
  pub is_closed : pipes.BufferPipe → Bool
  pub close_with_error : pipes.BufferPipe → Option Err → pipes.BufferPipe
  -- WriteTo: what is in a closed pipe goes to the writer.
  pub write_to :
      pipes.BufferPipe → stream_api.Writer → pipes.BufferPipe × stream_api.Writer × ℕ × Option Err
  pub num_cpu : ℕ
  pub capacity_made : (b : Buffer) (m : ℕ) → pipes.capacity (new_buffer_pipe b m) ≡ b.len
  pub mode_made : (b : Buffer) (m : ℕ) → pipes.mode (new_buffer_pipe b m) ≡ m
  pub mode_reset : (p : pipes.BufferPipe) → pipes.mode (pipes.reset p) ≡ pipes.mode p

-- The pipes as the pools see them.
abbrev pub bufpipe_of : AsyncApi → Bufpipe
bufpipe_of api = record {
  BufferPipe = api.pipes.BufferPipe;
  new_buffer_pipe = api.new_buffer_pipe;
  capacity = api.pipes.capacity;
  mode = api.pipes.mode;
  buffer = api.allocation;
  reset = api.pipes.reset;
  close = api.pipes.close;
  capacity_new = api.capacity_made;
  mode_new = api.mode_made;
  capacity_reset = api.pipes.capacity_reset;
  mode_reset = api.mode_reset;
}

-- unpadSize and uncompSize.
abbrev pub SizeStats : Type 0
SizeStats = ℤ × ℤ

-- A pointer to a pipe is named by the pipe's index: no other pipe of the pool has that index. The
-- caller may still have a pointer to a pipe that a worker has given back, and that is free again;
-- it stays the same pipe, since only the caller takes pipes from the input's pool.
module _ {P : Type 0} where
  pub poke_set :
      ℕ → (Pipe P SizeStats → Pipe P SizeStats) → PipeSet P SizeStats → PipeSet P SizeStats
  poke_set i f [] = []
  poke_set i f (p ∷ m) = (if p.idx == i then record (f p) { idx = p.idx } else p) ∷ poke_set i f m

  -- A change of the pipe through a pointer.
  pub poke : ℕ → (Pipe P SizeStats → Pipe P SizeStats) → PipePool P SizeStats → PipePool P SizeStats
  poke i f pp = record pp {
    ready = with_map pp.ready (poke_set i f (pipes pp.ready));
    active = poke_set i f pp.active;
    free = poke_set i f pp.free;
  }

  pub peek : ℕ → PipePool P SizeStats → Option (Pipe P SizeStats)
  peek i pp = elim (find i (pipes pp.ready)) [
    | some p ↦ some p
    | none ↦ elim (find i pp.active) [ some p ↦ some p | none ↦ find i pp.free ]
  ]

  -- A change of its buffer.
  abbrev pub set_pipe : P → Pipe P SizeStats → Pipe P SizeStats
  set_pipe q p = record p { buffer_pipe = q }

-- A size that is negative panics in make, once a pipe is to be made.
unfoldable pub allocated : {P : Type 0} → ℤ → Res (Turn P SizeStats) → Res (Turn P SizeStats)
allocated (pos n) t = t
allocated (negsuc n) (fail f) = fail f
allocated (negsuc n) (ok (waits pp)) = ok (waits pp)
allocated (negsuc n) (ok (returns pp none)) = ok (returns pp none)
allocated (negsuc n) (ok (returns pp (some p))) = fail bounds

-- Where the client is: outside, in the loop of Write with what is left and what has been written, in
-- the wait of Write for an error, before or in the wait of Close.
pub data ClientAt : Type 0 where
  outside : ClientAt
  writing : List ℕ → ℕ → ClientAt
  failing : ℕ → ClientAt
  closing waiting : ClientAt

-- Where a worker is: before iterReader, before getWriter with an input pipe, in the encoding of one
-- pipe to the other, before restore, and gone.
pub data WorkerAt : Type 0 where
  idle gone : WorkerAt
  holding encoding restoring : ℕ → WorkerAt

-- Where the routine `writer` is: before getReader, in its wait, before WriteTo, before restore with
-- the errors, before the last assertion, and gone.
pub data RoutineAt : Type 0 where
  asking seeking checking ended : RoutineAt
  sending : ℕ → RoutineAt
  giving_back : ℕ → Option Err → RoutineAt

-- Where the worker pool's routine is: before group.Wait, in it, woken by the last worker's Done but
-- not back from it, before the callback, and gone.
pub data GroupAt : Type 0 where
  starting queued woken returned over : GroupAt

-- What is left of the routine `monitor`.
pub data Task : Type 0 where
  scale_in scale_out scale_work : ℕ → Task
  await_done end_work end_out end_in : Task

module _ (api : AsyncApi) (errs : Errs) where
  open api use {writer_api, pipes}

  abbrev pub SizedPool : Type 0
  SizedPool = PipePool pipes.BufferPipe SizeStats

  -- `err_chan` is what the channel holds when the routine has sent, and `none` before.
  pub record World : Type 0 where
    pub w : Writer writer_api errs
    pub idx : ℕ
    pub pipe : Option ℕ
    pub in_pool : SizedPool
    pub out_pool : SizedPool
    pub work_pool : WorkerPool
    pub err_chan : Option (Option Err)
    pub done : Bool
    pub last_err : Option Err
    pub client : ClientAt
    pub result : Option (ℕ × Option Err)
    pub workers : List WorkerAt
    pub routine : RoutineAt
    pub index : ℕ
    pub tasks : List Task
    pub group : GroupAt

  -- What a goroutine does next: it is blocked, or moves, or panics and takes the program down.
  pub data Outcome : Type 0 where
    blocked : Outcome
    goes : World → Outcome
    crashes : Fault → Outcome
