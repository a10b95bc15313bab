-- ===== src/Xz/WorkerPool.antt =====
-- xz/pool.go, workerPool: the goroutines that compress, each with a channel that kills it.
pub mod Invariant
pub mod Runs
pub mod Grow
mod Tests
use goxz.Base.{
  ℕ, zero, suc, ◌+◌, ◌-◌, Bool, true, false, List, [], ◌∷◌, length, ltb, ◌==◌, ◌||◌, if◌then◌else◌,
}
use goxz.Base.Int.{ℤ, pos, negsuc, ltb_ℤ}
use goxz.Go.{Fault, bounds, closed_channel, stuck, Res, ok, fail, ◌>>=◌}

-- A channel is its number. The workers stand in the opposite order, the last one first. `killed` are
-- the closed channels, `group` is how many workers the WaitGroup has been told of, and `monitored`
-- whether the sync.Once has run.
pub record WorkerPool : Type 0 where
  pub workers : List ℕ
  pub closed : Bool
  pub group : ℕ
  pub monitored : Bool
  pub next : ℕ
  pub killed : List ℕ

unfoldable pub new_worker_pool : WorkerPool
new_worker_pool = record {
  workers = [];
  closed = false;
  group = 0;
  monitored = false;
  next = 0;
  killed = [];
}

unfoldable pub elem : ℕ → List ℕ → Bool
elem k [] = false
elem k (j ∷ js) = j == k || elem k js

-- close(killChan), which panics on a closed channel.
pub close_chan : ℕ → WorkerPool → Res WorkerPool
close_chan k wp =
    if elem k wp.killed then fail closed_channel else ok (record wp { killed = k ∷ wp.killed })

-- make(chan bool), group.Add(1), `go wp.work`, append, and the sync.Once.
unfoldable pub spawn : WorkerPool → WorkerPool
spawn wp = record wp {
  workers = wp.next ∷ wp.workers;
  group = wp.group + 1;
  monitored = true;
  next = wp.next + 1;
}

pub kill_last : List ℕ → WorkerPool → Res WorkerPool
kill_last [] wp = fail bounds
kill_last (k ∷ ks) wp = close_chan k (record wp { workers = ks })

-- `for len(wp.workers) < cnt`
unfoldable pub spawn_loop : ℕ → ℤ → WorkerPool → Res WorkerPool
spawn_loop zero cnt wp = if ltb_ℤ (pos (length wp.workers)) cnt then fail stuck else ok wp
spawn_loop (suc rounds) cnt wp =
    let more = spawn_loop rounds cnt (spawn wp) in
    if ltb_ℤ (pos (length wp.workers)) cnt then more else ok wp

-- `for len(wp.workers) > cnt`
unfoldable pub kill_loop : ℕ → ℤ → WorkerPool → Res WorkerPool
kill_loop zero cnt wp = if ltb_ℤ cnt (pos (length wp.workers)) then fail stuck else ok wp
kill_loop (suc rounds) cnt wp =
    let more = kill_last wp.workers wp >>= λ wp'. kill_loop rounds cnt wp' in
    if ltb_ℤ cnt (pos (length wp.workers)) then more else ok wp

-- The rounds of a loop are not more than the workers that are missing, or that there are.
abbrev pub rounds_of : ℤ → ℕ
rounds_of (pos n) = n
rounds_of (negsuc n) = 0

unfoldable pub set_capacity : ℤ → WorkerPool → Res WorkerPool
set_capacity cnt wp =
    let scaled = spawn_loop (rounds_of cnt) cnt wp >>= λ grown.
    kill_loop (suc (length grown.workers)) cnt grown in
    if wp.closed then ok wp else scaled

-- `for _, killChan := range wp.workers`; the order does not matter to what is closed.
pub close_workers : List ℕ → WorkerPool → Res WorkerPool
close_workers [] wp = ok wp
close_workers (k ∷ ks) wp = close_chan k wp >>= λ wp'. close_workers ks wp'

pub terminate : WorkerPool → Res WorkerPool
terminate wp = close_workers wp.workers (record wp { closed = true }) >>= λ wp'.
    ok (record wp' { workers = [] })
