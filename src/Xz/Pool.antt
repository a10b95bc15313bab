-- ===== src/Xz/Pool.antt =====
-- xz/pool.go, pipePool. A method runs under the mutex, so it is one step on the pool, or, where it
-- waits on a condition, a step that enters the wait and one that is made after the wake-up.
pub mod Invariant
pub mod Readers
pub mod Steps
pub mod Capacity
pub mod Moves
pub mod Accepts
mod Tests
use goxz.Base.{
  ℕ, zero, suc, ◌+◌, ◌-◌, Bool, true, false, ◌&&◌, ◌||◌, not, List, [], ◌∷◌, length, Option, none,
  some, ltb, leb, ◌==◌, if◌then◌else◌,
}
use goxz.Base.Int.{ℤ, pos, negsuc, ◌==ℤ◌, ltb_ℤ}
use goxz.Bufpipe.{Bufpipe, Buffer}
use goxz.Go.{Res, ok, fail, message, nil_pointer, ◌>>=◌, ◌>>◌}
use goxz.Xz.PipeSet.{Pipe, PipeSet, find, remove, push, pop, close_all}

-- `ready` is `none` when `terminate` has set the map to nil.
pub record PipePool (P D : Type 0) : Type 0 where
  pub len : ℕ
  pub cap : ℕ
  pub closed : Bool
  pub free : PipeSet P D
  pub ready : Option (PipeSet P D)
  pub active : PipeSet P D
  pub wait_idx : ℤ
  pub wr_wait_cnt : ℕ
  pub rd_wait_cnt : ℕ

-- A call that waits, and one that returns a pipe or nil.
pub data Turn (P D : Type 0) : Type 0 where
  waits : PipePool P D → Turn P D
  returns : PipePool P D → Option (Pipe P D) → Turn P D

module _ {P D : Type 0} where
  -- The pipes that a read of the map sees: a nil map is empty.
  abbrev pub pipes : Option (PipeSet P D) → PipeSet P D
  pipes none = []
  pipes (some m) = m

  -- An assignment to an element of a nil map panics.
  abbrev pub push_map : Option (PipeSet P D) → Pipe P D → Res (Option (PipeSet P D))
  push_map none p = fail nil_pointer
  push_map (some m) p = ok (some (push m p))

  abbrev pub with_map : Option (PipeSet P D) → PipeSet P D → Option (PipeSet P D)
  with_map none m = none
  with_map (some _) m = some m

  unfoldable pub new_pipe_pool : PipePool P D
  new_pipe_pool = record {
    len = 0;
    cap = 0;
    closed = false;
    free = [];
    ready = some [];
    active = [];
    wait_idx = negsuc 0;
    wr_wait_cnt = 0;
    rd_wait_cnt = 0;
  }

  -- The condition of the wait in getWriter.
  abbrev pub writer_waits : PipePool P D → ℤ → Bool
  writer_waits pp idx =
      not pp.closed && (not (idx ==ℤ pp.wait_idx) && ((length pp.free == 0) && leb pp.cap pp.len))

  -- After a wake-up the caller tests the condition again.
  pub wake_writer : PipePool P D → PipePool P D
  wake_writer pp = record pp { wr_wait_cnt = pp.wr_wait_cnt - 1 }

  pub wake_reader : PipePool P D → PipePool P D
  wake_reader pp = record pp { rd_wait_cnt = pp.rd_wait_cnt - 1 }

  -- doWait
  abbrev pub reader_waits : PipePool P D → ℤ → Bool
  reader_waits pp (pos i) =
      not pp.closed && elim (find i (pipes pp.ready)) [ none ↦ true | some p ↦ false ]
  reader_waits pp (negsuc n) = not pp.closed && (length (pipes pp.ready) == 0)

  -- pp.active.push(p), where p may be nil
  abbrev pub push_nil : PipeSet P D → Option (Pipe P D) → PipeSet P D
  push_nil m none = m
  push_nil m (some p) = push m p

  abbrev pub remove_nil : PipeSet P D → Option (Pipe P D) → PipeSet P D
  remove_nil m none = m
  remove_nil m (some p) = (remove m p).0

  -- What getReader does before its wait: it announces the index that it waits on.
  unfoldable pub enter_reader : PipePool P D → ℤ → Res (PipePool P D)
  enter_reader pp (pos i) =
      if ltb_ℤ pp.wait_idx (pos 0) then ok (record pp { wait_idx = pos i }) else fail message
  enter_reader pp (negsuc n) = ok pp

  -- The wait of getReader and, once its condition is false, what follows.
  unfoldable pub get_reader : ℕ → PipePool P D → ℤ → Turn P D
  get_reader choice pp (pos i) =
      let p = find i (pipes pp.ready) in
      if reader_waits pp (pos i)
      then waits (record pp { rd_wait_cnt = pp.rd_wait_cnt + 1 })
      else returns
          (record pp {
            ready = with_map pp.ready (remove_nil (pipes pp.ready) p);
            wait_idx = negsuc 0;
            active = push_nil pp.active p;
          })
          p
  get_reader choice pp (negsuc n) =
      let (p, ready) = pop choice (pipes pp.ready) in
      if reader_waits pp (negsuc n)
      then waits (record pp { rd_wait_cnt = pp.rd_wait_cnt + 1 })
      else returns (record pp { ready = with_map pp.ready ready; active = push_nil pp.active p }) p

  -- The end of getWriter: the pipe is ready, unless its index is in use.
  unfoldable pub place_writer : PipePool P D → ℕ → PipeSet P D → Pipe P D → Res (Turn P D)
  place_writer pp len free p = elim (find p.idx (pipes pp.ready)) [
    | some q ↦ fail message
    | none ↦ push_map pp.ready p >>= λ ready.
        ok (returns (record pp { len = len; free = free; ready = ready }) (some p))
  ]

  unfoldable pub set_capacity : PipePool P D → ℕ → PipePool P D
  set_capacity pp cnt = record pp { cap = cnt }

  unfoldable pub close : PipePool P D → PipePool P D
  close pp = record pp { closed = true }

abbrev made : ℕ → Buffer
made size = record { len = size; cap = size }

module _ (b : Bufpipe) where
  -- The buffer pipe of a pipe that is taken from the free set.
  pub recycle : b.BufferPipe → ℕ → ℕ → b.BufferPipe
  recycle p size mode =
      if not (b.capacity p == size) || not (b.mode p == mode)
      then (if leb size (b.buffer p).cap
          then b.new_buffer_pipe (record { len = size; cap = (b.buffer p).cap }) mode
          else b.new_buffer_pipe (made size) mode)
      else b.reset p

module _ (b : Bufpipe) {D : Type 0} where
  -- What getWriter does once it no longer waits, and the pool is open: it reuses the pipe that it
  -- took from the free set, or makes one.
  unfoldable pub take_writer :
      PipePool (b.BufferPipe) D
      → ℕ
      → ℕ
      → ℕ
      → Option D
      → Option (Pipe (b.BufferPipe) D) × PipeSet (b.BufferPipe) D
      → Res (Turn (b.BufferPipe) D)
  take_writer pp idx size mode payload (none, free) =
      place_writer pp (pp.len + 1) free
        (record { buffer_pipe = b.new_buffer_pipe (made size) mode; idx = idx; payload = payload })
  take_writer pp idx size mode payload (some q, free) =
      place_writer pp pp.len free
        (record { buffer_pipe = recycle b q.buffer_pipe size mode; idx = idx; payload = payload })

  unfoldable pub get_writer :
      ℕ → PipePool (b.BufferPipe) D → ℤ → ℕ → ℕ → Option D → Res (Turn (b.BufferPipe) D)
  get_writer choice pp (negsuc n) size mode payload = fail message
  get_writer choice pp (pos i) size mode payload =
      if writer_waits pp (pos i)
      then ok (waits (record pp { wr_wait_cnt = pp.wr_wait_cnt + 1 }))
      else if pp.closed
      then ok (returns pp none)
      else take_writer pp i size mode payload (pop choice pp.free)

  pub restore : PipePool (b.BufferPipe) D → Pipe (b.BufferPipe) D → Res (PipePool (b.BufferPipe) D)
  restore pp p =
      let (active, found) = remove pp.active p in
      let closed : Pipe (b.BufferPipe) D = record p { buffer_pipe = b.close p.buffer_pipe } in
      if found
      then (if leb pp.len pp.cap
          then ok (record pp { active = active; free = push pp.free closed })
          else ok (record pp { active = active; len = pp.len - 1 }))
      else fail message

  -- Close the pipes that are in use.
  pub interrupt : PipePool (b.BufferPipe) D → PipePool (b.BufferPipe) D
  interrupt pp = record pp {
    ready = with_map pp.ready (close_all b (pipes pp.ready));
    active = close_all b pp.active;
  }

  unfoldable pub terminate : PipePool (b.BufferPipe) D → PipePool (b.BufferPipe) D
  terminate pp = record pp { ready = none; active = close_all b pp.active; closed = true }
