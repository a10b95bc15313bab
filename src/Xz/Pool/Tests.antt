-- ===== src/Xz/Pool/Tests.antt =====
-- Runs of the pool, and its theorems at concrete pools.
use goxz.Base.{ℕ, ◌+◌, ◌≤◌, ◌≡◌, refl, false, [], ◌∷◌, none, some, ◌⊎◌, ◌≢◌}
use goxz.Base.Int.{pos, negsuc}
use goxz.Bufpipe.{Buffer}
use goxz.Go.{ok}
use goxz.Instances.{plain_bufpipe}
use goxz.Xz.PipeSet.{Pipe, find, delete, remove, push, pop, first_met, count}
use goxz.Xz.Pool.{
  PipePool, waits, returns, new_pipe_pool, set_capacity, get_writer, take_writer, place_writer,
  get_reader, enter_reader, restore,
}
use goxz.Xz.Pool.Invariant.{Inv}
use goxz.Xz.Pool.Steps.{Reach, here, next, resized, writer, reader, restored, Reach-Inv}
use goxz.Xz.Pool.Capacity.{get_writer_within_cap, announced_writer_runs}

abbrev pipe_at : ℕ → Pipe (Buffer × ℕ) ℕ
pipe_at i = record { buffer_pipe = (record { len = 64; cap = 64 }, 1); idx = i; payload = none }

abbrev empty_pool : PipePool (Buffer × ℕ) ℕ
empty_pool = record {
  len = 0;
  cap = 0;
  closed = false;
  free = [];
  ready = some [];
  active = [];
  wait_idx = negsuc 0;
  wr_wait_cnt = 0;
  rd_wait_cnt = 0;
}

-- Room for one pipe; one writer; its reader; and the pipe given back.
abbrev sized_pool : PipePool (Buffer × ℕ) ℕ
sized_pool = record empty_pool { cap = 1 }

abbrev ready_pool : PipePool (Buffer × ℕ) ℕ
ready_pool = record sized_pool { len = 1; ready = some (pipe_at 0 ∷ []) }

abbrev active_pool : PipePool (Buffer × ℕ) ℕ
active_pool = record ready_pool { ready = some []; active = pipe_at 0 ∷ [] }

abbrev free_pool : PipePool (Buffer × ℕ) ℕ
free_pool = record active_pool { free = pipe_at 0 ∷ []; active = [] }

sized_Reach : Reach plain_bufpipe new_pipe_pool sized_pool
unfolding new_pipe_pool set_capacity
sized_Reach = next here (resized 1)

first_writer :
    get_writer plain_bufpipe 0 sized_pool (pos 0) 64 1 none
    ≡ ok (returns ready_pool (some (pipe_at 0)))
unfolding get_writer take_writer place_writer pop first_met find push delete
first_writer = refl

first_reader : get_reader 0 ready_pool (negsuc 0) ≡ returns active_pool (some (pipe_at 0))
unfolding get_reader pop first_met push delete
first_reader = refl

given_back : restore plain_bufpipe active_pool (pipe_at 0) ≡ ok free_pool
unfolding restore remove push delete find
given_back = refl

free_Reach : Reach plain_bufpipe new_pipe_pool free_pool
unfolding count
free_Reach =
    next
      (next (next sized_Reach (writer {r = some (pipe_at 0)} 0 0 64 1 none first_writer refl))
        (reader {r = some (pipe_at 0)} 0 (negsuc 0) first_reader))
      (restored (pipe_at 0) given_back)

Reach-Inv_example : Inv free_pool
Reach-Inv_example = Reach-Inv plain_bufpipe free_Reach

-- The pool is full, and a reader waits on index 7.
abbrev full_pool : PipePool (Buffer × ℕ) ℕ
full_pool = active_pool

get_writer_within_cap_example : ◌≡◌ {A = ℕ} 1 0 ⊎ (◌≡◌ {A = ℕ} 1 (0 + 1) × (1 ≤ 1))
get_writer_within_cap_example =
    get_writer_within_cap plain_bufpipe 0 sized_pool ready_pool 0 64 1 none (some (pipe_at 0))
      first_writer (λ e. cc)

full_waits :
    get_writer plain_bufpipe 0 full_pool (pos 7) 64 1 none
    ≡ ok (waits (record full_pool { wr_wait_cnt = 1 }))
unfolding get_writer
full_waits = refl

announced : enter_reader full_pool (pos 7) ≡ ok (record full_pool { wait_idx = pos 7 })
unfolding enter_reader
announced = refl

announced_writer_runs_example :
    get_writer plain_bufpipe 0 (record full_pool { wait_idx = pos 7 }) (pos 7) 64 1 none
    ≢ ok (waits full_pool)
announced_writer_runs_example =
    announced_writer_runs plain_bufpipe 0 64 1 full_pool (record full_pool { wait_idx = pos 7 }) 7
      none full_pool announced
