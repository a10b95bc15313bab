-- ===== src/Xz/Writer/Async/FlowWorkers.antt =====
-- A worker takes its pipes from one pool to the other.
use goxz.Base.{ℕ, ◌≤◌, ◌≡◌, ◌≢◌, ◌∙◌, ◌++◌, replicate, arith, List}
use goxz.Bufpipe.{Bufpipe}
use goxz.Xz.PipeSet.{Pipe, count}
use goxz.Xz.Pool.{PipePool}
use goxz.Xz.Pool.Invariant.{total, Inv}
use goxz.Xz.Pool.Moves.{Placed, Passed, Restored}
use goxz.Xz.Writer.Async.{WorkerAt, idle, gone, holding, encoding, restoring}
use goxz.Xz.Writer.Async.Held.{held_at, busy_at, held-set, busy-set, held-start, busy-start}
use goxz.Xz.Writer.Async.Routines.{get_worker, set_worker}
use goxz.Xz.Writer.Async.Flow.{Flow}

module _ {P D : Type 0} where
  -- A worker moves between two places that count the same.
  pub Flow-move :
      (idx k : ℕ) (inn out : PipePool P D) (ws : List WorkerAt) (a b : WorkerAt)
      → get_worker k ws ≡ a
      → a ≢ gone
      → ((i : ℕ) → held_at i b ≤ held_at i a)
      → ((i : ℕ) → busy_at i b ≡ busy_at i a)
      → Flow idx inn out ws
      → Flow idx inn out (set_worker k b ws)
  Flow-move idx k inn out ws a b e g x y v = record {
    one = λ i. omega (arith, x i, v.one i, held-set i k b a ws e g);
    kept = λ i. omega (arith, y i, v.kept i, busy-set i k b a ws e g);
    fresh = v.fresh;
    in_Inv = v.in_Inv;
    out_Inv = v.out_Inv;
    in_shut = v.in_shut;
    out_shut = v.out_shut;
  }

  pub Flow-start :
      (idx n : ℕ) (inn out : PipePool P D) (ws : List WorkerAt)
      → Flow idx inn out ws
      → Flow idx inn out (ws ++ replicate n idle)
  Flow-start idx n inn out ws v = record {
    one = λ i. omega (arith, v.one i, held-start i n ws);
    kept = λ i. omega (arith, v.kept i, busy-start i n ws);
    fresh = v.fresh;
    in_Inv = v.in_Inv;
    out_Inv = v.out_Inv;
    in_shut = v.in_shut;
    out_shut = v.out_shut;
  }

  -- A worker takes an input pipe.
  pub Flow-fetch :
      (idx k : ℕ) (inn inn' out : PipePool P D) (ws : List WorkerAt) (p : Pipe P D)
      → get_worker k ws ≡ idle
      → Passed p inn inn'
      → Inv inn'
      → Flow idx inn out ws
      → Flow idx inn' out (set_worker k (holding p.idx) ws)
  unfolding held_at busy_at
  Flow-fetch idx k inn inn' out ws p e c n v = record {
    one = λ i. ground (arith, c.was, c.ready i, v.one i, held-set i k (holding p.idx) idle ws e n0);
    kept = λ i. ground (
      arith,
      c.was,
      c.active i,
      v.kept i,
      v.in_Inv.unique i,
      busy-set i k (holding p.idx) idle ws e n0,
    );
    fresh = λ i h. ground (arith, c.was, c.ready i, c.active i, c.free, v.fresh i h);
    in_Inv = n;
    out_Inv = v.out_Inv;
    in_shut = λ h. c.closed ∙ v.in_shut (c.is_map h);
    out_shut = v.out_shut;
  }
    where
      n0 : idle ≢ gone
      n0 h = cc

  -- A worker has got an output pipe for its input pipe.
  pub Flow-pair :
      (idx k j : ℕ) (inn out out' : PipePool P D) (ws : List WorkerAt)
      → get_worker k ws ≡ holding j
      → Placed j out out'
      → Inv out'
      → Flow idx inn out ws
      → Flow idx inn out' (set_worker k (encoding j) ws)
  unfolding held_at busy_at
  Flow-pair idx k j inn out out' ws e c n v = record {
    one = λ i. ground (
      arith,
      c.ready i,
      c.active,
      c.free i,
      v.one i,
      held-set i k (encoding j) (holding j) ws e n0,
    );
    kept = λ i. ground (arith, v.kept i, busy-set i k (encoding j) (holding j) ws e n0);
    fresh = λ i h. ground (
      arith,
      c.ready i,
      c.active,
      c.free i,
      v.fresh i h,
      v.kept i,
      busy-set i k gone (holding j) ws e n0,
    );
    in_Inv = v.in_Inv;
    out_Inv = n;
    in_shut = v.in_shut;
    out_shut = λ h. let (m, q) = c.is_map in absurd (cc);
  }
    where
      n0 : holding j ≢ gone
      n0 h = cc

  -- A worker's input pipe is active.
  pub Flow-active :
      (idx i k : ℕ) (inn out : PipePool P D) (ws : List WorkerAt) (a : WorkerAt)
      → get_worker k ws ≡ a
      → a ≢ gone
      → Flow idx inn out ws
      → busy_at i a ≤ count i inn.active
  unfolding busy_at
  Flow-active idx i k inn out ws a e n v = ground (arith, v.kept i, busy-set i k gone a ws e n)

  -- An index of a pipe that waits for its output pipe is new to the output's pool.
  pub Flow-unpaired :
      (idx i k : ℕ) (inn out : PipePool P D) (ws : List WorkerAt)
      → get_worker k ws ≡ holding i
      → Flow idx inn out ws
      → total i out ≡ 0
  unfolding held_at
  Flow-unpaired idx i k inn out ws e v =
      ground (arith, v.one i, held-set i k gone (holding i) ws e (λ h. cc))

module _ (b : Bufpipe) {D : Type 0} where
  -- A worker gives its input pipe back.
  pub Flow-give_back :
      (idx k j : ℕ) (inn inn' out : PipePool (b.BufferPipe) D) (ws : List WorkerAt) (a : WorkerAt)
      → get_worker k ws ≡ restoring j
      → ((i : ℕ) → (held_at i a ≡ 0) × (busy_at i a ≡ 0))
      → 1 ≤ count j inn.active
      → Restored b j inn inn'
      → Inv inn'
      → Flow idx inn out ws
      → Flow idx inn' out (set_worker k a ws)
  unfolding held_at busy_at
  Flow-give_back idx k j inn inn' out ws a e z w c n v = record {
    one = λ i. ground (arith, c.ready, v.one i, (z i).0, held-set i k a (restoring j) ws e n0);
    kept = λ i. ground (
      arith,
      w,
      c.active i,
      v.kept i,
      (z i).1,
      v.in_Inv.unique i,
      busy-set i k a (restoring j) ws e n0,
    );
    fresh = λ i h. ground (arith, w, c.ready, c.active i, c.free i, v.fresh i h);
    in_Inv = n;
    out_Inv = v.out_Inv;
    in_shut = λ h. rw c.closed (v.in_shut (rw c.ready at h));
    out_shut = v.out_shut;
  }
    where
      n0 : restoring j ≢ gone
      n0 h = cc
