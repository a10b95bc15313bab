-- ===== src/Xz/Writer/Async/Flow.antt =====
-- Where the pipe of an index is: with the client, on its way to a worker, with the worker, or on its
-- way to the routine `writer`.
use goxz.Base.{ℕ, ◌+◌, ◌≤◌, ◌≡◌, ◌∙◌, arith, List, none, true}
use goxz.Bufpipe.{Bufpipe}
use goxz.Xz.PipeSet.{Pipe, count}
use goxz.Xz.Pool.{PipePool, pipes}
use goxz.Xz.Pool.Invariant.{total, Inv}
use goxz.Xz.Pool.Moves.{Placed, Passed, Restored}
use goxz.Xz.Writer.Async.{WorkerAt}
use goxz.Xz.Writer.Async.Held.{held, busy, held-le-busy}

module _ {P D : Type 0} where
  -- An index is new, or names one pipe that is on its way; a pipe is active when a worker has it; and
  -- the pools are as their methods keep them.
  pub record Flow (idx : ℕ) (inn out : PipePool P D) (ws : List WorkerAt) : Type 0 where
    pub one : (i : ℕ) → count i (pipes inn.ready) + held i ws + total i out ≤ 1
    pub kept : (i : ℕ) → busy i ws ≡ count i inn.active
    pub fresh : (i : ℕ) → idx ≤ i → total i inn + total i out ≡ 0
    pub in_Inv : Inv inn
    pub out_Inv : Inv out
    pub in_shut : inn.ready ≡ none → inn.closed ≡ true
    pub out_shut : out.ready ≡ none → out.closed ≡ true

  -- A change that moves no pipe, except that pipes may be dropped.
  pub record Calm (pp pp' : PipePool P D) : Type 0 where
    pub ready : (i : ℕ) → count i (pipes pp'.ready) ≤ count i (pipes pp.ready)
    pub active : (i : ℕ) → count i pp'.active ≡ count i pp.active
    pub free : (i : ℕ) → count i pp'.free ≤ count i pp.free
    pub inv : Inv pp → Inv pp'
    pub shut : (pp.ready ≡ none → pp.closed ≡ true) → pp'.ready ≡ none → pp'.closed ≡ true

  pub Flow-Calm_in :
      (idx : ℕ) (inn inn' out : PipePool P D) (ws : List WorkerAt)
      → Calm inn inn'
      → Flow idx inn out ws
      → Flow idx inn' out ws
  Flow-Calm_in idx inn inn' out ws c v = record {
    one = λ i. omega (arith, c.ready i, v.one i);
    kept = λ i. omega (arith, c.active i, v.kept i);
    fresh = λ i h. omega (arith, c.ready i, c.active i, c.free i, v.fresh i h);
    in_Inv = c.inv v.in_Inv;
    out_Inv = v.out_Inv;
    in_shut = c.shut v.in_shut;
    out_shut = v.out_shut;
  }

  pub Flow-Calm_out :
      (idx : ℕ) (inn out out' : PipePool P D) (ws : List WorkerAt)
      → Calm out out'
      → Flow idx inn out ws
      → Flow idx inn out' ws
  Flow-Calm_out idx inn out out' ws c v = record {
    one = λ i. omega (arith, c.ready i, c.active i, c.free i, v.one i);
    kept = v.kept;
    fresh = λ i h. omega (arith, c.ready i, c.active i, c.free i, v.fresh i h);
    in_Inv = v.in_Inv;
    out_Inv = c.inv v.out_Inv;
    in_shut = v.in_shut;
    out_shut = c.shut v.out_shut;
  }

  -- The client takes a pipe under the next index.
  pub Flow-take :
      (idx : ℕ) (inn inn' out : PipePool P D) (ws : List WorkerAt)
      → Placed idx inn inn'
      → Inv inn'
      → Flow idx inn out ws
      → Flow (idx + 1) inn' out ws
  Flow-take idx inn inn' out ws c n v = record {
    one = λ i. ground (arith, c.ready i, v.one i, v.fresh i, v.kept i, held-le-busy i ws);
    kept = λ i. rw c.active (v.kept i);
    fresh = λ i h. ground (arith, c.ready i, c.active, c.free i, v.fresh i);
    in_Inv = n;
    out_Inv = v.out_Inv;
    in_shut = λ e. let (m, q) = c.is_map in absurd (cc);
    out_shut = v.out_shut;
  }

  -- The routine takes an output pipe.
  pub Flow-receive :
      (idx : ℕ) (inn out out' : PipePool P D) (ws : List WorkerAt) (p : Pipe P D)
      → Passed p out out'
      → Inv out'
      → Flow idx inn out ws
      → Flow idx inn out' ws
  Flow-receive idx inn out out' ws p c n v = record {
    one = λ i. ground (arith, c.was, c.ready i, c.active i, c.free, v.one i);
    kept = v.kept;
    fresh = λ i h. ground (arith, c.was, c.ready i, c.active i, c.free, v.fresh i h);
    in_Inv = v.in_Inv;
    out_Inv = n;
    in_shut = v.in_shut;
    out_shut = λ h. c.closed ∙ v.out_shut (c.is_map h);
  }

module _ (b : Bufpipe) {D : Type 0} where
  -- The routine gives its output pipe back.
  pub Flow-take_back :
      (idx j : ℕ) (inn out out' : PipePool (b.BufferPipe) D) (ws : List WorkerAt)
      → 1 ≤ count j out.active
      → Restored b j out out'
      → Inv out'
      → Flow idx inn out ws
      → Flow idx inn out' ws
  Flow-take_back idx j inn out out' ws w c n v = record {
    one = λ i. ground (arith, w, c.ready, c.active i, c.free i, v.one i);
    kept = v.kept;
    fresh = λ i h. ground (arith, w, c.ready, c.active i, c.free i, v.fresh i h);
    in_Inv = v.in_Inv;
    out_Inv = n;
    in_shut = v.in_shut;
    out_shut = λ h. rw c.closed (v.out_shut (rw c.ready at h));
  }
