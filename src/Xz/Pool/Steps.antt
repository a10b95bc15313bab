-- ===== src/Xz/Pool/Steps.antt =====
-- The pool under any interleaving of its clients: a step is what one goroutine does while it holds
-- the mutex.
use goxz.Base.{ℕ, ◌≡◌, refl, arith, [], Option, none, some, inl, inr, ◌≢◌, Bool-cases}
use goxz.Base.Int.{ℤ, pos, negsuc, ltb_ℤ}
use goxz.Bufpipe.{Bufpipe}
use goxz.Go.{ok}
use goxz.Xz.PipeSet.{Pipe, PipeSet, pop, count-nil, count-close_all, length-close_all}
use goxz.Xz.Pool.{
  PipePool, waits, returns, new_pipe_pool, wake_writer, wake_reader, enter_reader, get_reader,
  set_capacity, close, take_writer, place_writer, get_writer, restore, interrupt, terminate,
  writer_waits, pipes,
}
use goxz.Xz.Pool.Invariant.{total, Inv, get_writer-Inv, restore-Inv}
use goxz.Xz.Pool.Readers.{get_reader-Inv}

module _ (b : Bufpipe) {D : Type 0} where
  -- A client asks for a writer only under an index that no pipe has; the package counts them up.
  pub data Step : PipePool (b.BufferPipe) D → PipePool (b.BufferPipe) D → Type 0 where
    writer :
        {pp pp' : PipePool (b.BufferPipe) D} {r : Option (Pipe (b.BufferPipe) D)}
        (choice idx size mode : ℕ) (payload : Option D)
        → get_writer b choice pp (pos idx) size mode payload ≡ ok (returns pp' r)
        → total idx pp ≡ 0
        → Step pp pp'
    writer_wait :
        {pp pp' : PipePool (b.BufferPipe) D} (choice idx size mode : ℕ) (payload : Option D)
        → get_writer b choice pp (pos idx) size mode payload ≡ ok (waits pp')
        → Step pp pp'
    writer_wake : {pp : PipePool (b.BufferPipe) D} → Step pp (wake_writer pp)
    reader_enter :
        {pp pp' : PipePool (b.BufferPipe) D} (idx : ℤ) → enter_reader pp idx ≡ ok pp' → Step pp pp'
    reader :
        {pp pp' : PipePool (b.BufferPipe) D} {r : Option (Pipe (b.BufferPipe) D)} (choice : ℕ)
        (idx : ℤ)
        → get_reader choice pp idx ≡ returns pp' r
        → Step pp pp'
    reader_wait :
        {pp pp' : PipePool (b.BufferPipe) D} (choice : ℕ) (idx : ℤ)
        → get_reader choice pp idx ≡ waits pp'
        → Step pp pp'
    reader_wake : {pp : PipePool (b.BufferPipe) D} → Step pp (wake_reader pp)
    restored :
        {pp pp' : PipePool (b.BufferPipe) D} (p : Pipe (b.BufferPipe) D)
        → restore b pp p ≡ ok pp'
        → Step pp pp'
    resized : {pp : PipePool (b.BufferPipe) D} (cnt : ℕ) → Step pp (set_capacity pp cnt)
    interrupted : {pp : PipePool (b.BufferPipe) D} → Step pp (interrupt b pp)
    closes : {pp : PipePool (b.BufferPipe) D} → Step pp (close pp)
    terminates : {pp : PipePool (b.BufferPipe) D} → Step pp (terminate b pp)

  pub data Reach (pp : PipePool (b.BufferPipe) D) : PipePool (b.BufferPipe) D → Type 0 where
    here : Reach pp pp
    next : {qq rr : PipePool (b.BufferPipe) D} → Reach pp qq → Step qq rr → Reach pp rr

  -- A change of the pool's other fields.
  pub same-Inv :
      {pp pp' : PipePool (b.BufferPipe) D}
      → pp'.len ≡ pp.len
      → pp'.free ≡ pp.free
      → pp'.ready ≡ pp.ready
      → pp'.active ≡ pp.active
      → Inv pp
      → Inv pp'
  same-Inv e f r a v = record {
    bounded = ground (arith, v.bounded);
    counted = ground (arith, v.counted);
    unique = λ i. ground (arith, v.unique i);
  }

  pub take_writer-ne-waits :
      (pp pp' : PipePool (b.BufferPipe) D) (idx size mode : ℕ) (payload : Option D)
      (popped : Option (Pipe (b.BufferPipe) D) × PipeSet (b.BufferPipe) D)
      → take_writer b pp idx size mode payload popped ≢ ok (waits pp')
  unfolding take_writer place_writer
  take_writer-ne-waits pp pp' idx size mode payload (none, free) e = ground arith
  take_writer-ne-waits pp pp' idx size mode payload (some q, free) e = ground arith

  writer_waits-Inv :
      (pp pp' : PipePool (b.BufferPipe) D) (choice idx size mode : ℕ) (payload : Option D)
      → get_writer b choice pp (pos idx) size mode payload ≡ ok (waits pp')
      → Inv pp
      → Inv pp'
  unfolding get_writer
  writer_waits-Inv pp pp' choice idx size mode payload e v =
      elim (Bool-cases (writer_waits pp (pos idx))) [
        | inl w ↦
            same-Inv {pp = pp} {pp' = pp'} (ground arith) (ground arith) (ground arith)
              (ground arith) v
        | inr w ↦ elim (Bool-cases pp.closed) [
          | inl c ↦ absurd (ground arith)
          | inr c ↦ absurd (
              take_writer-ne-waits pp pp' idx size mode payload (pop choice pp.free)
                (simp c at (rw w at e)))
        ]
      ]

  enter_reader-Inv :
      (pp pp' : PipePool (b.BufferPipe) D) (idx : ℤ)
      → enter_reader pp idx ≡ ok pp'
      → Inv pp
      → Inv pp'
  unfolding enter_reader
  enter_reader-Inv pp pp' (pos i) e v = elim (Bool-cases (ltb_ℤ pp.wait_idx (pos 0))) [
    | inl t ↦
        same-Inv {pp = pp} {pp' = pp'} (ground arith) (ground arith) (ground arith) (ground arith) v
    | inr t ↦ absurd (ground arith)
  ]
  enter_reader-Inv pp pp' (negsuc n) e v =
      same-Inv {pp = pp} {pp' = pp'} (ground arith) (ground arith) (ground arith) (ground arith) v

  reader_waits-Inv :
      (pp pp' : PipePool (b.BufferPipe) D) (choice : ℕ) (idx : ℤ)
      → get_reader choice pp idx ≡ waits pp'
      → Inv pp
      → Inv pp'
  unfolding get_reader
  reader_waits-Inv pp pp' choice (pos i) e v =
      same-Inv {pp = pp} {pp' = pp'} (ground arith) (ground arith) (ground arith) (ground arith) v
  reader_waits-Inv pp pp' choice (negsuc n) e v =
      same-Inv {pp = pp} {pp' = pp'} (ground arith) (ground arith) (ground arith) (ground arith) v

  interrupt-Inv : (pp : PipePool (b.BufferPipe) D) → Inv pp → Inv (interrupt b pp)
  unfolding interrupt
  interrupt-Inv pp v = record {
    bounded =
        ground
          (arith, v.bounded, length-close_all b pp.active, length-close_all b (pipes pp.ready));
    counted =
        ground
          (arith, v.counted, length-close_all b pp.active, length-close_all b (pipes pp.ready));
    unique = λ i.
        ground
          (arith, v.unique i, count-close_all b i pp.active, count-close_all b i (pipes pp.ready));
  }

  pub terminate-Inv : (pp : PipePool (b.BufferPipe) D) → Inv pp → Inv (terminate b pp)
  unfolding terminate
  terminate-Inv pp v = record {
    bounded = ground (arith, v.bounded, length-close_all b pp.active);
    counted = inl refl;
    unique = λ i. ground (
      arith,
      v.unique i,
      count-close_all b i pp.active,
      count-nil {P = b.BufferPipe} {D = D} i [] refl,
    );
  }

  -- Every step keeps the invariant.
  pub Step-Inv : {pp pp' : PipePool (b.BufferPipe) D} → Step pp pp' → Inv pp → Inv pp'
  unfolding wake_writer wake_reader set_capacity close
  Step-Inv {pp = pp} {pp' = pp'} (writer {r = r} choice idx size mode payload e f) v =
      get_writer-Inv b choice pp pp' idx size mode payload {r = r} e f v
  Step-Inv {pp = pp} {pp' = pp'} (writer_wait choice idx size mode payload e) v =
      writer_waits-Inv pp pp' choice idx size mode payload e v
  Step-Inv {pp = pp} (writer_wake) v = same-Inv {pp = pp} refl refl refl refl v
  Step-Inv {pp = pp} {pp' = pp'} (reader_enter idx e) v = enter_reader-Inv pp pp' idx e v
  Step-Inv {pp = pp} {pp' = pp'} (reader {r = r} choice idx e) v =
      get_reader-Inv choice idx pp pp' {r = r} e v
  Step-Inv {pp = pp} {pp' = pp'} (reader_wait choice idx e) v =
      reader_waits-Inv pp pp' choice idx e v
  Step-Inv {pp = pp} (reader_wake) v = same-Inv {pp = pp} refl refl refl refl v
  Step-Inv {pp = pp} {pp' = pp'} (restored p e) v = restore-Inv b pp pp' p e v
  Step-Inv {pp = pp} (resized cnt) v = same-Inv {pp = pp} refl refl refl refl v
  Step-Inv {pp = pp} (interrupted) v = interrupt-Inv pp v
  Step-Inv {pp = pp} (closes) v = same-Inv {pp = pp} refl refl refl refl v
  Step-Inv {pp = pp} (terminates) v = terminate-Inv pp v

  pub new_pipe_pool-Inv : Inv {P = b.BufferPipe} {D = D} new_pipe_pool
  unfolding new_pipe_pool
  new_pipe_pool-Inv = record {
    bounded = omega arith;
    counted = inr refl;
    unique = λ i. ground (arith, count-nil {P = b.BufferPipe} {D = D} i [] refl);
  }

  -- In every pool that a new pool can become, under any interleaving in which each writer's index is
  -- new to the pool: the pipes in the three sets are at most `len`, and exactly `len` while the pool
  -- is not terminated; and no two pipes of the three sets share an index.
  pub Reach-Inv : {pp : PipePool (b.BufferPipe) D} → Reach new_pipe_pool pp → Inv pp
  Reach-Inv here = new_pipe_pool-Inv
  Reach-Inv (next r s) = Step-Inv s (Reach-Inv r)
