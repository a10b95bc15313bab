-- ===== src/Xz/Pool/Accepts.antt =====
-- getWriter and restore do not panic, of a new index and of an active pipe.
use goxz.Base.{
  ◌≢◌, ℕ, ◌+◌, ◌≤◌, ◌≡◌, arith, true, Bool-cases, Option, none, some, inl, inr, Option-cases,
}
use goxz.Base.Int.{pos}
use goxz.Bufpipe.{Bufpipe}
use goxz.Go.{Fault, fail}
use goxz.Xz.PipeSet.{Pipe, PipeSet, find, find-none, remove, pop, count, find-some}
use goxz.Xz.Pool.{PipePool, pipes, get_writer, take_writer, writer_waits, place_writer, restore}

module _ (b : Bufpipe) {D : Type 0} where
  pub restore-ne-fail :
      (pp : PipePool (b.BufferPipe) D) (p : Pipe (b.BufferPipe) D) (f : Fault)
      → 1 ≤ count p.idx pp.active
      → restore b pp p ≢ fail f
  unfolding restore remove
  restore-ne-fail pp p f n e = elim (Option-cases (find p.idx pp.active)) [
    | inl m ↦ absurd (omega (arith, find-none p.idx pp.active m))
    | inr (q, m) ↦ ground arith
  ]

  place_writer-ne-fail :
      (pp : PipePool (b.BufferPipe) D) (len : ℕ) (free : PipeSet (b.BufferPipe) D)
      (p : Pipe (b.BufferPipe) D) (f : Fault)
      → count p.idx (pipes pp.ready) ≡ 0
      → pp.ready ≢ none
      → place_writer pp len free p ≢ fail f
  unfolding place_writer
  place_writer-ne-fail pp len free p f c h e = elim (Option-cases (find p.idx (pipes pp.ready))) [
    | inl n ↦ elim (Option-cases pp.ready) [ inl m ↦ h m | inr (m, q) ↦ ground arith ]
    | inr (q, n) ↦ omega (arith, (find-some p.idx (pipes pp.ready) n).1)
  ]

  take_writer-ne-fail :
      (pp : PipePool (b.BufferPipe) D) (idx size mode : ℕ) (payload : Option D)
      (popped : Option (Pipe (b.BufferPipe) D) × PipeSet (b.BufferPipe) D) (f : Fault)
      → count idx (pipes pp.ready) ≡ 0
      → pp.ready ≢ none
      → take_writer b pp idx size mode payload popped ≢ fail f
  unfolding take_writer
  take_writer-ne-fail pp idx size mode payload (none, free) f c h e =
      place_writer-ne-fail pp (pp.len + 1) free _ f c h e
  take_writer-ne-fail pp idx size mode payload (some q, free) f c h e =
      place_writer-ne-fail pp pp.len free _ f c h e

  -- getWriter does not panic for a new index, unless the pool is open with a nil map.
  pub get_writer-ne-fail :
      (choice : ℕ) (pp : PipePool (b.BufferPipe) D) (idx size mode : ℕ) (payload : Option D)
      (f : Fault)
      → count idx (pipes pp.ready) ≡ 0
      → (pp.ready ≡ none → pp.closed ≡ true)
      → get_writer b choice pp (pos idx) size mode payload ≢ fail f
  unfolding get_writer
  get_writer-ne-fail choice pp idx size mode payload f c h e =
      elim (Bool-cases (writer_waits pp (pos idx))) [
        | inl w ↦ ground arith
        | inr w ↦ elim (Bool-cases pp.closed) [
          | inl c' ↦ ground arith
          | inr c' ↦
              take_writer-ne-fail pp idx size mode payload (pop choice pp.free) f c
                (λ n. ground (arith, h n)) (simp c' at (rw w at e))
        ]
      ]
