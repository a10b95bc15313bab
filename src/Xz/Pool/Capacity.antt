-- ===== src/Xz/Pool/Capacity.antt =====
-- The limit on the number of pipes, and the index that may pass it.
use goxz.Base.{
  ℕ, ◌+◌, ◌≤◌, ◌≡◌, refl, arith, false, [], Option, none, some, ◌⊎◌, inl, inr, ◌≢◌, Bool-cases,
}
use goxz.Base.Int.{pos, ==ℤ→eq, ltb_ℤ}
use goxz.Bufpipe.{Bufpipe}
use goxz.Go.{ok}
use goxz.Xz.PipeSet.{Pipe, PipeSet, pop}
use goxz.Xz.Pool.{PipePool, waits, returns, writer_waits, enter_reader, take_writer, get_writer}
use goxz.Xz.Pool.Invariant.{get_writer-cases, pop-cases, place_writer-eq}
use goxz.Xz.Pool.Steps.{take_writer-ne-waits}

module _ (b : Bufpipe) {D : Type 0} where
  take_writer-len :
      (pp pp' : PipePool (b.BufferPipe) D) (idx size mode : ℕ) (payload : Option D)
      (popped : Option (Pipe (b.BufferPipe) D) × PipeSet (b.BufferPipe) D)
      (r : Option (Pipe (b.BufferPipe) D))
      → take_writer b pp idx size mode payload popped ≡ ok (returns pp' r)
      → ((popped.0 ≡ none) × (pp'.len ≡ pp.len + 1)) ⊎ (pp'.len ≡ pp.len)
  unfolding take_writer
  take_writer-len pp pp' idx size mode payload (none, free) r e =
      let (m, _, q) = place_writer-eq pp pp' (pp.len + 1) free _ {r = r} e in
      inl (refl, ground arith)
  take_writer-len pp pp' idx size mode payload (some p, free) r e =
      let (m, _, q) = place_writer-eq pp pp' pp.len free _ {r = r} e in inr (ground arith)

  free-empty : (choice : ℕ) (m : PipeSet (b.BufferPipe) D) → (pop choice m).0 ≡ none → m ≡ []
  free-empty choice m n = elim (pop-cases choice m) [
    | inl (_, e) ↦ e
    | inr (p, q, _) ↦ absurd (cc q)
  ]

  enter_reader-wait_idx :
      (pp pp' : PipePool (b.BufferPipe) D) (idx : ℕ)
      → enter_reader pp (pos idx) ≡ ok pp'
      → pp'.wait_idx ≡ pos idx
  unfolding enter_reader
  enter_reader-wait_idx pp pp' idx e = elim (Bool-cases (ltb_ℤ pp.wait_idx (pos 0))) [
    | inl t ↦ ground arith
    | inr t ↦ absurd (ground arith)
  ]

  -- A getWriter that returns makes at most one pipe, and makes one only while the pool has fewer
  -- pipes than its limit or for the index that a reader waits on: for any other index the number of
  -- pipes does not grow, or stays within the limit.
  pub get_writer_within_cap :
      (choice : ℕ) (pp pp' : PipePool (b.BufferPipe) D) (idx size mode : ℕ) (payload : Option D)
      (r : Option (Pipe (b.BufferPipe) D))
      → get_writer b choice pp (pos idx) size mode payload ≡ ok (returns pp' r)
      → pos idx ≢ pp.wait_idx
      → (pp'.len ≡ pp.len) ⊎ ((pp'.len ≡ pp.len + 1) × (pp'.len ≤ pp.cap))
  get_writer_within_cap choice pp pp' idx size mode payload r e other =
      elim (get_writer-cases b choice pp pp' idx size mode payload {r = r} e) [
        | inl (q, _, _) ↦ inl (ground arith)
        | inr (t, w, c) ↦
            elim (take_writer-len pp pp' idx size mode payload (pop choice pp.free) r t) [
              | inr l ↦ inl l
              | inl (n, l) ↦ inr (
                l,
                ground (arith, free-empty choice pp.free n, ==ℤ→eq (pos idx) pp.wait_idx, other),
              )
            ]
      ]

  -- Once getReader has announced an index, getWriter does not wait for that index, whatever the
  -- limit.
  pub announced_writer_runs :
      (choice size mode : ℕ) (pp pp' : PipePool (b.BufferPipe) D) (idx : ℕ) (payload : Option D)
      (qq : PipePool (b.BufferPipe) D)
      → enter_reader pp (pos idx) ≡ ok pp'
      → get_writer b choice pp' (pos idx) size mode payload ≢ ok (waits qq)
  unfolding get_writer
  announced_writer_runs choice size mode pp pp' idx payload qq e h =
      let open_gate : writer_waits pp' (pos idx) ≡ false =
        ground (arith, enter_reader-wait_idx pp pp' idx e) in
      elim (Bool-cases pp'.closed) [
        | inl c ↦ ground arith
        | inr c ↦
            take_writer-ne-waits b pp' qq idx size mode payload (pop choice pp'.free)
              (simp c at (rw open_gate at h))
      ]
