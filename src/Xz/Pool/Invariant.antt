-- ===== src/Xz/Pool/Invariant.antt =====
-- What every method of the pool keeps.
use goxz.Base.{
  ℕ, ◌+◌, ◌-◌, ◌≤◌, ◌<◌, ◌≡◌, ap, sym, subst, ◌∙◌, arith, leb, Bool-cases, true, false, [], length,
  Option, none, some, ◌⊎◌, inl, inr, Option-cases,
}
use goxz.Base.Int.{pos}
use goxz.Bufpipe.{Bufpipe}
use goxz.Go.{ok}
use goxz.Xz.PipeSet.{
  Pipe, PipeSet, find, delete, remove, push, pop, count, first_met, count-push, length-push,
  count-delete, length-delete, find-some, first_met-some, first_met-none,
}
use goxz.Xz.Pool.{
  PipePool, returns, pipes, writer_waits, place_writer, take_writer, get_writer, restore,
}

module _ {P D : Type 0} where
  -- The pipes in the pool, and those with an index.
  abbrev pub pool_size : PipePool P D → ℕ
  pool_size pp = length pp.free + length (pipes pp.ready) + length pp.active

  abbrev pub total : ℕ → PipePool P D → ℕ
  total i pp = count i pp.free + count i (pipes pp.ready) + count i pp.active

  -- `len` counts the pipes of an open pool, and an index names one pipe at most.
  pub record Inv (pp : PipePool P D) : Type 0 where
    pub bounded : pool_size pp ≤ pp.len
    pub counted : (pp.ready ≡ none) ⊎ (pp.len ≡ pool_size pp)
    pub unique : (i : ℕ) → total i pp ≤ 1

  pub pop-cases :
      (choice : ℕ) (m : PipeSet P D)
      → ((pop choice m ≡ (none, m)) × (m ≡ []))
        ⊎ ((p : Pipe P D) × (pop choice m ≡ (some p, delete p.idx m)) × (1 ≤ count p.idx m))
  unfolding pop
  pop-cases choice m = elim (Option-cases (first_met choice m)) [
    | inl e ↦ inl (rw (e, pop), first_met-none choice m e)
    | inr (p, e) ↦ inr (p, rw (e, pop), first_met-some choice m e)
  ]

  pub place_writer-eq :
      (pp pp' : PipePool P D) (len : ℕ) (free : PipeSet P D) (p : Pipe P D) {r : Option (Pipe P D)}
      → place_writer pp len free p ≡ ok (returns pp' r)
      → (m : PipeSet P D) × (pp.ready ≡ some m)
        × (pp' ≡ record pp { len = len; free = free; ready = some (push m p) })
  unfolding place_writer
  place_writer-eq pp pp' len free p e = elim (Option-cases pp.ready) [
    | inl n ↦ absurd (ground arith)
    | inr (m, n) ↦ (m, n, ground arith)
  ]

  -- With room for one more pipe, of a new index.
  place_writer-Inv :
      (pp pp' : PipePool P D) (len : ℕ) (free : PipeSet P D) (p : Pipe P D) {r : Option (Pipe P D)}
      → place_writer pp len free p ≡ ok (returns pp' r)
      → count p.idx free + count p.idx (pipes pp.ready) + count p.idx pp.active ≡ 0
      → length free + length (pipes pp.ready) + length pp.active + 1 ≤ len
      → ((pp.ready ≡ none) ⊎ (len ≡ length free + length (pipes pp.ready) + length pp.active + 1))
      → ((i : ℕ) → count i free + count i (pipes pp.ready) + count i pp.active ≤ 1)
      → Inv pp'
  place_writer-Inv pp pp' len free p e f l c u =
      let (m, n, q) = place_writer-eq pp pp' len free p e in
      let shown : Inv (record pp { len = len; free = free; ready = some (push m p) }) = record {
        bounded = ground (arith, length-push m p);
        counted = ground (arith, length-push m p);
        unique = λ i. ground (arith, u i, count-push i m p);
      } in
      rw q shown

module _ (b : Bufpipe) {D : Type 0} where
  take_writer-Inv :
      (choice : ℕ) (pp pp' : PipePool (b.BufferPipe) D) (idx size mode : ℕ) (payload : Option D)
      {r : Option (Pipe (b.BufferPipe) D)}
      → take_writer b pp idx size mode payload (pop choice pp.free) ≡ ok (returns pp' r)
      → total idx pp ≡ 0
      → Inv pp
      → Inv pp'
  unfolding take_writer
  take_writer-Inv choice pp pp' idx size mode payload {r} e f v = elim (pop-cases choice pp.free) [
    | inl (q, n) ↦
        place_writer-Inv pp pp' (pp.len + 1) pp.free _ {r = r}
          (ap (take_writer b pp idx size mode payload) (sym q) ∙ e) (omega arith)
          (omega (arith, v.bounded)) (ground (arith, v.counted)) v.unique
    | inr (p, q, n) ↦
        place_writer-Inv pp pp' pp.len (delete p.idx pp.free) _ {r = r}
          (ap (take_writer b pp idx size mode payload) (sym q) ∙ e)
          (ground (arith, count-delete p.idx idx pp.free))
          (omega (arith, v.bounded, length-delete p.idx pp.free))
          (ground (arith, v.counted, v.unique p.idx, length-delete p.idx pp.free))
          (λ i. ground (arith, v.unique i, count-delete p.idx i pp.free))
  ]

  -- A call that returns: the pool is closed and unchanged, or a writer was taken.
  pub get_writer-cases :
      (choice : ℕ) (pp pp' : PipePool (b.BufferPipe) D) (idx size mode : ℕ) (payload : Option D)
      {r : Option (Pipe (b.BufferPipe) D)}
      → get_writer b choice pp (pos idx) size mode payload ≡ ok (returns pp' r)
      → ((pp ≡ pp') × (pp.closed ≡ true) × (r ≡ none))
        ⊎ ((take_writer b pp idx size mode payload (pop choice pp.free) ≡ ok (returns pp' r))
            × (writer_waits pp (pos idx) ≡ false)
            × (pp.closed ≡ false))
  unfolding get_writer
  get_writer-cases choice pp pp' idx size mode payload {r} e =
      elim (Bool-cases (writer_waits pp (pos idx))) [
        | inl w ↦ absurd (ground arith)
        | inr w ↦ elim (Bool-cases pp.closed) [
          | inl c ↦ inl (ground arith, c, ground arith)
          | inr c ↦ inr (simp c at (rw w at e), w, c)
        ]
      ]

  -- getWriter with an index that no pipe has.
  pub get_writer-Inv :
      (choice : ℕ) (pp pp' : PipePool (b.BufferPipe) D) (idx size mode : ℕ) (payload : Option D)
      {r : Option (Pipe (b.BufferPipe) D)}
      → get_writer b choice pp (pos idx) size mode payload ≡ ok (returns pp' r)
      → total idx pp ≡ 0
      → Inv pp
      → Inv pp'
  get_writer-Inv choice pp pp' idx size mode payload {r} e f v =
      elim (get_writer-cases choice pp pp' idx size mode payload {r = r} e) [
        | inl (q, _, _) ↦ subst Inv q v
        | inr (t, _, _) ↦ take_writer-Inv choice pp pp' idx size mode payload {r = r} t f v
      ]

  pub restore-cases :
      (pp pp' : PipePool (b.BufferPipe) D) (p : Pipe (b.BufferPipe) D)
      → restore b pp p ≡ ok pp'
      → (1 ≤ count p.idx pp.active)
        × (((pp.len ≤ pp.cap)
              × (pp' ≡ record pp {
                active = delete p.idx pp.active;
                free = push pp.free (record p { buffer_pipe = b.close p.buffer_pipe });
              }))
            ⊎ ((pp.cap < pp.len)
                × (pp' ≡ record pp { active = delete p.idx pp.active; len = pp.len - 1 })))
  unfolding restore remove
  restore-cases pp pp' p e = elim (Option-cases (find p.idx pp.active)) [
    | inl n ↦ absurd (ground arith)
    | inr (q, n) ↦ (
      (find-some p.idx pp.active n).1,
      elim (Bool-cases (leb pp.len pp.cap)) [
        | inl l ↦ inl (ground arith, ground arith)
        | inr l ↦ inr (ground arith, ground arith)
      ],
    )
  ]

  pub restore-Inv :
      (pp pp' : PipePool (b.BufferPipe) D) (p : Pipe (b.BufferPipe) D)
      → restore b pp p ≡ ok pp'
      → Inv pp
      → Inv pp'
  restore-Inv pp pp' p e v =
      let (n, c) = restore-cases pp pp' p e in
      let closed : Pipe (b.BufferPipe) D = record p { buffer_pipe = b.close p.buffer_pipe } in
      elim c [
        | inl (l, q) ↦
            let kept : Inv
                (record pp { active = delete p.idx pp.active; free = push pp.free closed }) =
              record {
                bounded = ground (
                  arith,
                  n,
                  v.bounded,
                  v.unique p.idx,
                  length-delete p.idx pp.active,
                  length-push pp.free closed,
                );
                counted = ground (
                  arith,
                  n,
                  v.counted,
                  v.unique p.idx,
                  length-delete p.idx pp.active,
                  length-push pp.free closed,
                );
                unique = λ i. ground (
                  arith,
                  n,
                  v.unique i,
                  count-delete p.idx i pp.active,
                  count-push i pp.free closed,
                );
              } in
            rw q kept
        | inr (l, q) ↦
            let dropped : Inv (record pp { active = delete p.idx pp.active; len = pp.len - 1 }) =
              record {
                bounded =
                    ground (arith, n, v.bounded, v.unique p.idx, length-delete p.idx pp.active);
                counted =
                    ground (arith, n, v.counted, v.unique p.idx, length-delete p.idx pp.active);
                unique = λ i. ground (arith, n, v.unique i, count-delete p.idx i pp.active);
              } in
            rw q dropped
      ]
