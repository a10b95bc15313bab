-- ===== src/Xz/Pool/Moves.antt =====
-- Where the pipe of an index stands after getWriter, getReader and restore.
use goxz.Base.{
  ℕ, ◌+◌, ◌≤◌, ◌≡◌, refl, sym, ap, ◌∙◌, arith, true, false, Option, none, some, ◌⊎◌, inl, inr,
  Option-cases, ◌==◌, if◌then◌else◌,
}
use goxz.Base.Int.{ℤ, pos, negsuc}
use goxz.Bufpipe.{Bufpipe}
use goxz.Go.{ok}
use goxz.Xz.PipeSet.{
  Pipe, PipeSet, find, delete, push, pop, count, count-push, count-delete, count-nil, find-some,
}
use goxz.Xz.Pool.{
  PipePool, returns, pipes, with_map, get_reader, get_writer, take_writer, place_writer, restore,
}
use goxz.Xz.Pool.Invariant.{pop-cases, place_writer-eq, get_writer-cases, restore-cases}
use goxz.Xz.Pool.Readers.{Handed, pipes-with_map}

module _ {P D : Type 0} where
  -- A pipe of a new index has come to the ready set, maybe out of the free one.
  pub record Placed (i : ℕ) (pp pp' : PipePool P D) : Type 0 where
    pub ready :
        (j : ℕ) → count j (pipes pp'.ready) ≡ (if i == j then 1 else count j (pipes pp.ready))
    pub active : pp'.active ≡ pp.active
    pub free : (j : ℕ) → count j pp'.free ≤ count j pp.free
    pub closed : pp'.closed ≡ pp.closed
    pub waits : pp'.wait_idx ≡ pp.wait_idx
    pub is_map : (m : PipeSet P D) × (pp'.ready ≡ some m)

  place_writer-Placed :
      (pp pp' : PipePool P D) (len : ℕ) (free : PipeSet P D) (p : Pipe P D) {r : Option (Pipe P D)}
      → place_writer pp len free p ≡ ok (returns pp' r)
      → ((j : ℕ) → count j free ≤ count j pp.free)
      → Placed p.idx pp pp'
  place_writer-Placed pp pp' len free p e f =
      let (m, n, q) = place_writer-eq pp pp' len free p e in
      let shown : Placed p.idx pp (record pp { len = len; free = free; ready = some (push m p) }) =
        record {
          ready = λ j. rw n (count-push j m p);
          active = refl;
          free = f;
          closed = refl;
          waits = refl;
          is_map = (push m p, refl);
        } in
      rw q shown

  place_writer-some :
      (pp pp' : PipePool P D) (len : ℕ) (free : PipeSet P D) (p : Pipe P D) {r : Option (Pipe P D)}
      → place_writer pp len free p ≡ ok (returns pp' r)
      → r ≡ some p
  unfolding place_writer
  place_writer-some pp pp' len free p e = elim (Option-cases pp.ready) [
    | inl n ↦ absurd (ground arith)
    | inr (m, n) ↦ ground arith
  ]

  -- A pipe has gone from the ready set to the active one.
  pub record Passed (p : Pipe P D) (pp pp' : PipePool P D) : Type 0 where
    pub was : 1 ≤ count p.idx (pipes pp.ready)
    pub ready :
        (j : ℕ) → count j (pipes pp'.ready) ≡ (if p.idx == j then 0 else count j (pipes pp.ready))
    pub active : (j : ℕ) → count j pp'.active ≡ (if p.idx == j then 1 else count j pp.active)
    pub free : pp'.free ≡ pp.free
    pub closed : pp'.closed ≡ pp.closed
    pub is_map : pp'.ready ≡ none → pp.ready ≡ none

  -- Nothing has moved.
  pub record Still (pp pp' : PipePool P D) : Type 0 where
    pub ready : pipes pp'.ready ≡ pipes pp.ready
    pub active : pp'.active ≡ pp.active
    pub free : pp'.free ≡ pp.free
    pub closed : pp'.closed ≡ pp.closed
    pub is_map : pp'.ready ≡ none → pp.ready ≡ none

  with_map-none :
      (ready : Option (PipeSet P D)) (m : PipeSet P D) → with_map ready m ≡ none → ready ≡ none
  with_map-none none m e = refl
  with_map-none (some _) m e = absurd (cc)

  pipes-same : (ready : Option (PipeSet P D)) → pipes (with_map ready (pipes ready)) ≡ pipes ready
  pipes-same none = refl
  pipes-same (some m) = refl

  pub Handed-cases :
      (pp pp' : PipePool P D) (w : ℤ) (r : Option (Pipe P D))
      → Handed pp pp' w r
      → (pp'.wait_idx ≡ w)
        × (((r ≡ none) × Still pp pp') ⊎ ((p : Pipe P D) × (r ≡ some p) × Passed p pp pp'))
  unfolding Handed
  Handed-cases pp pp' w r (inl (n, e)) = (
    ap (λ q. q.wait_idx) e,
    inl (
      n,
      rw e (record {
        ready = pipes-same pp.ready;
        active = refl;
        free = refl;
        closed = refl;
        is_map = with_map-none pp.ready _;
      }),
    ),
  )
  Handed-cases pp pp' w r (inr (p, n, c, e)) = (
    ap (λ q. q.wait_idx) e,
    inr (
      p,
      n,
      rw e (record {
        was = c;
        ready = λ j. rw (pipes-with_map p.idx pp.ready _ c) (count-delete p.idx j (pipes pp.ready));
        active = λ j. count-push j pp.active p;
        free = refl;
        closed = refl;
        is_map = with_map-none pp.ready _;
      }),
    ),
  )

  -- A reader of an index gets the pipe of that index.
  pub get_reader-idx :
      (choice i : ℕ) (pp pp' : PipePool P D) (p : Pipe P D)
      → get_reader choice pp (pos i) ≡ returns pp' (some p)
      → p.idx ≡ i
  unfolding get_reader
  get_reader-idx choice i pp pp' p e = elim (Option-cases (find i (pipes pp.ready))) [
    | inl n ↦ absurd (ground arith)
    | inr (q, n) ↦ let (x, _) = find-some i (pipes pp.ready) n in ground arith
  ]

  -- A reader of any index gets nil from a closed pool with nothing ready.
  pub get_reader-none :
      (choice n : ℕ) (pp pp' : PipePool P D)
      → get_reader choice pp (negsuc n) ≡ returns pp' none
      → (pp.closed ≡ true) × ((i : ℕ) → count i (pipes pp.ready) ≡ 0)
  unfolding get_reader
  get_reader-none choice n pp pp' e = elim (pop-cases choice (pipes pp.ready)) [
    | inr (p, q, c) ↦ absurd (ground arith)
    | inl (q, m) ↦ (ground arith, λ i. count-nil i (pipes pp.ready) m)
  ]

module _ (b : Bufpipe) {D : Type 0} where
  take_writer-Placed :
      (choice : ℕ) (pp pp' : PipePool (b.BufferPipe) D) (idx size mode : ℕ) (payload : Option D)
      {r : Option (Pipe (b.BufferPipe) D)}
      → take_writer b pp idx size mode payload (pop choice pp.free) ≡ ok (returns pp' r)
      → Placed idx pp pp'
  unfolding take_writer
  take_writer-Placed choice pp pp' idx size mode payload {r} e = elim (pop-cases choice pp.free) [
    | inl (q, n) ↦
        place_writer-Placed pp pp' (pp.len + 1) pp.free _ {r = r}
          (ap (take_writer b pp idx size mode payload) (sym q) ∙ e) (λ j. omega arith)
    | inr (p, q, n) ↦
        place_writer-Placed pp pp' pp.len (delete p.idx pp.free) _ {r = r}
          (ap (take_writer b pp idx size mode payload) (sym q) ∙ e)
          (λ j. ground (arith, count-delete p.idx j pp.free))
  ]

  take_writer-idx :
      (pp pp' : PipePool (b.BufferPipe) D) (idx size mode : ℕ) (payload : Option D)
      (popped : Option (Pipe (b.BufferPipe) D) × PipeSet (b.BufferPipe) D)
      {r : Option (Pipe (b.BufferPipe) D)}
      → take_writer b pp idx size mode payload popped ≡ ok (returns pp' r)
      → (p : Pipe (b.BufferPipe) D) × (r ≡ some p) × (p.idx ≡ idx)
  unfolding take_writer
  take_writer-idx pp pp' idx size mode payload (none, free) {r} e =
      (_, place_writer-some pp pp' (pp.len + 1) free _ {r = r} e, refl)
  take_writer-idx pp pp' idx size mode payload (some q, free) {r} e =
      (_, place_writer-some pp pp' pp.len free _ {r = r} e, refl)

  -- getWriter either returns nil from a closed pool, or has placed a pipe.
  pub get_writer-Placed :
      (choice : ℕ) (pp pp' : PipePool (b.BufferPipe) D) (idx size mode : ℕ) (payload : Option D)
      {r : Option (Pipe (b.BufferPipe) D)}
      → get_writer b choice pp (pos idx) size mode payload ≡ ok (returns pp' r)
      → ((pp ≡ pp') × (r ≡ none) × (pp.closed ≡ true))
        ⊎ (Placed idx pp pp'
            × (pp.closed ≡ false)
            × ((p : Pipe (b.BufferPipe) D) × (r ≡ some p) × (p.idx ≡ idx)))
  get_writer-Placed choice pp pp' idx size mode payload {r} e =
      elim (get_writer-cases b choice pp pp' idx size mode payload {r = r} e) [
        | inl (q, c, n) ↦ inl (q, n, c)
        | inr (t, _, o) ↦ inr (
          take_writer-Placed choice pp pp' idx size mode payload {r = r} t,
          o,
          take_writer-idx pp pp' idx size mode payload (pop choice pp.free) {r = r} t,
        )
      ]

  -- A pipe has gone from the active set, maybe to the free one.
  pub record Restored (i : ℕ) (pp pp' : PipePool (b.BufferPipe) D) : Type 0 where
    pub ready : pp'.ready ≡ pp.ready
    pub active : (j : ℕ) → count j pp'.active ≡ (if i == j then 0 else count j pp.active)
    pub free : (j : ℕ) → count j pp'.free ≤ (if i == j then 1 else 0) + count j pp.free
    pub closed : pp'.closed ≡ pp.closed
    pub waits : pp'.wait_idx ≡ pp.wait_idx

  pub restore-Restored :
      (pp pp' : PipePool (b.BufferPipe) D) (p : Pipe (b.BufferPipe) D)
      → restore b pp p ≡ ok pp'
      → Restored p.idx pp pp'
  restore-Restored pp pp' p e =
      let (n, c) = restore-cases b pp pp' p e in
      let closed : Pipe (b.BufferPipe) D = record p { buffer_pipe = b.close p.buffer_pipe } in
      elim c [
        | inl (_, q) ↦ rw q (record {
          ready = refl;
          active = λ j. count-delete p.idx j pp.active;
          free = λ j. ground (arith, count-push j pp.free closed);
          closed = refl;
          waits = refl;
        })
        | inr (_, q) ↦ rw q (record {
          ready = refl;
          active = λ j. count-delete p.idx j pp.active;
          free = λ j. ground arith;
          closed = refl;
          waits = refl;
        })
      ]
